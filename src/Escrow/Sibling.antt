-- ===== src/Escrow/Sibling.antt =====
-- `verify_ed25519_sibling` of programs/tap/src/instructions/settle.rs.
use tap.Base.{
  ℕ, ◌+◌, ◌≡◌, refl, ap, Bool, le→leb, true, false, ◌&&◌, if◌then◌else◌, List, [], ◌∷◌, ◌++◌, ◌==◌,
  leb, length,
}
use tap.Base.Text.{text_eq, text_eq_iff}
use tap.Base.Bytes.{from_bytes}
use tap.External.{Keys, ◌==ₖ◌}
use tap.Chain.Account.{slice, byte_at}
use tap.Chain.Ed25519Ix.Sibling.{u16_at, IsSigned, Indexes, layout, layout-IsSigned}
use tap.Chain.Instruction.{Instruction}

-- The body of the loop on one instruction's data.
unfoldable pub matches : List ℕ → List ℕ → List ℕ → List ℕ → Bool
matches expected_pubkey expected_message expected_signature bytes =
    leb 16 (length bytes)
    && (byte_at 0 bytes == 1)
    && leb (u16_at 6 bytes + 32) (length bytes)
    && leb (u16_at 2 bytes + 64) (length bytes)
    && leb (u16_at 10 bytes + u16_at 12 bytes) (length bytes)
    && text_eq (slice (u16_at 6 bytes) 32 bytes) expected_pubkey
    && text_eq (slice (u16_at 2 bytes) 64 bytes) expected_signature
    && text_eq (slice (u16_at 10 bytes) (u16_at 12 bytes) bytes) expected_message

matches-IsSigned :
    (bytes pubkey signature message : List ℕ)
    → IsSigned bytes pubkey signature message
    → matches pubkey message signature bytes ≡ true
unfolding matches from_bytes
matches-IsSigned bytes pubkey signature message s =
    rw
      (
        le→leb _ _ s.header,
        ap from_bytes s.one_signature,
        le→leb _ _ s.key_within,
        le→leb _ _ s.signed_within,
        le→leb _ _ s.text_within,
        (text_eq_iff (slice (u16_at 6 bytes) 32 bytes) pubkey).1 s.key,
        (text_eq_iff (slice (u16_at 2 bytes) 64 bytes) signature).1 s.signed,
        (text_eq_iff (slice (u16_at 10 bytes) (u16_at 12 bytes) bytes) message).1 s.text,
      )
      refl

module _ {K : Type 0} ⦃keys : Keys K⦄ (ed25519_program_id : K) where
  -- The instructions are those of the transaction, as the sysvar gives them.
  unfoldable pub verify_ed25519_sibling : List (Instruction K) → List ℕ → List ℕ → List ℕ → Bool
  unfolding matches
  verify_ed25519_sibling [] pubkey message signature = false
  verify_ed25519_sibling (ix ∷ ixs) pubkey message signature =
      let later = verify_ed25519_sibling ixs pubkey message signature in
      if (ix.program_id ==ₖ ed25519_program_id) && matches pubkey message signature ix.data_bytes
      then true
      else later

  -- An instruction that holds the key, the signature and the message satisfies the check as the
  -- first of the transaction.
  pub verify_ed25519_sibling-IsSigned :
      (ix : Instruction K) (ixs : List (Instruction K)) (pubkey message signature : List ℕ)
      → ix.program_id ≡ ed25519_program_id
      → IsSigned ix.data_bytes pubkey signature message
      → verify_ed25519_sibling (ix ∷ ixs) pubkey message signature ≡ true
  unfolding verify_ed25519_sibling
  verify_ed25519_sibling-IsSigned ix ixs pubkey message signature p s =
      rw
        (
          (keys.beq_iff ix.program_id ed25519_program_id).1 p,
          matches-IsSigned ix.data_bytes pubkey signature message s,
        )
        refl

  -- Data laid out as the builder lays it out passes the check for its key, signature and message,
  -- whatever its three instruction indexes are: the check does not look at where the signature
  -- program reads what it verifies.
  pub verify_ed25519_sibling-layout :
      (i : Indexes) (a b : ℕ) (ixs : List (Instruction K)) (pubkey message signature : List ℕ)
      → length pubkey ≡ 32
      → length signature ≡ 64
      → from_bytes (a ∷ b ∷ []) ≡ length message
      → verify_ed25519_sibling
          (record {
            program_id = ed25519_program_id;
            data_bytes = layout i a b (pubkey ++ (signature ++ message));
            accounts = [];
          }
            ∷ ixs)
          pubkey
          message
          signature
        ≡ true
  verify_ed25519_sibling-layout i a b ixs pubkey message signature k s m =
      verify_ed25519_sibling-IsSigned _ ixs pubkey message signature refl
        (layout-IsSigned i a b pubkey signature message k s m)
