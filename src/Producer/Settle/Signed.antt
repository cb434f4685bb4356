-- ===== src/Producer/Settle/Signed.antt =====
-- What the producer submits to settle, as the program's handler `settle` looks at it
-- (programs/tap/src/instructions/settle.rs).
use tap.Base.{ℕ, ◌≡◌, sym, ap, List, [], ◌∷◌}
use mathlib.Core.Path.{subst}
use tap.Base.Exceptions.{ok, >>=-eq-ok, ok-injective}
use tap.External.{Keys}
use tap.Protocol.Commit.{SignedCommitment}
use tap.Protocol.Codec.{encode_commitment_bytes}
use tap.Chain.Pda.{Solana}
use tap.Chain.Instruction.{Instruction}
use tap.Chain.Ed25519Ix.{verify_data, ed25519_verify_ix}
use tap.Chain.Ed25519Ix.Sibling.{IsSigned, verify_data-IsSigned}
use tap.Chain.Program.{settle_ix}
use tap.Producer.Channel.{ActiveChannel}
use tap.Producer.Settle.{settle_instructions}

module _ {K : Type 0} ⦃keys : Keys K⦄ (solana : Solana K) where
  open keys use {key_bytes}

  -- The first of the instructions goes to the signature program and holds the session key, the
  -- bytes of the commitment and its signature, where the program looks for them.
  pub settle_instructions-IsSigned :
      (producer : K) (channel : ActiveChannel K) (signed : SignedCommitment K)
      {instructions : List (Instruction K)}
      → settle_instructions solana producer channel signed ≡ ok instructions
      → (verify : Instruction K) × (settle : Instruction K) × (message : List ℕ) × (instructions
          ≡ verify ∷ settle ∷ [])
        × (encode_commitment_bytes signed.message ≡ ok message)
        × (verify.program_id ≡ solana.ed25519_program_id)
        × IsSigned verify.data_bytes (key_bytes channel.session_key) signed.signature message
  unfolding settle_instructions ed25519_verify_ix
  settle_instructions-IsSigned producer channel signed h =
      let (message, encoded, h1) = >>=-eq-ok (encode_commitment_bytes signed.message) _ h in
      let (verify, built, h2) =
        >>=-eq-ok
          (ed25519_verify_ix solana (key_bytes channel.session_key) signed.signature message) _
          h1 in
      let (settle, _, h3) =
        >>=-eq-ok
          (settle_ix solana producer channel.channel_id channel.consumer producer signed.message
            signed.signature)
          _ h2 in
      let (bytes, laid, made) =
        >>=-eq-ok (verify_data (key_bytes channel.session_key) signed.signature message) _ built in
      (
        verify,
        settle,
        message,
        sym (ok-injective h3),
        encoded,
        ap (λ (i : Instruction K). i.program_id) (sym (ok-injective made)),
        subst
            (λ (i : Instruction K).
              IsSigned i.data_bytes (key_bytes channel.session_key) signed.signature message)
            (ok-injective made)
            (verify_data-IsSigned (key_bytes channel.session_key) signed.signature message laid),
      )
