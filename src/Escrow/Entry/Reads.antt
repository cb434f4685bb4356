-- ===== src/Escrow/Entry/Reads.antt =====
-- What the entry points (programs/tap/src/lib.rs) read of the instructions that the Python builders
-- (sdk/python/tap/chain/instructions.py) write.
use tap.Base.{
  ℕ, ◌<◌, ◌^◌, ◌≡◌, refl, sym, ap, ◌∙◌, some, String, List, [], ◌∷◌, ◌++◌, length, length-take, not,
  true, ◌==◌, take-append, arith,
}
use mathlib.Core.Path.{subst}
use mathlib.Core.List.{append_assoc, append-nil}
use tap.Base.Text.{codes, text_eq_refl}
use tap.Base.Bytes.{le_bytes, length-le_bytes, from_bytes, from_bytes-le_bytes}
use tap.Base.Exceptions.{ok, raise_if, value_error, >>=-eq-ok, ok-injective}
use tap.External.{Keys}
use tap.Chain.Pda.{Solana, disc, derive_vault_pda}
use tap.Chain.Account.{slice}
use tap.Chain.Account.Layout.{flat, HasWidths, offset, width, chunk, slice-chunk, length-flat}
use tap.Chain.Instruction.{Instruction}
use tap.Escrow.Commitment.{
  Commitment, IsCommitment, to_python, message_bytes, encode_commitment_bytes-to_python,
}
use tap.Protocol.Codec.{encode_commitment_bytes}
use tap.Chain.Program.{settle_ix, close_ix}
use tap.Escrow.Entry.{Ledger, commit_args, check_entry, settle_accounts, close_accounts}

abbrev widths : List ℕ
widths = 8 ∷ 32 ∷ 8 ∷ 8 ∷ 4 ∷ 8 ∷ 64 ∷ []

module _ {A : Type 0} where
  regroup :
      (d k a b c t s : List A)
      → d ++ ((k ++ (a ++ (b ++ (c ++ t)))) ++ s)
        ≡ d ++ (k ++ (a ++ (b ++ (c ++ (t ++ (s ++ []))))))
  regroup d k a b c t s = simp (append_assoc, append-nil)

module _ {K : Type 0} ⦃keys : Keys K⦄ where
  open keys use {key_bytes, length-key_bytes, from_key_bytes_lem}

  module _ (d : List ℕ) (c : Commitment K) (signature : List ℕ) (eight : length d ≡ 8)
      (whole : length signature ≡ 64) where
    abbrev parts : List (List ℕ)
    parts =
        d
        ∷ key_bytes c.channel
        ∷ le_bytes 8 c.sequence
        ∷ le_bytes 8 c.cumulative_paid
        ∷ le_bytes 4 c.tokens_received
        ∷ le_bytes 8 c.timestamp_ms
        ∷ signature
        ∷ []

    parts-HasWidths : HasWidths widths parts
    parts-HasWidths = (
      eight,
      (
        length-key_bytes c.channel,
        (
          length-le_bytes 8 c.sequence,
          (
            length-le_bytes 8 c.cumulative_paid,
            (length-le_bytes 4 c.tokens_received, (length-le_bytes 8 c.timestamp_ms, (whole, tt))),
          ),
        ),
      ),
    )

    number_at :
        (k n v : ℕ)
        → chunk k parts ≡ le_bytes n v
        → v < 256 ^ n
        → from_bytes (slice (offset k widths) (width k widths) (flat parts)) ≡ v
    number_at k n v e fits =
        ap from_bytes (slice-chunk k widths parts parts-HasWidths ∙ e)
        ∙ from_bytes-le_bytes n v fits

    commit_args-flat :
        (solana : Solana K) → IsCommitment c → commit_args solana (flat parts) ≡ ok (c, signature)
    unfolding commit_args
    commit_args-flat solana fits =
        rw
          (
            length-flat widths parts parts-HasWidths,
            ap keys.from_key_bytes (slice-chunk 1 widths parts parts-HasWidths)
                ∙ from_key_bytes_lem c.channel,
            number_at 2 8 c.sequence refl fits.sequence,
            number_at 3 8 c.cumulative_paid refl fits.cumulative_paid,
            number_at 4 4 c.tokens_received refl fits.tokens_received,
            number_at 5 8 c.timestamp_ms refl fits.timestamp_ms,
            slice-chunk 6 widths parts parts-HasWidths,
          )
          refl

    -- The data that the builder writes for `settle` and `dispute`.
    pub commit_args-message_bytes :
        (solana : Solana K)
        → IsCommitment c
        → commit_args solana (d ++ (message_bytes c ++ signature)) ≡ ok (c, signature)
    unfolding message_bytes
    commit_args-message_bytes solana fits =
        ap (commit_args solana) (
          regroup d (key_bytes c.channel) (le_bytes 8 c.sequence) (le_bytes 8 c.cumulative_paid)
            (le_bytes 4 c.tokens_received) (le_bytes 8 c.timestamp_ms) signature)
        ∙ commit_args-flat solana fits

  pub beq_refl : (k : K) → keys.beq k k ≡ true
  beq_refl k = (keys.beq_iff k k).1 refl

  module _ (solana : Solana K) where
    pub length-disc : (name : String) → length (disc solana name) ≡ 8
    unfolding disc
    length-disc name =
        let named = codes "global:" ++ codes name in
        omega (arith, length-take 8 (solana.sha256 named), solana.length-sha256 named)

    pub check_entry-disc :
        (name : String) (ix : Instruction K) (rest : List ℕ)
        → ix.program_id ≡ solana.program_id
        → ix.data_bytes ≡ disc solana name ++ rest
        → check_entry solana name ix ≡ ok tt
    unfolding check_entry
    check_entry-disc name ix rest p e =
        rw
          (
            (keys.beq_iff ix.program_id solana.program_id).1 p,
            e,
            take-append 8 (disc solana name) rest (length-disc name),
            text_eq_refl (disc solana name),
          )
          refl

  -- What the entry point `settle` finds in an instruction.
  pub record Reads (solana : Solana K) (channel consumer producer : K) (c : Commitment K)
      (signature : List ℕ) (ix : Instruction K) : Type 0 where
    pub named : check_entry solana "settle" ix ≡ ok tt
    pub args : commit_args solana ix.data_bytes ≡ ok (c, signature)
    pub accounts :
        settle_accounts solana ix.accounts
        ≡ ok (record { channel = channel; consumer = consumer; producer = producer })

  module _ (solana : Solana K) where
    -- It finds in the instruction of `settle_ix` what that was given.
    pub settle_ix-Reads :
        (caller channel consumer producer : K) (c : Commitment K) (signature : List ℕ)
        {ix : Instruction K}
        → IsCommitment c
        → settle_ix solana caller channel consumer producer (to_python c) signature ≡ ok ix
        → Reads solana channel consumer producer c signature ix
    unfolding settle_ix settle_accounts
    settle_ix-Reads caller channel consumer producer c signature {ix} fits h =
        let (_, whole, h1) = >>=-eq-ok (raise_if (not (length signature == 64)) value_error) _ h in
        let (bytes, encoded, made) = >>=-eq-ok (encode_commitment_bytes (to_python c)) _ h1 in
        let text : bytes ≡ message_bytes c =
          ok-injective (sym encoded ∙ encode_commitment_bytes-to_python c fits) in
        let sixty_four : length signature ≡ 64 = ground (arith, whole) in
        subst (Reads solana channel consumer producer c signature) (ok-injective made) (record {
          named = check_entry-disc solana "settle" _ (bytes ++ signature) refl refl;
          args =
              ap (λ b. commit_args solana (disc solana "settle" ++ (b ++ signature))) text
              ∙ commit_args-message_bytes (disc solana "settle") c signature
                  (length-disc solana "settle") sixty_four solana fits;
          accounts = rw (beq_refl solana.instructions_sysvar) refl;
        })

    -- The entry point `close` takes the accounts that `close_ix` was given, with the vault of the
    -- channel, if the token accounts are the parties'.
    pub close_ix-accounts :
        (ledger : Ledger K) (caller channel consumer producer consumer_usdc producer_usdc : K)
        → ledger.owner producer_usdc ≡ some producer
        → ledger.owner consumer_usdc ≡ some consumer
        → close_accounts solana ledger
            (close_ix solana caller channel consumer producer consumer_usdc producer_usdc).accounts
          ≡ ok (record {
            channel = channel;
            consumer = consumer;
            producer = producer;
            vault = (derive_vault_pda solana channel).0;
            producer_usdc = producer_usdc;
            consumer_usdc = consumer_usdc;
          })
    unfolding close_ix close_accounts
    close_ix-accounts ledger caller channel consumer producer consumer_usdc producer_usdc p c =
        rw
          (
            beq_refl (derive_vault_pda solana channel).0,
            p,
            c,
            beq_refl producer,
            beq_refl consumer,
            beq_refl solana.token_program_id,
          )
          refl

    pub close_ix-named :
        (caller channel consumer producer consumer_usdc producer_usdc : K)
        → check_entry solana "close"
            (close_ix solana caller channel consumer producer consumer_usdc producer_usdc)
          ≡ ok tt
    unfolding close_ix
    close_ix-named caller channel consumer producer consumer_usdc producer_usdc =
        check_entry-disc solana "close" _ [] refl (sym (append-nil (disc solana "close")))
