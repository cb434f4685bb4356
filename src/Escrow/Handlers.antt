-- ===== src/Escrow/Handlers.antt =====
-- programs/tap/src/instructions (open_channel.rs, settle.rs, dispute.rs, close.rs), with the
-- account constraints of programs/tap/src/lib.rs that can fail on one channel. The clock is the
-- sysvar's, in seconds. The token program is an interface: a transfer out of the funds that are
-- there moves them, and an account is closed exactly when it is empty.
use tap.Base.{
  ℕ, ◌+◌, ◌-◌, ◌*◌, ◌≤◌, ◌<◌, ◌^◌, ◌≡◌, not, Bool, true, false, Option, none, some, List, ◌==◌, ltb,
  leb, max, min, if◌then◌else◌,
}
use tap.Base.Int.{ℤ, pos, negsuc, ◌+ℤ◌, ltb_ℤ, leb_ℤ, min_ℤ, max_ℤ}
use tap.Base.Exceptions.{external, Result, ok, err, raise_if, or_raise, ◌>>=◌, ◌>>◌}
use tap.External.{Keys, ◌==ₖ◌}
use tap.Chain.Account.{ChannelStatus, active, settling, closed, ChannelAccount}
use tap.Chain.Instruction.{Instruction}
use tap.Escrow.Commitment.{Commitment, message_bytes}
use tap.Escrow.Sibling.{verify_ed25519_sibling}

pub record TokenProgram : Type 0 where
  -- of an amount from one balance to another
  pub transfer : ℕ → ℕ → ℕ → Option (ℕ × ℕ)
  pub transfer_ok : (n from to : ℕ) → n ≤ from → transfer n from to ≡ some (from - n, to + n)
  pub transfer_short : (n from to : ℕ) → from < n → transfer n from to ≡ none
  -- whether an account with this balance can be closed
  pub close_account : ℕ → Bool
  pub close_account_empty : close_account 0 ≡ true
  pub close_account_funded : (n : ℕ) → 0 < n → close_account n ≡ false

-- What the program's transactions can change for one channel.
pub record Escrow (K : Type 0) : Type 0 where
  pub channel : Option (ChannelAccount K)
  pub vault : ℕ
  pub consumer_usdc : ℕ
  pub producer_usdc : ℕ

-- `i64::saturating_add`
unfoldable pub saturating_add : ℤ → ℤ → ℤ
saturating_add a b = max_ℤ (negsuc (2 ^ 63 - 1)) (min_ℤ (pos (2 ^ 63 - 1)) (a +ℤ b))

-- `u64::saturating_mul`
unfoldable pub saturating_mul : ℕ → ℕ → ℕ
saturating_mul a b = min (2 ^ 64 - 1) (a * b)

-- The arguments of `open_channel`, with the accounts' keys and the bumps.
pub record OpenArgs (K : Type 0) : Type 0 where
  pub consumer : K
  pub producer : K
  pub bump : ℕ
  pub vault_bump : ℕ
  pub channel_nonce : ℕ
  pub session_key : K
  pub deposit_micro : ℕ
  pub input_price_micro : ℕ
  pub output_price_micro : ℕ
  pub prepaid_input_micro : ℕ
  pub duration_secs : ℕ
  pub dispute_secs : ℕ
  pub trailing_buffer : ℕ

module _ {K : Type 0} where
  unfoldable pub opened_account : ℤ → OpenArgs K → ChannelAccount K
  unfolding saturating_add saturating_mul
  opened_account now args = record {
    bump = args.bump;
    vault_bump = args.vault_bump;
    nonce = args.channel_nonce;
    consumer = args.consumer;
    producer = args.producer;
    session_key = args.session_key;
    deposit_micro = args.deposit_micro;
    input_price_micro = args.input_price_micro;
    output_price_micro = args.output_price_micro;
    prepaid_input_micro = args.prepaid_input_micro;
    trailing_buffer_micro = saturating_mul args.trailing_buffer args.output_price_micro;
    last_sequence = 0;
    last_cumulative_paid = 0;
    expires_at = saturating_add now (pos args.duration_secs);
    settled_at = pos 0;
    dispute_secs = args.dispute_secs;
    status = active;
  }

  unfoldable pub check_open : OpenArgs K → Result (Unit {0})
  check_open args = do
    raise_if (args.deposit_micro == 0) (external "DepositZero")
    raise_if (args.input_price_micro == 0) (external "InputPriceZero")
    raise_if (args.output_price_micro == 0) (external "OutputPriceZero")
    raise_if (ltb args.deposit_micro args.prepaid_input_micro)
        (external "PrepaidInputExceedsDeposit")
    raise_if (ltb 2_592_000 args.duration_secs) (external "DurationTooLong")
    raise_if (ltb 600 args.dispute_secs) (external "DisputeWindowTooLong")
    raise_if (ltb 64 args.trailing_buffer) (external "TrailingBufferTooLarge")

  -- `init` wants no account at the channel's address.
  abbrev pub check_new : Option (ChannelAccount K) → Result (Unit {0})
  check_new none = ok tt
  check_new (some _) = err (external "account already in use")

  unfoldable pub open_channel : TokenProgram → ℤ → OpenArgs K → Escrow K → Result (Escrow K)
  unfolding check_open opened_account
  open_channel token now args e = do
    check_new e.channel
    check_open args
    moved ←
        or_raise (token.transfer args.deposit_micro e.consumer_usdc e.vault)
          (external "insufficient funds")
    ok (record e {
      channel = some (opened_account now args);
      vault = moved.1;
      consumer_usdc = moved.0;
    })

abbrev pub is_status : ChannelStatus → ChannelStatus → Bool
is_status active active = true
is_status settling settling = true
is_status closed closed = true
is_status _ _ = false

-- `if amount > 0 { token::transfer(...)?; }`
unfoldable pub pay_out : TokenProgram → ℕ → ℕ → ℕ → Result (ℕ × ℕ)
pay_out token n from to =
    if n == 0
    then ok (from, to)
    else or_raise (token.transfer n from to) (external "insufficient funds")

module _ {K : Type 0} where
  abbrev pub dispute_until : ChannelAccount K → ℤ
  dispute_until a = saturating_add a.settled_at (pos a.dispute_secs)

  unfoldable pub check_close : ℤ → ChannelAccount K → Result (Unit {0})
  unfolding saturating_add
  check_close now a = elim a.status [
    | settling ↦ raise_if (leb_ℤ now (dispute_until a)) (external "DisputeWindowOpen")
    | active ↦ raise_if (leb_ℤ now a.expires_at) (external "ChannelNotSettling")
    | closed ↦ err (external "ChannelNotSettling")
  ]

  unfoldable pub paid : ChannelAccount K → ℕ
  paid a = max a.last_cumulative_paid a.prepaid_input_micro

  -- `deposit_micro.saturating_sub(paid)`
  unfoldable pub refund : ChannelAccount K → ℕ
  unfolding paid
  refund a = a.deposit_micro - paid a

module _ {K : Type 0} ⦃keys : Keys K⦄ where
  open keys use {key_bytes}

  -- `has_one = consumer` and `has_one = producer`
  unfoldable pub check_parties : K → K → ChannelAccount K → Result (Unit {0})
  check_parties consumer producer a = do
    raise_if (not (a.consumer ==ₖ consumer)) (external "ConstraintHasOne")
    raise_if (not (a.producer ==ₖ producer)) (external "ConstraintHasOne")

  -- The checks that settle and dispute share, written in both.
  unfoldable pub check_commitment : K → ChannelAccount K → Commitment K → Result (Unit {0})
  check_commitment channel_key a c = do
    raise_if (not (c.channel ==ₖ channel_key)) (external "CommitmentChannelMismatch")
    raise_if (leb c.sequence a.last_sequence) (external "CommitmentSequenceStale")
    raise_if (ltb c.cumulative_paid a.last_cumulative_paid) (external "CommitmentNonMonotonic")
    raise_if (ltb c.cumulative_paid a.prepaid_input_micro) (external "CommitmentBelowPrepaidInput")
    raise_if (ltb a.deposit_micro c.cumulative_paid) (external "CommitmentExceedsDeposit")

  unfoldable pub check_signature :
      K → List (Instruction K) → ChannelAccount K → Commitment K → List ℕ → Result (Unit {0})
  check_signature ed25519_program_id ixs a c signature =
      raise_if
        (not (
          verify_ed25519_sibling ed25519_program_id ixs (key_bytes a.session_key) (message_bytes c)
            signature))
        (external "InvalidCommitmentSignature")

  module _ (ed25519_program_id channel_key : K) where
    -- On the account; `ixs` are the transaction's instructions.
    unfoldable pub settle :
        ℤ
        → K
        → K
        → List (Instruction K)
        → Commitment K
        → List ℕ
        → ChannelAccount K
        → Result (ChannelAccount K)
    unfolding check_parties check_commitment check_signature
    settle now consumer producer ixs c signature a = do
      check_parties consumer producer a
      raise_if (not (is_status a.status active)) (external "ChannelNotActive")
      check_commitment channel_key a c
      check_signature ed25519_program_id ixs a c signature
      raise_if (ltb_ℤ a.expires_at now) (external "ChannelExpired")
      ok (record a {
        last_sequence = c.sequence;
        last_cumulative_paid = c.cumulative_paid;
        settled_at = now;
        status = settling;
      })

    unfoldable pub dispute :
        ℤ
        → K
        → K
        → List (Instruction K)
        → Commitment K
        → List ℕ
        → ChannelAccount K
        → Result (ChannelAccount K)
    unfolding check_parties check_commitment check_signature saturating_add
    dispute now consumer producer ixs c signature a = do
      check_parties consumer producer a
      raise_if (not (is_status a.status settling)) (external "ChannelNotSettling")
      raise_if (ltb_ℤ (dispute_until a) now) (external "DisputeWindowElapsed")
      check_commitment channel_key a c
      check_signature ed25519_program_id ixs a c signature
      ok (record a { last_sequence = c.sequence; last_cumulative_paid = c.cumulative_paid })

  -- The account is closed with the channel; its rent is left out.
  unfoldable pub close : TokenProgram → ℤ → K → K → Escrow K → Result (Escrow K)
  unfolding check_parties check_close pay_out paid refund
  close token now consumer producer e = do
    a ← or_raise e.channel (external "AccountNotInitialized")
    check_parties consumer producer a
    check_close now a
    to_producer ← pay_out token (paid a) e.vault e.producer_usdc
    to_consumer ← pay_out token (refund a) to_producer.0 e.consumer_usdc
    raise_if (not (token.close_account to_consumer.0)) (external "NonNativeHasBalance")
    ok (record {
      channel = none;
      vault = 0;
      consumer_usdc = to_consumer.1;
      producer_usdc = to_producer.1;
    })
