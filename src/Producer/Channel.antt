-- ===== src/Producer/Channel.antt =====
-- sdk/python/tap/producer/channel.py. Methods that mutate the channel return the new one; the clock
-- that they read is an argument, in milliseconds.
use tap.Base.{ℕ, ◌+◌, String, Bool, true, Option, none, some}
use tap.Base.Int.{ℤ, pos, ◌-ℤ◌, ◌*ℤ◌, max_ℤ}
use tap.Protocol.Commit.{SignedCommitment}

pub record ActiveChannel (K : Type 0) : Type 0 where
  pub channel_id : K
  pub consumer : K
  pub session_key : K
  pub consumer_usdc : K
  pub deposit_micro : ℤ
  pub input_price_micro : ℤ
  pub output_price_micro : ℤ
  pub prepaid_input_micro : ℤ
  pub trailing_buffer_tokens : ℤ
  pub expires_at_ms : ℤ
  pub tokens_delivered : ℕ
  pub last_commitment : Option (SignedCommitment K)
  pub last_commit_at_ms : ℤ
  pub halted : Bool
  pub halted_reason : Option String

module _ {K : Type 0} where
  unfoldable pub cumulative_paid_micro : ActiveChannel K → ℤ
  cumulative_paid_micro c = elim c.last_commitment [
    | none ↦ c.prepaid_input_micro
    | some last ↦ last.message.cumulative_paid
  ]

  unfoldable pub output_value_delivered_micro : ActiveChannel K → ℤ
  output_value_delivered_micro c = pos c.tokens_delivered *ℤ c.output_price_micro

  unfoldable pub unpaid_value_micro : ActiveChannel K → ℤ
  unfolding output_value_delivered_micro cumulative_paid_micro
  unpaid_value_micro c =
      let committed_output = max_ℤ (pos 0) (cumulative_paid_micro c -ℤ c.prepaid_input_micro) in
      output_value_delivered_micro c -ℤ committed_output

  unfoldable pub trailing_buffer_micro : ActiveChannel K → ℤ
  trailing_buffer_micro c = c.trailing_buffer_tokens *ℤ c.output_price_micro

  unfoldable pub note_token : ActiveChannel K → ActiveChannel K
  note_token c = record c { tokens_delivered = c.tokens_delivered + 1 }

  unfoldable pub note_commit : ℤ → SignedCommitment K → ActiveChannel K → ActiveChannel K
  note_commit now signed c = record c { last_commitment = some signed; last_commit_at_ms = now }

  unfoldable pub mark_halted : String → ActiveChannel K → ActiveChannel K
  mark_halted reason c = record c { halted = true; halted_reason = some reason }
