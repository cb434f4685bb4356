-- ===== src/Producer/Verifier.antt =====
-- sdk/python/tap/producer/verifier.py
pub mod Accepts
use tap.Base.{ℕ, Option, none, some, not}
use tap.Base.Int.{ℤ, ltb_ℤ, leb_ℤ}
use tap.Base.Exceptions.{Result, ok, commitment_error, raise_if, ◌>>◌, ◌>>=◌}
use tap.External.{Keys, Ed25519, ◌==ₖ◌}
use tap.Protocol.Commit.{CommitMessage, SignedCommitment}
use tap.Protocol.Signing.{verify_commitment}
use tap.Producer.Channel.{ActiveChannel, note_commit}

module _ {K : Type 0} where
  -- `if last is not None: ...`
  unfoldable pub check_last : Option (SignedCommitment K) → SignedCommitment K → Result (Unit {0})
  check_last none signed = ok tt
  check_last (some last) signed = do
    raise_if (leb_ℤ signed.message.sequence last.message.sequence)
        (commitment_error "commitment sequence is not strictly greater")
    raise_if (ltb_ℤ signed.message.cumulative_paid last.message.cumulative_paid)
        (commitment_error "commitment cumulative_paid is non-monotonic")

module _ {K SK : Type 0} ⦃keys : Keys K⦄ (ed : Ed25519 SK) where
  -- The channel after an accepted commitment; an exception leaves it as it was.
  unfoldable pub accept_commitment :
      ℤ → ActiveChannel K → SignedCommitment K → Result (ActiveChannel K)
  accept_commitment now channel signed = do
    raise_if (not (signed.message.channel ==ₖ channel.channel_id))
        (commitment_error "commitment is for a different channel")
    check_last channel.last_commitment signed
    raise_if (ltb_ℤ signed.message.cumulative_paid channel.prepaid_input_micro)
        (commitment_error "commitment cumulative_paid is below the prepaid input floor")
    raise_if (ltb_ℤ channel.deposit_micro signed.message.cumulative_paid)
        (commitment_error "commitment cumulative_paid exceeds deposit")
    verify_commitment ed signed channel.session_key
    ok (note_commit now signed channel)
