-- ===== src/Agreement.antt =====
-- The two ends of a channel together: what the consumer's session (sdk/python/tap/consumer) posts,
-- as the producer's verifier (sdk/python/tap/producer) sees it.
pub mod Peer
pub mod Deliver
pub mod Quote
pub mod Settlement
pub mod Submitted
pub mod Proceeds
pub mod Spending
pub mod Closing
pub mod Handshake
use tap.Base.{ℕ, ◌≡◌, Option, none, some, List, [], ◌∷◌}
use tap.Base.Int.{ℤ, pos, ◌≤ℤ◌}
use tap.Base.Exceptions.{Result, ok, err, ◌>>=◌}
use tap.External.{Keys, Ed25519}
use tap.Protocol.Commit.{CommitMessage, SignedCommitment}
use tap.Producer.Channel.{ActiveChannel}
use tap.Producer.Verifier.{accept_commitment}
use tap.Consumer.Session.{ConsumerSession}

module _ {K SK : Type 0} ⦃keys : Keys K⦄ (ed : Ed25519 SK) (now : ℤ) where
  -- The channel after the commitments of a list, newest first, were posted in their order; the
  -- first that the verifier refuses ends it with the exception.
  unfoldable pub deliver : ActiveChannel K → List (SignedCommitment K) → Result (ActiveChannel K)
  deliver c [] = ok c
  deliver c (s ∷ older) = do c' ← deliver c older; accept_commitment ed now c' s
