-- ===== src/Protocol/Commit.antt =====
-- sdk/python/tap/protocol/commit.py. The integers are Python's: signed and unbounded, since
-- `decode_commitment` takes whatever `int(...)` gives.
use tap.Base.{ℕ, List}
use tap.Base.Int.{ℤ}

pub record CommitMessage (K : Type 0) : Type 0 where
  pub channel : K
  pub sequence : ℤ
  pub cumulative_paid : ℤ
  pub tokens_received : ℤ
  pub timestamp_ms : ℤ

pub record SignedCommitment (K : Type 0) : Type 0 where
  pub message : CommitMessage K
  pub signature : List ℕ
