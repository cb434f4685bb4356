-- ===== src/Protocol/Codec.antt =====
-- sdk/python/tap/protocol/codec.py, the canonical byte form.
pub mod Layout
use tap.Base.{ℕ, List, ◌++◌}
use tap.Base.Bytes.{to_bytes}
use tap.Base.Exceptions.{Result, ok, ◌>>=◌}
use tap.External.{Keys}
use tap.Protocol.Commit.{CommitMessage}

module _ {K : Type 0} ⦃keys : Keys K⦄ where
  open keys use {key_bytes}

  -- Raises `OverflowError` where a field does not fit its width.
  unfoldable pub encode_commitment_bytes : CommitMessage K → Result (List ℕ)
  encode_commitment_bytes m = do
    sequence ← to_bytes 8 m.sequence
    cumulative_paid ← to_bytes 8 m.cumulative_paid
    tokens_received ← to_bytes 4 m.tokens_received
    timestamp_ms ← to_bytes 8 m.timestamp_ms
    ok (key_bytes m.channel ++ (sequence ++ (cumulative_paid ++ (tokens_received ++ timestamp_ms))))
