-- ===== src/Escrow/Commitment.antt =====
-- programs/tap/src/state/commitment.rs, and that its bytes are those of the Python codec.
use tap.Base.{ℕ, ◌<◌, ◌^◌, ◌≡◌, refl, List, ◌++◌}
use tap.Base.Int.{pos}
use tap.Base.Bytes.{le_bytes, to_bytes_fits}
use tap.Base.Exceptions.{ok}
use tap.External.{Keys}
use tap.Protocol.Commit.{CommitMessage}
use tap.Protocol.Codec.{encode_commitment_bytes}

pub record Commitment (K : Type 0) : Type 0 where
  pub channel : K
  pub sequence : ℕ  -- u64
  pub cumulative_paid : ℕ  -- u64
  pub tokens_received : ℕ  -- u32
  pub timestamp_ms : ℕ  -- u64

-- The fields fit their types.
pub record IsCommitment {K : Type 0} (c : Commitment K) : Type 0 where
  pub sequence : c.sequence < 256 ^ 8
  pub cumulative_paid : c.cumulative_paid < 256 ^ 8
  pub tokens_received : c.tokens_received < 256 ^ 4
  pub timestamp_ms : c.timestamp_ms < 256 ^ 8

abbrev pub to_python : {K : Type 0} → Commitment K → CommitMessage K
to_python c = record {
  channel = c.channel;
  sequence = pos c.sequence;
  cumulative_paid = pos c.cumulative_paid;
  tokens_received = pos c.tokens_received;
  timestamp_ms = pos c.timestamp_ms;
}

module _ {K : Type 0} ⦃keys : Keys K⦄ where
  open keys use {key_bytes}

  unfoldable pub message_bytes : Commitment K → List ℕ
  message_bytes c =
      key_bytes c.channel
      ++ (le_bytes 8 c.sequence
          ++ (le_bytes 8 c.cumulative_paid
              ++ (le_bytes 4 c.tokens_received ++ le_bytes 8 c.timestamp_ms)))

  -- The Python codec writes the bytes that the program signs against, for every commitment whose
  -- fields fit.
  pub encode_commitment_bytes-to_python :
      (c : Commitment K)
      → IsCommitment c
      → encode_commitment_bytes (to_python c) ≡ ok (message_bytes c)
  unfolding encode_commitment_bytes message_bytes
  encode_commitment_bytes-to_python c fits =
      rw
        (
          to_bytes_fits 8 c.sequence fits.sequence,
          to_bytes_fits 8 c.cumulative_paid fits.cumulative_paid,
          to_bytes_fits 4 c.tokens_received fits.tokens_received,
          to_bytes_fits 8 c.timestamp_ms fits.timestamp_ms,
        )
        refl
