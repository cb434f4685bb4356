-- ===== src/Producer/Server/Serving.antt =====
-- sdk/python/tap/producer/server.py: everything that changes a host, one step at a time. The
-- handlers run between two awaits without interruption; a stream changes its channel where
-- producer/wrap_stream.py does, between the requests of others.
pub mod View
pub mod Moves
pub mod Refines
pub mod Verified
use tap.Base.{ℕ, Option, List}
use tap.Base.Int.{ℤ}
use tap.Base.Text.{Text}
use tap.Base.Exceptions.{Result}
use tap.External.{Keys, Ed25519}
use tap.Json.{Wire}
use tap.Chain.Pda.{Solana}
use tap.Chain.Instruction.{Instruction}
use tap.Producer.Channel.{ActiveChannel, note_token}
use tap.Producer.WrapStream.{set_clock, lapsed}
use tap.Producer.Server.{Config}
use tap.Producer.Server.Host.{
  Host, store, commit_endpoint, open_channel_from_payment, settle_and_cleanup,
}

module _ {K SK T : Type 0} ⦃keys : Keys K⦄ (R : Type 0) (ed : Ed25519 SK) (solana : Solana K)
    (wire : Wire) (config : Config K) (parse_tx : Text → Option T)
    (send_raw : T → Result (Unit {0})) where
  pub data HostStep (h : Host K) : Host K → Type 0 where
    posts :
        (now : ℤ) (x_tap_commit x_tap_channel : Text)
        → HostStep h (commit_endpoint ed wire now x_tap_commit x_tap_channel h).1
    pays :
        (now : ℤ) (header_value : Text)
        → HostStep h
            (open_channel_from_payment solana wire config parse_tx send_raw now header_value h).1
    -- of the stream on the channel at `ref`
    emits : (ref : ℕ) → HostStep h (store ref (note_token (h.heap ref)) h)
    resumes : (now : ℤ) (ref : ℕ) → HostStep h (store ref (set_clock now (h.heap ref)) h)
    halts : (ref : ℕ) → HostStep h (store ref (lapsed (h.heap ref)) h)
    ends :
        (submit : List (Instruction K) → Result R) (ref : ℕ)
        → HostStep h (settle_and_cleanup solana wire config submit ref h).1

  pub data HostReach (start : Host K) : Host K → Type 0 where
    here : HostReach start start
    later : {h h' : Host K} → HostReach start h → HostStep h h' → HostReach start h'
