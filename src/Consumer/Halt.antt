-- ===== src/Consumer/Halt.antt =====
-- sdk/python/tap/consumer/halt.py. `now` is the monotonic clock in milliseconds.
use tap.Base.{if◌then◌else◌}
use tap.Base.Int.{ℤ, ◌-ℤ◌, leb_ℤ}
use tap.Timing.{TimingParameters}

pub data StreamState : Type 0 where
  live paused halted : StreamState

pub record HaltDetector : Type 0 where
  pub timing : TimingParameters
  pub last_token_at : ℤ
  pub state : StreamState

unfoldable pub halt_detector : TimingParameters → ℤ → HaltDetector
halt_detector timing now = record { timing = timing; last_token_at = now; state = live }

unfoldable pub note_token : ℤ → HaltDetector → HaltDetector
note_token now d = record d { last_token_at = now; state = live }

abbrev pub paused_from : StreamState → StreamState
paused_from halted = halted
paused_from _ = paused

-- The detector after `evaluate`; what the method returns is its `state`.
unfoldable pub evaluate : ℤ → HaltDetector → HaltDetector
evaluate now d =
    let elapsed = now -ℤ d.last_token_at in
    record d {
      state =
          if leb_ℤ d.timing.pause_timeout_ms elapsed
          then halted
          else if leb_ℤ d.timing.grace_ms elapsed
          then paused_from d.state
          else live;
    }
