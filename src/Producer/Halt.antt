-- ===== src/Producer/Halt.antt =====
-- sdk/python/tap/producer/halt.py. `now` is the monotonic clock in milliseconds.
use tap.Base.{Bool, true, if◌then◌else◌}
use tap.Base.Int.{ℤ, ◌-ℤ◌, leb_ℤ}
use tap.Timing.{TimingParameters}
use tap.Producer.Channel.{ActiveChannel, unpaid_value_micro}

module _ {K : Type 0} where
  unfoldable pub should_pause : ActiveChannel K → ℤ → Bool
  should_pause c pricing_max_unpaid_micro = leb_ℤ pricing_max_unpaid_micro (unpaid_value_micro c)

  unfoldable pub silent_ms : ℤ → ActiveChannel K → ℤ
  silent_ms now c = now -ℤ c.last_commit_at_ms

  unfoldable pub should_halt : ℤ → ActiveChannel K → TimingParameters → Bool
  should_halt now c timing =
      if c.halted
      then true
      else (let silent_for_ms = now -ℤ c.last_commit_at_ms in
          leb_ℤ timing.pause_timeout_ms silent_for_ms)
