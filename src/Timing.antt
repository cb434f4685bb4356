-- ===== src/Timing.antt =====
-- sdk/python/tap/timing/parameters.py
use tap.Base.{◌||◌, ◌≡◌, arith}
use tap.Base.Int.{ℤ, pos, ltb_ℤ, ◌≤ℤ◌}
use tap.Base.Exceptions.{Result, ok, value_error, raise_if, ◌>>◌}

pub record TimingParameters : Type 0 where
  pub grace_ms : ℤ
  pub pause_timeout_ms : ℤ
  pub total_session_ms : ℤ

-- The dataclass's defaults.
abbrev pub default_timing : TimingParameters
default_timing = record {
  grace_ms = pos 200;
  pause_timeout_ms = pos 5000;
  total_session_ms = pos 300_000;
}

-- `TimingParameters(...)`: the constructor runs `__post_init__`.
unfoldable pub timing_parameters : ℤ → ℤ → ℤ → Result TimingParameters
timing_parameters grace_ms pause_timeout_ms total_session_ms = do
  raise_if
      (ltb_ℤ grace_ms (pos 0) || (ltb_ℤ pause_timeout_ms (pos 0) || ltb_ℤ total_session_ms (pos 0)))
      value_error
  raise_if (ltb_ℤ pause_timeout_ms grace_ms) value_error
  raise_if (ltb_ℤ total_session_ms pause_timeout_ms) value_error
  ok (record {
    grace_ms = grace_ms;
    pause_timeout_ms = pause_timeout_ms;
    total_session_ms = total_session_ms;
  })

-- What every constructed value satisfies.
pub record IsTiming (t : TimingParameters) : Type 0 where
  pub grace_nonneg : pos 0 ≤ℤ t.grace_ms
  pub grace-le-pause : t.grace_ms ≤ℤ t.pause_timeout_ms
  pub pause-le-total : t.pause_timeout_ms ≤ℤ t.total_session_ms

pub timing_parameters-IsTiming :
    (g p d : ℤ) {t : TimingParameters} → timing_parameters g p d ≡ ok t → IsTiming t
unfolding timing_parameters
timing_parameters-IsTiming g p d h = ground arith
