-- ===== src/Consumer/Batching.antt =====
-- sdk/python/tap/consumer/batching.py. The water marks are compared without division: for a
-- positive cap, `unpaid / cap >= 0.85` is `100 * unpaid >= 85 * cap`. Python divides in floating
-- point, which agrees while the amounts are below 2 ^ 50.
use tap.Base.{ℕ, ◌*◌, ◌/◌, ◌≤◌, ◌≡◌, Bool, ◌&&◌, ◌||◌, min, max, arith, ltb, leb, if◌then◌else◌}
use tap.Base.Int.{ℤ, pos, pos_part, ◌*ℤ◌, leb_ℤ, ltb_ℤ, ◌<ℤ◌}
use tap.Base.Exceptions.{Result, ok, value_error, raise_if, ◌>>◌}

-- Both numbers are at least 1 once `__post_init__` has run.
pub record AdaptiveBatcher : Type 0 where
  pub k_max : ℕ
  pub k : ℕ

-- `AdaptiveBatcher(k_max=k_max, k=k)`
unfoldable pub adaptive_batcher : ℤ → ℤ → Result AdaptiveBatcher
adaptive_batcher k_max k = do
  raise_if (ltb_ℤ k_max (pos 1)) value_error
  ok (record {
    k_max = pos_part k_max;
    k = if ltb_ℤ k (pos 1) || ltb_ℤ k_max k then 1 else pos_part k;
  })

unfoldable pub should_commit : AdaptiveBatcher → ℕ → Bool
should_commit b tokens_since_last = leb b.k tokens_since_last

abbrev pub above_high_water : ℤ → ℤ → Bool
above_high_water unpaid_value unpaid_cap = leb_ℤ (pos 85 *ℤ unpaid_cap) (pos 100 *ℤ unpaid_value)

abbrev pub below_low_water : ℤ → ℤ → Bool
below_low_water unpaid_value unpaid_cap = leb_ℤ (pos 100 *ℤ unpaid_value) (pos 30 *ℤ unpaid_cap)

unfoldable pub update : ℤ → ℤ → AdaptiveBatcher → AdaptiveBatcher
update unpaid_value unpaid_cap b =
    if leb_ℤ unpaid_cap (pos 0)
    then b
    else if above_high_water unpaid_value unpaid_cap && ltb 1 b.k
    then record b { k = max 1 (b.k / 2) }
    else if below_low_water unpaid_value unpaid_cap && ltb b.k b.k_max
    then record b { k = min b.k_max (b.k * 2) }
    else b

-- The batch size stays between 1 and the limit.
pub record IsBatcher (b : AdaptiveBatcher) : Type 0 where
  pub at_least_one : 1 ≤ b.k
  pub within : b.k ≤ b.k_max

-- A batcher that is constructed has a batch size between 1 and its limit.
pub adaptive_batcher-IsBatcher :
    (k_max k : ℤ) {b : AdaptiveBatcher} → adaptive_batcher k_max k ≡ ok b → IsBatcher b
unfolding adaptive_batcher
adaptive_batcher-IsBatcher k_max k h = ground arith

-- Whatever the pressure, an update keeps the batch size between 1 and its limit.
pub update-IsBatcher :
    (unpaid cap : ℤ) (b : AdaptiveBatcher) → IsBatcher b → IsBatcher (update unpaid cap b)
unfolding update
update-IsBatcher unpaid cap b h = ground arith

-- With nothing unpaid and a positive cap, the batch doubles up to the limit.
pub update_nothing_unpaid :
    (cap : ℤ) (b : AdaptiveBatcher)
    → IsBatcher b
    → pos 0 <ℤ cap
    → update (pos 0) cap b ≡ record b { k = min b.k_max (b.k * 2) }
unfolding update ◌*ℤ◌
update_nothing_unpaid cap b h p = ground arith
