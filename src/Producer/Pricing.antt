-- ===== src/Producer/Pricing.antt =====
-- sdk/python/tap/producer/pricing.py
use tap.Base.{◌≡◌, arith}
use tap.Base.Text.{Text, codes, text_eq}
use tap.Base.Int.{ℤ, pos, leb_ℤ, ltb_ℤ, ◌≤ℤ◌, ◌<ℤ◌}
use tap.Base.Exceptions.{Result, ok, value_error, raise_if, ◌>>◌}

pub record Pricing : Type 0 where
  pub input_price_micro : ℤ
  pub output_price_micro : ℤ
  pub max_unpaid_micro : ℤ
  pub trailing_buffer_tokens : ℤ
  pub tokenizer_id : Text
  pub min_deposit_micro : ℤ
  pub max_deposit_micro : ℤ

-- `__post_init__`, on the fields given to the constructor.
unfoldable pub pricing : Pricing → Result Pricing
pricing p = do
  raise_if (leb_ℤ p.input_price_micro (pos 0)) value_error
  raise_if (leb_ℤ p.output_price_micro (pos 0)) value_error
  raise_if (leb_ℤ p.max_unpaid_micro (pos 0)) value_error
  raise_if (ltb_ℤ p.trailing_buffer_tokens (pos 0)) value_error
  raise_if (ltb_ℤ p.max_deposit_micro p.min_deposit_micro) value_error
  raise_if (text_eq p.tokenizer_id (codes "")) value_error
  ok p

pub record IsPricing (p : Pricing) : Type 0 where
  pub input_price_pos : pos 0 <ℤ p.input_price_micro
  pub output_price_pos : pos 0 <ℤ p.output_price_micro
  pub max_unpaid_pos : pos 0 <ℤ p.max_unpaid_micro
  pub trailing_buffer_nonneg : pos 0 ≤ℤ p.trailing_buffer_tokens
  pub deposit_range : p.min_deposit_micro ≤ℤ p.max_deposit_micro

-- The constructor lets through only prices and caps that are positive, a buffer that is not
-- negative and deposit bounds in order.
pub pricing-IsPricing : (p : Pricing) {q : Pricing} → pricing p ≡ ok q → IsPricing q
unfolding pricing
pricing-IsPricing p h = ground arith
