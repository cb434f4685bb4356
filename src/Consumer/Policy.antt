-- ===== src/Consumer/Policy.antt =====
-- sdk/python/tap/consumer/policy.py
pub mod Sound
use tap.Base.{Bool, true, false, not, List, [], ◌∷◌, ℕ, if◌then◌else◌}
use tap.Base.Int.{ℤ, pos, ◌*ℤ◌, ltb_ℤ, eqb_ℤ}
use tap.Base.Text.{Text, codes, text_in}
use tap.Base.Exceptions.{Result, ok, err, x402_error, type_error, raise_if, catch_as, ◌>>=◌, ◌>>◌}
use tap.Json.{Value, str, arr, obj}
use tap.Tokenizer.{Registry, is_registered, count}
use tap.X402.Requirements.{PaymentRequirements}

pub record ConsumerPolicy : Type 0 where
  pub max_input_price_micro : ℤ
  pub max_output_price_micro : ℤ
  pub max_trailing_buffer_tokens : ℤ
  pub min_pause_timeout_ms : ℤ
  pub max_dispute_secs : ℤ
  pub allowed_networks : List Text
  pub verify_input_tokens : Bool

abbrev pub default_policy : ConsumerPolicy
default_policy = record {
  max_input_price_micro = pos 100;
  max_output_price_micro = pos 200;
  max_trailing_buffer_tokens = pos 32;
  min_pause_timeout_ms = pos 500;
  max_dispute_secs = pos 300;
  allowed_networks = codes "solana-devnet" ∷ codes "solana-mainnet" ∷ [];
  verify_input_tokens = true;
}

-- `network in allowed_networks`: a list or an object is not hashable.
abbrev pub network_in : Value → List Text → Result Bool
network_in (str t) allowed = ok (text_in t allowed)
network_in (arr _) allowed = err type_error
network_in (obj _) allowed = err type_error
network_in _ allowed = ok false

unfoldable pub audit : ConsumerPolicy → PaymentRequirements → Result (Unit {0})
audit policy req = do
  allowed ← network_in req.network policy.allowed_networks
  raise_if (not allowed) (x402_error "network not in allowed set")
  raise_if (ltb_ℤ policy.max_input_price_micro req.input_price_micro)
      (x402_error "input price exceeds policy max")
  raise_if (ltb_ℤ policy.max_output_price_micro req.output_price_micro)
      (x402_error "output price exceeds policy max")
  raise_if (ltb_ℤ policy.max_trailing_buffer_tokens req.trailing_buffer_tokens)
      (x402_error "trailing buffer exceeds policy max")
  raise_if (ltb_ℤ req.pause_timeout_ms policy.min_pause_timeout_ms)
      (x402_error "pause timeout below policy min")
  raise_if (ltb_ℤ policy.max_dispute_secs req.dispute_secs)
      (x402_error "dispute window exceeds policy max")
  raise_if (not (eqb_ℤ req.prepaid_input_micro (req.input_token_count *ℤ req.input_price_micro)))
      (x402_error "prepaid_input does not match input_token_count × input_price")

unfoldable pub check_count : Registry → PaymentRequirements → Text → Result (Unit {0})
check_count registry req prompt_text = do
  raise_if (not (is_registered registry req.tokenizer_id))
      (x402_error "producer declared a tokenizer which is not registered locally")
  local ← count registry req.tokenizer_id prompt_text
  raise_if (not (eqb_ℤ (pos local) req.input_token_count))
      (x402_error "producer's input_token_count does not match local count")

unfoldable pub verify_prompt_tokens :
    ConsumerPolicy → Registry → PaymentRequirements → Text → Result (Unit {0})
unfolding check_count
verify_prompt_tokens policy registry req prompt_text =
    if not policy.verify_input_tokens
    then ok tt
    else if eqb_ℤ req.input_token_count (pos 0)
    then ok tt
    else check_count registry req prompt_text
