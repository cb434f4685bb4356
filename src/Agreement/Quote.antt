-- ===== src/Agreement/Quote.antt =====
-- The quote that a producer (sdk/python/tap/producer/server.py) sends, as the consumer's policy
-- (sdk/python/tap/consumer/policy.py) checks it.
use tap.Base.{ℕ, ◌≡◌, refl, some, arith}
use mathlib.Core.Path.{subst}
use tap.Base.Int.{pos, ◌*ℤ◌}
use tap.Base.Text.{Text}
use tap.Base.Exceptions.{ok, >>=-eq-ok, ok-injective}
use tap.External.{Keys}
use tap.Json.{Wire}
use tap.Tokenizer.{Registry, count}
use tap.Tokenizer.Counts.{count-is_registered}
use tap.X402.Requirements.{PaymentRequirements, encode_requirements, decode_requirements}
use tap.X402.Requirements.RoundTrip.{decode-encode_requirements}
use tap.Consumer.Policy.{ConsumerPolicy, verify_prompt_tokens, check_count}
use tap.Producer.Server.{Config, quoted_count, terms, build_requirements}

check_count-exact :
    (registry : Registry) (req : PaymentRequirements) (text : Text) (n : ℕ)
    → count registry req.tokenizer_id text ≡ ok n
    → req.input_token_count ≡ pos n
    → check_count registry req text ≡ ok tt
unfolding check_count
check_count-exact registry req text n c q =
    let known = count-is_registered registry req.tokenizer_id text c in
    rw (known, c, q) (ground arith)

verify_exact :
    (policy : ConsumerPolicy) (registry : Registry) (req : PaymentRequirements) (text : Text)
    (n : ℕ)
    → count registry req.tokenizer_id text ≡ ok n
    → req.input_token_count ≡ pos n
    → verify_prompt_tokens policy registry req text ≡ ok tt
unfolding verify_prompt_tokens
verify_exact policy registry req text n c q =
    let exact = check_count-exact registry req text n c q in ground (arith, exact)

-- What a consumer's policy makes of a quote for a prompt.
pub record IsHonest (policy : ConsumerPolicy) (registry : Registry) (wire : Wire) (text : Text)
    (req : PaymentRequirements) : Type 0 where
  pub arrives : decode_requirements wire (encode_requirements wire req) ≡ ok req
  pub verifies : verify_prompt_tokens policy registry req text ≡ ok tt
  pub consistent : req.prepaid_input_micro ≡ req.input_token_count *ℤ req.input_price_micro

module _ {K : Type 0} ⦃keys : Keys K⦄ (wire : Wire) where
  -- The quote that the producer builds for a prompt arrives as it was sent, passes the prompt check
  -- of a consumer with the same tokenizers, and asks for the token count times the input price.
  pub build_requirements-IsHonest :
      (policy : ConsumerPolicy) (registry : Registry) (config : Config K) (path text : Text)
      {req : PaymentRequirements}
      → build_requirements registry config path (some text) ≡ ok req
      → IsHonest policy registry wire text req
  unfolding build_requirements quoted_count terms
  build_requirements-IsHonest policy registry config path text h =
      let (n, counted, made) = >>=-eq-ok (quoted_count registry config (some text)) _ h in
      subst (IsHonest policy registry wire text) (ok-injective made) (record {
        arrives = decode-encode_requirements wire (terms config path n) refl;
        verifies = verify_exact policy registry (terms config path n) text n counted refl;
        consistent = refl;
      })
