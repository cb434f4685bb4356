-- ===== src/Producer/Server.antt =====
-- sdk/python/tap/producer/server.py: what a producer is configured with, and the terms that it
-- quotes. A public key of the producer stands for its keypair, which signs nothing here but
-- transactions.
pub mod Host
pub mod Routes
pub mod Cleanup
pub mod Streaming
pub mod Serving
pub mod Payment
pub mod Commit
pub mod App
use tap.Base.{ℕ, ◌/◌, not, Option, none, some, ◌++◌}
use tap.Base.Int.{ℤ, pos, negsuc, ◌*ℤ◌}
use tap.Base.Text.{Text}
use tap.Base.Exceptions.{Result, ok, value_error, raise_if, ◌>>=◌, ◌>>◌}
use tap.External.{Keys}
use tap.Json.{Value, str}
use tap.Timing.{TimingParameters}
use tap.Tokenizer.{Registry, count, is_registered}
use tap.X402.Requirements.{PaymentRequirements, scheme_name}
use tap.Producer.Pricing.{Pricing}

pub record Config (K : Type 0) : Type 0 where
  -- `self._keypair.pubkey()`
  pub producer : K
  pub producer_usdc : K
  pub pricing : Pricing
  pub timing : TimingParameters
  pub network : Text
  pub usdc_mint : K
  pub program_id : K
  pub public_base_url : Text
  -- a string or null
  pub model_name : Value

-- `a // 1_000`, which rounds down.
abbrev pub thousandths : ℤ → ℤ
thousandths (pos n) = pos (n / 1000)
thousandths (negsuc n) = negsuc (n / 1000)

module _ {K : Type 0} where
  -- The check at the head of `TapProducer.__init__`, on the values it is given.
  unfoldable pub tap_producer : Registry → Config K → Result (Config K)
  tap_producer tokenizers config = do
    raise_if (not (is_registered tokenizers config.pricing.tokenizer_id)) value_error
    ok config

module _ {K : Type 0} ⦃keys : Keys K⦄ where
  open keys use {key_str}

  -- `input_token_count`
  unfoldable pub quoted_count : Registry → Config K → Option Text → Result ℕ
  quoted_count tokenizers config none = ok 0
  quoted_count tokenizers config (some prompt_text) =
      count tokenizers config.pricing.tokenizer_id prompt_text

  unfoldable pub terms : Config K → Text → ℕ → PaymentRequirements
  terms config path input_token_count = record {
    scheme = str scheme_name;
    network = str config.network;
    asset = str (key_str config.usdc_mint);
    recipient = str (key_str config.program_id);
    producer_pubkey = str (key_str config.producer);
    input_price_micro = config.pricing.input_price_micro;
    output_price_micro = config.pricing.output_price_micro;
    max_unpaid_micro = config.pricing.max_unpaid_micro;
    trailing_buffer_tokens = config.pricing.trailing_buffer_tokens;
    duration_secs = thousandths config.timing.total_session_ms;
    -- `_DISPUTE_SECS`
    dispute_secs = pos 30;
    grace_ms = config.timing.grace_ms;
    pause_timeout_ms = config.timing.pause_timeout_ms;
    channel_open_url = config.public_base_url ++ path;
    stream_url = config.public_base_url ++ path;
    tokenizer_id = config.pricing.tokenizer_id;
    input_token_count = pos input_token_count;
    prepaid_input_micro = pos input_token_count *ℤ config.pricing.input_price_micro;
    model = config.model_name;
  }

  unfoldable pub build_requirements :
      Registry → Config K → Text → Option Text → Result PaymentRequirements
  unfolding quoted_count terms
  build_requirements tokenizers config path prompt_text = do
    input_token_count ← quoted_count tokenizers config prompt_text
    ok (terms config path input_token_count)
