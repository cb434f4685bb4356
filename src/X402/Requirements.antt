-- ===== src/X402/Requirements.antt =====
-- sdk/python/tap/x402/requirements.py. The fields that the decoder takes as they are may hold any
-- JSON value.
pub mod RoundTrip
use tap.Base.{Bool, true, false, not, List, [], ◌∷◌, Option}
use tap.Base.Int.{ℤ, pos}
use tap.Base.Text.{Text, codes, text_eq}
use tap.Base.Exceptions.{
  Result, ok, err, x402_error, raise_if, or_raise, catch_as, is_field_error, ◌>>=◌, ◌>>◌,
}
use tap.Json.{Value, null, int, str, obj, fields, item, get, or_empty, to_int, Wire}

abbrev pub scheme_name : Text
scheme_name = codes "tap.v1.channel"

pub record PaymentRequirements : Type 0 where
  pub scheme : Value
  pub network : Value
  pub asset : Value
  pub recipient : Value
  pub producer_pubkey : Value
  pub input_price_micro : ℤ
  pub output_price_micro : ℤ
  pub max_unpaid_micro : ℤ
  pub trailing_buffer_tokens : ℤ
  pub duration_secs : ℤ
  pub dispute_secs : ℤ
  pub grace_ms : ℤ
  pub pause_timeout_ms : ℤ
  pub channel_open_url : Text
  pub stream_url : Text
  pub tokenizer_id : Text
  pub input_token_count : ℤ
  pub prepaid_input_micro : ℤ
  pub model : Value

unfoldable pub to_payload : PaymentRequirements → Value
to_payload r = obj (
    fields (
      (codes "scheme", r.scheme)
      ∷ (codes "network", r.network)
      ∷ (codes "asset", r.asset)
      ∷ (codes "recipient", r.recipient)
      ∷ (
        codes "extra",
        obj (
            fields (
              (codes "producer_pubkey", r.producer_pubkey)
              ∷ (codes "input_price", int r.input_price_micro)
              ∷ (codes "output_price", int r.output_price_micro)
              ∷ (codes "tokenizer_id", str r.tokenizer_id)
              ∷ (codes "input_token_count", int r.input_token_count)
              ∷ (codes "prepaid_input", int r.prepaid_input_micro)
              ∷ (codes "max_unpaid", int r.max_unpaid_micro)
              ∷ (codes "trailing_buffer", int r.trailing_buffer_tokens)
              ∷ (codes "duration_secs", int r.duration_secs)
              ∷ (codes "dispute_secs", int r.dispute_secs)
              ∷ (codes "grace_ms", int r.grace_ms)
              ∷ (codes "pause_timeout_ms", int r.pause_timeout_ms)
              ∷ (codes "channel_open_url", str r.channel_open_url)
              ∷ (codes "stream_url", str r.stream_url)
              ∷ (codes "model", r.model)
              ∷ [])),
      )
      ∷ []))

-- `payload.get("scheme") != SCHEME`; no other JSON value equals a string.
abbrev pub is_scheme : Value → Bool
is_scheme (str t) = text_eq t scheme_name
is_scheme _ = false

module _ (wire : Wire) where
  open wire use {write, read, show}

  unfoldable pub encode_requirements : PaymentRequirements → Text
  unfolding to_payload
  encode_requirements r = write (to_payload r)

  -- The `try` block that builds the value.
  unfoldable pub requirements_of : Value → Value → Result PaymentRequirements
  requirements_of payload extra = do
    scheme ← item payload (codes "scheme")
    network ← item payload (codes "network")
    asset ← item payload (codes "asset")
    recipient ← item payload (codes "recipient")
    producer_pubkey ← item extra (codes "producer_pubkey")
    input_price_micro ← to_int (← item extra (codes "input_price"))
    output_price_micro ← to_int (← item extra (codes "output_price"))
    tokenizer_id ← item extra (codes "tokenizer_id")
    input_token_count ← to_int (← get extra (codes "input_token_count") (int (pos 0)))
    prepaid_input_micro ← to_int (← get extra (codes "prepaid_input") (int (pos 0)))
    max_unpaid_micro ← to_int (← item extra (codes "max_unpaid"))
    trailing_buffer_tokens ← to_int (← item extra (codes "trailing_buffer"))
    duration_secs ← to_int (← item extra (codes "duration_secs"))
    dispute_secs ← to_int (← item extra (codes "dispute_secs"))
    grace_ms ← to_int (← item extra (codes "grace_ms"))
    pause_timeout_ms ← to_int (← item extra (codes "pause_timeout_ms"))
    channel_open_url ← item extra (codes "channel_open_url")
    stream_url ← item extra (codes "stream_url")
    model ← get extra (codes "model") null
    ok (record {
      scheme = scheme;
      network = network;
      asset = asset;
      recipient = recipient;
      producer_pubkey = producer_pubkey;
      input_price_micro = input_price_micro;
      output_price_micro = output_price_micro;
      max_unpaid_micro = max_unpaid_micro;
      trailing_buffer_tokens = trailing_buffer_tokens;
      duration_secs = duration_secs;
      dispute_secs = dispute_secs;
      grace_ms = grace_ms;
      pause_timeout_ms = pause_timeout_ms;
      channel_open_url = show channel_open_url;
      stream_url = show stream_url;
      tokenizer_id = show tokenizer_id;
      input_token_count = input_token_count;
      prepaid_input_micro = prepaid_input_micro;
      model = model;
    })

  -- Below the reading of the header. `payload.get` of a payload that is no object raises
  -- `AttributeError`, which is let through.
  unfoldable pub requirements_from : Value → Result PaymentRequirements
  unfolding requirements_of
  requirements_from payload = do
    scheme ← get payload (codes "scheme") null
    raise_if (not (is_scheme scheme)) (x402_error "unsupported payment scheme")
    extra ← get payload (codes "extra") null
    catch_as is_field_error (x402_error "X-PAYMENT-REQUIREMENTS is missing or malformed fields")
        (requirements_of payload (or_empty extra))

  unfoldable pub decode_requirements : Text → Result PaymentRequirements
  decode_requirements header_value = do
    payload ←
        or_raise (read header_value) (x402_error "X-PAYMENT-REQUIREMENTS is not valid base64-JSON")
    requirements_from payload
