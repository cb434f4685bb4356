-- ===== src/X402/Payment.antt =====
-- sdk/python/tap/x402/payment.py. The fields that the decoder takes as they are may hold any JSON
-- value.
pub mod RoundTrip
use tap.Base.{List, [], ◌∷◌}
use tap.Base.Int.{ℤ}
use tap.Base.Text.{Text, codes}
use tap.Base.Exceptions.{Result, ok, x402_error, or_raise, catch_as, is_field_error, ◌>>=◌}
use tap.Json.{Value, null, int, str, obj, fields, item, get, or_empty, to_int, Wire}

pub record OpenChannelPayment : Type 0 where
  pub scheme : Value
  pub network : Value
  pub consumer_pubkey : Value
  pub session_key : Value
  pub nonce : ℤ
  pub deposit_micro : ℤ
  pub input_price_micro : ℤ
  pub output_price_micro : ℤ
  pub prepaid_input_micro : ℤ
  pub duration_secs : ℤ
  pub dispute_secs : ℤ
  pub trailing_buffer_tokens : ℤ
  pub transaction_b64 : Text

unfoldable pub to_payload : OpenChannelPayment → Value
to_payload p = obj (
    fields (
      (codes "scheme", p.scheme)
      ∷ (codes "network", p.network)
      ∷ (
        codes "extra",
        obj (
            fields (
              (codes "consumer_pubkey", p.consumer_pubkey)
              ∷ (codes "session_key", p.session_key)
              ∷ (codes "nonce", int p.nonce)
              ∷ (codes "deposit_micro", int p.deposit_micro)
              ∷ (codes "input_price_micro", int p.input_price_micro)
              ∷ (codes "output_price_micro", int p.output_price_micro)
              ∷ (codes "prepaid_input_micro", int p.prepaid_input_micro)
              ∷ (codes "duration_secs", int p.duration_secs)
              ∷ (codes "dispute_secs", int p.dispute_secs)
              ∷ (codes "trailing_buffer_tokens", int p.trailing_buffer_tokens)
              ∷ (codes "transaction", str p.transaction_b64)
              ∷ [])),
      )
      ∷ []))

module _ (wire : Wire) where
  open wire use {write, read, show}

  unfoldable pub encode_payment : OpenChannelPayment → Text
  encode_payment p = write (to_payload p)

  -- The `try` block that builds the value.
  unfoldable pub payment_of : Value → Value → Result OpenChannelPayment
  payment_of payload extra = do
    scheme ← item payload (codes "scheme")
    network ← item payload (codes "network")
    consumer_pubkey ← item extra (codes "consumer_pubkey")
    session_key ← item extra (codes "session_key")
    nonce ← to_int (← item extra (codes "nonce"))
    deposit_micro ← to_int (← item extra (codes "deposit_micro"))
    input_price_micro ← to_int (← item extra (codes "input_price_micro"))
    output_price_micro ← to_int (← item extra (codes "output_price_micro"))
    prepaid_input_micro ← to_int (← item extra (codes "prepaid_input_micro"))
    duration_secs ← to_int (← item extra (codes "duration_secs"))
    dispute_secs ← to_int (← item extra (codes "dispute_secs"))
    trailing_buffer_tokens ← to_int (← item extra (codes "trailing_buffer_tokens"))
    transaction ← item extra (codes "transaction")
    ok (record {
      scheme = scheme;
      network = network;
      consumer_pubkey = consumer_pubkey;
      session_key = session_key;
      nonce = nonce;
      deposit_micro = deposit_micro;
      input_price_micro = input_price_micro;
      output_price_micro = output_price_micro;
      prepaid_input_micro = prepaid_input_micro;
      duration_secs = duration_secs;
      dispute_secs = dispute_secs;
      trailing_buffer_tokens = trailing_buffer_tokens;
      transaction_b64 = show transaction;
    })

  -- Below the reading of the header. `payload.get` of a payload that is no object raises
  -- `AttributeError`, which is let through.
  unfoldable pub payment_from : Value → Result OpenChannelPayment
  unfolding payment_of
  payment_from payload = do
    extra ← get payload (codes "extra") null
    catch_as is_field_error (x402_error "X-PAYMENT payload is missing or malformed fields")
        (payment_of payload (or_empty extra))

  unfoldable pub decode_payment : Text → Result OpenChannelPayment
  decode_payment header_value = do
    payload ← or_raise (read header_value) (x402_error "X-PAYMENT is not valid base64-JSON")
    payment_from payload
