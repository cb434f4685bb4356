-- ===== src/X402/Response.antt =====
-- sdk/python/tap/x402/response.py
use tap.Base.{◌≡◌, [], ◌∷◌}
use tap.Base.Text.{Text, codes, text_eq}
use tap.Base.Exceptions.{Result, ok, x402_error, or_raise, catch_as, is_field_error, ◌>>=◌}
use tap.Json.{Value, null, str, obj, fields, item, get, truthy, or_empty, Wire}

pub record PaymentResponse : Type 0 where
  pub tx_hash : Text
  pub settlement : Text
  pub channel_id : Text
  pub channel_state : Text

unfoldable pub to_payload : PaymentResponse → Value
to_payload r = obj (
    fields (
      (codes "tx_hash", str r.tx_hash)
      ∷ (codes "settlement", str r.settlement)
      ∷ (
        codes "extra",
        obj (
            fields (
              (codes "channel_id", str r.channel_id)
              ∷ (codes "channel_state", str r.channel_state)
              ∷ [])),
      )
      ∷ []))

module _ (wire : Wire) where
  open wire use {write, read, show, read-write, show-str}

  unfoldable pub encode_response : PaymentResponse → Text
  encode_response r = write (to_payload r)

  -- The `try` block that builds the value.
  unfoldable pub response_of : Value → Value → Result PaymentResponse
  response_of payload extra = do
    tx_hash ← item payload (codes "tx_hash")
    settlement ← item payload (codes "settlement")
    channel_id ← item extra (codes "channel_id")
    channel_state ← item extra (codes "channel_state")
    ok (record {
      tx_hash = show tx_hash;
      settlement = show settlement;
      channel_id = show channel_id;
      channel_state = show channel_state;
    })

  unfoldable pub response_from : Value → Result PaymentResponse
  unfolding response_of
  response_from payload = do
    extra ← get payload (codes "extra") null
    catch_as is_field_error (x402_error "X-PAYMENT-RESPONSE is missing or malformed fields")
        (response_of payload (or_empty extra))

  unfoldable pub decode_response : Text → Result PaymentResponse
  decode_response header_value = do
    payload ←
        or_raise (read header_value) (x402_error "X-PAYMENT-RESPONSE is not valid base64-JSON")
    response_from payload

  response_from-to_payload : (r : PaymentResponse) → response_from (to_payload r) ≡ ok r
  unfolding response_from to_payload item get truthy text_eq
  response_from-to_payload r = simp show-str

  -- The acknowledgement that a producer sends decodes to the same acknowledgement.
  pub decode-encode_response : (r : PaymentResponse) → decode_response (encode_response r) ≡ ok r
  unfolding decode_response encode_response
  decode-encode_response r = simp (read-write, response_from-to_payload)
