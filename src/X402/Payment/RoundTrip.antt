-- ===== src/X402/Payment/RoundTrip.antt =====
-- The payload of a channel opening reads back.
use tap.Base.{◌≡◌}
use tap.Base.Text.{text_eq}
use tap.Base.Exceptions.{ok}
use tap.Json.{item, get, truthy, to_int, Wire}
use tap.X402.Payment.{OpenChannelPayment, to_payload, encode_payment, payment_from, decode_payment}

module _ (wire : Wire) where
  open wire use {read-write, show-str}

  payment_from-to_payload : (p : OpenChannelPayment) → payment_from wire (to_payload p) ≡ ok p
  unfolding payment_from to_payload item get truthy to_int text_eq
  payment_from-to_payload p = simp show-str

  -- What a consumer puts into the X-PAYMENT header decodes to the same payment, with no condition
  -- on its fields.
  pub decode-encode_payment :
      (p : OpenChannelPayment) → decode_payment wire (encode_payment wire p) ≡ ok p
  unfolding decode_payment encode_payment
  decode-encode_payment p = simp (read-write, payment_from-to_payload)
