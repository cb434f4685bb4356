-- ===== src/X402/Requirements/RoundTrip.antt =====
-- The payload reads back.
use tap.Base.{◌≡◌, ap, ◌∙◌, true}
use tap.Base.Text.{text_eq, text_eq_refl}
use tap.Base.Exceptions.{ok}
use tap.Json.{str, item, get, truthy, to_int, Wire}
use tap.X402.Requirements.{
  scheme_name, PaymentRequirements, to_payload, is_scheme, encode_requirements, requirements_from,
  decode_requirements,
}

module _ (wire : Wire) where
  open wire use {write, read, show, read-write, show-str}

  requirements_from-to_payload :
      (r : PaymentRequirements)
      → is_scheme r.scheme ≡ true
      → requirements_from wire (to_payload r) ≡ ok r
  unfolding requirements_from to_payload item get truthy to_int text_eq
  requirements_from-to_payload r e = simp (show-str, e)

  -- What a producer encodes decodes to the same requirements, under the scheme's name.
  pub decode-encode_requirements :
      (r : PaymentRequirements)
      → r.scheme ≡ str scheme_name
      → decode_requirements wire (encode_requirements wire r) ≡ ok r
  unfolding decode_requirements encode_requirements
  decode-encode_requirements r h =
      simp (read-write, requirements_from-to_payload r (ap is_scheme h ∙ text_eq_refl scheme_name))
