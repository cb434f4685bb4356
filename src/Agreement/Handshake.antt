-- ===== src/Agreement/Handshake.antt =====
-- The opening of a session (sdk/python/tap/consumer/client.py) at the handlers of a producer
-- (sdk/python/tap/producer/server.py), from the quote to the two ends of the channel.
pub mod Opens
pub mod Accepted
use tap.Base.{
  ℕ, String, ◌≡◌, ◌≢◌, refl, sym, ap, ◌∙◌, true, Option, none, some, List, [], ◌∷◌, arith,
}
use tap.Base.Int.{ℤ, pos, ◌*ℤ◌, ◌≤ℤ◌}
use tap.Base.Text.{Text}
use tap.Base.Exceptions.{Result, ok, err}
use tap.Base.Action.{◌>>=◌, ◌>>◌}
use tap.External.{Keys, Ed25519}
use tap.Json.{Value, obj, Fields, Wire}
use tap.Tokenizer.{Registry, count}
use tap.Protocol.Prompt.{extract_prompt_text}
use tap.Protocol.Header.{key_of}
use tap.X402.Requirements.{PaymentRequirements, encode_requirements}
use tap.X402.Requirements.RoundTrip.{decode-encode_requirements}
use tap.Chain.Pda.{Solana}
use tap.Producer.Channel.{ActiveChannel}
use tap.Producer.Server.{Config, terms, build_requirements, quoted_count}
use tap.Producer.Server.Host.{Host, add_channel, open_channel_from_payment}
use tap.Producer.Server.Routes.{Response, challenge, given, stream_endpoint, acknowledge}
use tap.Consumer.Policy.{verify_prompt_tokens}
use tap.Consumer.Policy.Sound.{Allows, audit_iff}
use tap.Consumer.Opening.{Opening, HttpResponse, header_or, parse_402, check_quote}
use tap.Agreement.Quote.{IsHonest, build_requirements-IsHonest}

-- The response as the consumer's HTTP client reads it.
abbrev pub received : Response → HttpResponse
received r = record {
  status_code = r.status_code;
  requirements = r.requirements;
  payment_response = r.payment_response;
}

given-some : (t : Text) → t ≢ [] → given (some t) ≡ true
given-some [] h = absurd (h refl)
given-some (c ∷ t) h = refl

pub header_or-some : (message : String) (t : Text) → t ≢ [] → header_or message (some t) ≡ ok t
header_or-some message [] h = absurd (h refl)
header_or-some message (c ∷ t) h = refl

module _ (wire : Wire) (empty : wire.read [] ≡ none) where
  pub write-ne-empty : (v : Value) → wire.write v ≢ []
  write-ne-empty v h = let back = wire.read-write v in cc

module _ {K : Type 0} ⦃keys : Keys K⦄ (solana : Solana K) (wire : Wire) (registry : Registry)
    (config : Config K) (path : Text) (dumps_sorted : Value → Text) where
  module _ {T : Type 0} (parse_tx : Text → Option T) (send_raw : T → Result (Unit {0}))
      (handler : Value → Result (Unit {0})) (now : ℤ) where
    -- A prompt with neither a payment nor a channel is answered with the terms for it.
    pub stream_endpoint-prompt :
        (prompt : Fields) (n : ℕ) (h : Host K)
        → count registry config.pricing.tokenizer_id (extract_prompt_text dumps_sorted prompt)
          ≡ ok n
        → stream_endpoint solana wire registry config path parse_tx send_raw handler dumps_sorted
            now
            (some (some (obj prompt)))
            none
            none
            h
          ≡ (ok (challenge (encode_requirements wire (terms config path n))), h)
    unfolding stream_endpoint build_requirements quoted_count ◌>>=◌
    stream_endpoint-prompt prompt n h c = simp c

    -- A payment that opens a channel is acknowledged with its name.
    pub stream_endpoint-payment :
        (header : Text) (h : Host K) (c : ActiveChannel K)
        → header ≢ []
        → open_channel_from_payment solana wire config parse_tx send_raw now header h
          ≡ (ok h.next, add_channel c h)
        → stream_endpoint solana wire registry config path parse_tx send_raw handler dumps_sorted
            now none
            (some header)
            none
            h
          ≡ (
            ok (record {
              status_code = 200;
              requirements = none;
              payment_response = some (acknowledge solana wire registry config path c);
              stream = none;
            }),
            add_channel c h,
          )
    unfolding stream_endpoint ◌>>=◌
    stream_endpoint-payment header h c full o =
        let there : (add_channel c h).heap h.next ≡ c = unfold add_channel in ground arith in
        simp (given-some header full, o, there)

  -- The answer reads back as the terms.
  pub parse_402-challenge :
      (n : ℕ)
      → wire.read [] ≡ none
      → parse_402 wire (received (challenge (encode_requirements wire (terms config path n))))
        ≡ ok (terms config path n)
  unfolding parse_402
  parse_402-challenge n empty =
      let header = encode_requirements wire (terms config path n) in
      let full : header ≢ [] = unfold encode_requirements in write-ne-empty wire empty _ in
      let arrives = decode-encode_requirements wire (terms config path n) (unfold terms in refl) in
      rw (header_or-some _ header full) arrives

  -- Terms that the policy allows, with a deposit that covers the input, pass the consumer's checks.
  pub check_quote-terms :
      (o : Opening K) (text : Text) (n : ℕ)
      → count registry config.pricing.tokenizer_id text ≡ ok n
      → Allows o.policy (terms config path n)
      → (terms config path n).prepaid_input_micro ≤ℤ o.deposit_micro
      → check_quote registry o (terms config path n) text ≡ ok tt
  unfolding check_quote
  check_quote-terms o text n c allowed covered =
      let made : build_requirements registry config path (some text) ≡ ok (terms config path n) =
        unfold build_requirements quoted_count in rw c refl in
      let honest = build_requirements-IsHonest wire o.policy registry config path text made in
      let audited = (audit_iff o.policy (terms config path n)).1 allowed in
      rw (audited, honest.verifies) (ground (arith, covered))
