-- ===== src/Agreement/Handshake/Opens.antt =====
-- `open_session` (sdk/python/tap/consumer/client.py) with both of its requests answered by one
-- producer.
use tap.Base.{ℕ, ◌≡◌, ◌≢◌, refl, sym, ap, ◌∙◌, Option, none, some, List, [], ◌∷◌}
use tap.Base.Int.{ℤ, pos, ◌*ℤ◌, ◌≤ℤ◌}
use tap.Base.Text.{Text, text_eq}
use tap.Base.Exceptions.{Result, ok, bind_returned}
use tap.External.{Keys, Ed25519}
use tap.Json.{Value, obj, Fields, Wire, item, get, truthy}
use tap.Timing.{TimingParameters, timing_parameters}
use tap.Tokenizer.{Registry, count}
use tap.Protocol.Prompt.{extract_prompt_text}
use tap.X402.Payment.{OpenChannelPayment, encode_payment}
use tap.X402.Payment.RoundTrip.{decode-encode_payment}
use tap.X402.Response.{PaymentResponse, encode_response, decode_response, response_from, to_payload}
use tap.Chain.Pda.{Solana, derive_channel_pda, derive_ata}
use tap.Chain.Instruction.{Instruction}
use tap.Chain.Program.{open_channel_ix}
use tap.Producer.Channel.{ActiveChannel}
use tap.Producer.Server.{Config, terms}
use tap.Producer.Server.Host.{Host, channel_from, add_channel}
use tap.Producer.Server.Payment.{open_channel_from_payment_lem}
use tap.Producer.Server.Routes.{Response, stream_endpoint, acknowledge}
use tap.Consumer.Policy.Sound.{Allows}
use tap.Consumer.Session.{ConsumerSession, consumer_session}
use tap.Consumer.Opening.{
  Opening, HttpResponse, open_terms, payment_for, build_open_channel_tx, pay, open_session,
}
use tap.Agreement.Handshake.{
  received, header_or-some, write-ne-empty, stream_endpoint-prompt, stream_endpoint-payment,
  parse_402-challenge, check_quote-terms,
}

decode-encode_response :
    (wire : Wire) (r : PaymentResponse) → decode_response wire (encode_response wire r) ≡ ok r
unfolding decode_response encode_response response_from to_payload item get truthy text_eq
decode-encode_response wire r = simp (wire.read-write, wire.show-str)

module _ {K SK M : Type 0} ⦃keys : Keys K⦄ (ed : Ed25519 SK) (solana : Solana K) (wire : Wire)
    (config : Config K) (path : Text) (dumps_sorted : Value → Text)
    (compile : K → List (Instruction K) → Result M) (sign : M → Text) where
  open keys use {key_bytes, from_string_lem, from_key_bytes_lem}
  open ed use {verify_key}

  -- The payment that is acknowledged.
  pay-ok :
      (post : Text → Result HttpResponse) (o : Opening K) (n : ℕ) (session_key : SK) (nonce : ℤ)
      (public channel : K) (bump : ℕ) (ix : Instruction K) (message : M) (resp : HttpResponse)
      (ack : PaymentResponse)
      → wire.read [] ≡ none
      → key_bytes public ≡ verify_key session_key
      → derive_channel_pda solana o.wallet config.producer nonce ≡ ok (channel, bump)
      → open_channel_ix solana
          (open_terms solana o (terms config path n) config.producer public)
          nonce
        ≡ ok ix
      → compile o.wallet (ix ∷ []) ≡ ok message
      → post (encode_payment wire (payment_for o (terms config path n) public nonce (sign message)))
        ≡ ok resp
      → resp.payment_response ≡ some (encode_response wire ack)
      → pay ed solana wire compile sign post dumps_sorted o (terms config path n) session_key nonce
        ≡ ok ack
  unfolding pay terms build_open_channel_tx open_terms
  pay-ok post o n session_key nonce public channel bump ix message resp ack empty key pda opens
        compiles posts answers =
      let known = from_string_lem config.producer in
      let public_key = from_key_bytes_lem public in
      let full : encode_response wire ack ≢ [] =
        unfold encode_response in write-ne-empty wire empty (to_payload ack) in
      simp (
        known,
        sym key,
        public_key,
        pda,
        opens,
        compiles,
        posts,
        answers,
        header_or-some "X-PAYMENT-RESPONSE missing from open ack" (encode_response wire ack) full,
        decode-encode_response wire ack,
      )

module _ {K SK M T : Type 0} ⦃keys : Keys K⦄ (ed : Ed25519 SK) (solana : Solana K) (wire : Wire)
    (registry : Registry) (config : Config K) (path : Text) (dumps_sorted : Value → Text)
    (compile : K → List (Instruction K) → Result M) (sign : M → Text) (parse_tx : Text → Option T)
    (send_raw : T → Result (Unit {0})) (handler : Value → Result (Unit {0})) where
  open keys use {key_bytes, key_str, from_string_lem}
  open ed use {verify_key}

  -- What the POST handler does with the prompt, and with a payment that has no body.
  abbrev pub answer_prompt : ℤ → Host K → Fields → Result Response
  answer_prompt now h prompt =
      (stream_endpoint solana wire registry config path parse_tx send_raw handler dumps_sorted now
        (some (some (obj prompt))) none none h).0

  abbrev pub answer_payment : ℤ → Host K → Text → Result Response × Host K
  answer_payment now h header =
      stream_endpoint solana wire registry config path parse_tx send_raw handler dumps_sorted now
        none (some header) none h

  -- The payment, and the channel that it opens at the producer.
  abbrev pub sent : Opening K → ℕ → K → ℤ → M → OpenChannelPayment
  sent o n public nonce message = payment_for o (terms config path n) public nonce (sign message)

  abbrev pub opened : Opening K → ℕ → K → K → ℤ → M → ℤ → ActiveChannel K
  opened o n public channel nonce message now =
      channel_from now channel o.wallet public (derive_ata solana o.wallet config.usdc_mint)
        (sent o n public nonce message)

  -- The consumer's opening, with its two requests answered by the producer at two moments; `asks`
  -- and `pays` are the network with the rest of HTTP.
  abbrev pub open_at :
      (Result Response → Result HttpResponse)
      → (Result Response → Result HttpResponse)
      → ℤ
      → ℤ
      → ℤ
      → Host K
      → Host K
      → Opening K
      → Fields
      → SK
      → ℤ
      → Result (ConsumerSession K SK)
  open_at asks pays quoted_at now clock h h' o prompt session_key nonce =
      open_session ed solana wire compile sign (λ header. pays (answer_payment now h' header).0)
        dumps_sorted registry o (asks (answer_prompt quoted_at h prompt)) prompt session_key nonce
        clock

  module _ (empty : wire.read [] ≡ none) where
    pub answer_payment-sent :
        (o : Opening K) (n : ℕ) (public channel : K) (bump : ℕ) (nonce now : ℤ) (message : M)
        (tx : T) (h : Host K)
        → derive_channel_pda solana o.wallet config.producer nonce ≡ ok (channel, bump)
        → parse_tx (sign message) ≡ some tx
        → send_raw tx ≡ ok tt
        → answer_payment now h (encode_payment wire (sent o n public nonce message)) ≡ (
          ok (record {
            status_code = 200;
            requirements = none;
            payment_response = some (
                acknowledge solana wire registry config path
                  (opened o n public channel nonce message now));
            stream = none;
          }),
          add_channel (opened o n public channel nonce message now) h,
        )
    unfolding payment_for
    answer_payment-sent o n public channel bump nonce now message tx h pda parsed taken =
        let payment = sent o n public nonce message in
        let full : encode_payment wire payment ≢ [] =
          unfold encode_payment in write-ne-empty wire empty _ in
        stream_endpoint-payment solana wire registry config path dumps_sorted parse_tx send_raw
          handler now (encode_payment wire payment) h (opened o n public channel nonce message now)
          full
          (open_channel_from_payment_lem solana wire config parse_tx send_raw now
            (encode_payment wire payment) h payment tx o.wallet channel public bump
            (decode-encode_payment wire payment) parsed taken (rw (from_string_lem o.wallet) refl)
            pda (rw (from_string_lem public) refl))

    module _ (asks pays : Result Response → Result HttpResponse)
        (asks_arrives : (r : Response) → asks (ok r) ≡ ok (received r))
        (pays_arrives : (r : Response) → r.status_code ≡ 200 → pays (ok r) ≡ ok (received r)) where
      pub open_at-ok :
          (quoted_at now clock : ℤ) (h h' : Host K) (o : Opening K) (prompt : Fields)
          (session_key : SK) (nonce : ℤ) (n : ℕ) (public channel : K) (bump : ℕ)
          (ix : Instruction K) (message : M) (tx : T) (timing : TimingParameters)
          → count registry config.pricing.tokenizer_id (extract_prompt_text dumps_sorted prompt)
            ≡ ok n
          → Allows o.policy (terms config path n)
          → (terms config path n).prepaid_input_micro ≤ℤ o.deposit_micro
          → timing_parameters config.timing.grace_ms config.timing.pause_timeout_ms
              ((terms config path n).duration_secs *ℤ pos 1000)
            ≡ ok timing
          → key_bytes public ≡ verify_key session_key
          → derive_channel_pda solana o.wallet config.producer nonce ≡ ok (channel, bump)
          → open_channel_ix solana
              (open_terms solana o (terms config path n) config.producer public)
              nonce
            ≡ ok ix
          → compile o.wallet (ix ∷ []) ≡ ok message
          → parse_tx (sign message) ≡ some tx
          → send_raw tx ≡ ok tt
          → open_at asks pays quoted_at now clock h h' o prompt session_key nonce
            ≡ consumer_session
                (key_str channel)
                session_key
                timing
                o.evaluator
                (terms config path n).input_price_micro
                (terms config path n).output_price_micro
                (terms config path n).prepaid_input_micro
                o.deposit_micro
                (terms config path n).max_unpaid_micro
                o.k_max
                o.on_commit
                clock
      unfolding open_session terms acknowledge channel_from
      open_at-ok quoted_at now clock h h' o prompt session_key nonce n public channel bump ix
            message tx timing counted allowed covered times key pda opens compiles parsed taken =
          let quote =
            stream_endpoint-prompt solana wire registry config path dumps_sorted parse_tx send_raw
              handler quoted_at prompt n h counted in
          let parsed_quote =
            parse_402-challenge solana wire registry config path dumps_sorted n empty in
          let checked =
            check_quote-terms solana wire registry config path dumps_sorted o
              (extract_prompt_text dumps_sorted prompt) n counted allowed covered in
          let paid =
            answer_payment-sent o n public channel bump nonce now message tx h' pda parsed taken in
          bind_returned _ _ (ap (λ x. asks x.0) quote ∙ asks_arrives _) (
            bind_returned _ _ parsed_quote (
              bind_returned _ _ checked (
                bind_returned _ _ times (
                  bind_returned _ _
                    (pay-ok ed solana wire config path dumps_sorted compile sign
                      (λ header. pays (answer_payment now h' header).0) o n session_key nonce public
                      channel bump ix message _ _ empty key pda opens compiles
                      (ap (λ x. pays x.0) paid ∙ pays_arrives _ refl) refl)
                    refl))))
