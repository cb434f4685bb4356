-- ===== src/Consumer/Opening/Sound.antt =====
-- What a session that `open_session` returns starts with.
use tap.Base.{◌≡◌, Bool, Option, List, [], arith}
use tap.Base.Int.{ℤ, pos, ◌*ℤ◌, ◌≤ℤ◌}
use tap.Base.Text.{Text}
use tap.Base.Exceptions.{Result, ok, >>=-eq-ok}
use tap.External.{Keys, Ed25519}
use tap.Json.{Value, Wire, Fields}
use tap.Timing.{TimingParameters, timing_parameters}
use tap.Tokenizer.{Registry}
use tap.Protocol.Prompt.{extract_prompt_text}
use tap.X402.Requirements.{PaymentRequirements}
use tap.Chain.Pda.{Solana}
use tap.Chain.Instruction.{Instruction}
use tap.Evaluators.Decision.{Evaluator}
use tap.Consumer.Policy.{audit}
use tap.Consumer.Policy.Sound.{Allows, audit_iff}
use tap.Consumer.Session.{ConsumerSession, consumer_session}
use tap.Consumer.Opening.{Opening, HttpResponse, parse_402, check_quote, pay, open_session}

module _ {K SK : Type 0} where
  -- What the session starts with, for given terms.
  pub record Starts (deposit input_price output_price prepaid : ℤ) (s : ConsumerSession K SK)
      : Type 0 where
    pub deposit_micro : s.deposit_micro ≡ deposit
    pub input_price_micro : s.input_price_micro ≡ input_price
    pub output_price_micro : s.output_price_micro ≡ output_price
    pub prepaid_input_micro : s.prepaid_input_micro ≡ prepaid
    pub nothing_but_input : s.state.cumulative_paid ≡ prepaid
    pub nothing_posted : s.posted ≡ []

  pub consumer_session-Starts :
      (channel_id : Text) (session_key : SK) (timing : TimingParameters)
      (evaluator : Option Evaluator) (input_price output_price prepaid deposit cap k_max : ℤ)
      (on_commit : Bool) (now : ℤ) {s : ConsumerSession K SK}
      → consumer_session channel_id session_key timing evaluator input_price output_price prepaid
          deposit cap k_max on_commit now
        ≡ ok s
      → Starts deposit input_price output_price prepaid s
  unfolding consumer_session
  consumer_session-Starts channel_id session_key timing evaluator input_price output_price prepaid
        deposit cap k_max on_commit now h =
      record {
        deposit_micro = ground arith;
        input_price_micro = ground arith;
        output_price_micro = ground arith;
        prepaid_input_micro = ground arith;
        nothing_but_input = ground arith;
        nothing_posted = ground arith;
      }

  pub consumer_session_named :
      (channel_id : Text) (session_key : SK) (timing : TimingParameters)
      (evaluator : Option Evaluator) (input_price output_price prepaid deposit cap k_max : ℤ)
      (on_commit : Bool) (now : ℤ) {s : ConsumerSession K SK}
      → consumer_session channel_id session_key timing evaluator input_price output_price prepaid
          deposit cap k_max on_commit now
        ≡ ok s
      → (s.channel_id ≡ channel_id) × (s.session_key ≡ session_key)
  unfolding consumer_session
  consumer_session_named channel_id session_key timing evaluator input_price output_price prepaid
        deposit cap k_max on_commit now h =
      (ground arith, ground arith)

module _ {K : Type 0} where
  check_quote_sound :
      (tokenizers : Registry) (o : Opening K) (req : PaymentRequirements) (text : Text)
      → check_quote tokenizers o req text ≡ ok tt
      → (audit o.policy req ≡ ok tt) × (req.prepaid_input_micro ≤ℤ o.deposit_micro)
  unfolding check_quote
  check_quote_sound tokenizers o req text h = ground arith

module _ {K SK M : Type 0} ⦃keys : Keys K⦄ (ed : Ed25519 SK) (solana : Solana K) (wire : Wire)
    (compile : K → List (Instruction K) → Result M) (sign : M → Text)
    (post : Text → Result HttpResponse) (dumps_sorted : Value → Text) where
  -- A session that opens had an answer to its prompt, whose terms, as the header of that answer
  -- states them, the policy allows, and whose prepaid input the deposit covers; it starts on these
  -- terms, has authorized the prepaid input, and has posted nothing.
  pub open_session_sound :
      (tokenizers : Registry) (o : Opening K) (quoted : Result HttpResponse) (prompt_body : Fields)
      (session_key : SK) (nonce now : ℤ) {s : ConsumerSession K SK}
      → open_session ed solana wire compile sign post dumps_sorted tokenizers o quoted prompt_body
          session_key nonce now
        ≡ ok s
      → (resp : HttpResponse) × (req : PaymentRequirements) × (quoted ≡ ok resp)
        × (parse_402 wire resp ≡ ok req)
        × Allows o.policy req
        × (req.prepaid_input_micro ≤ℤ o.deposit_micro)
        × Starts o.deposit_micro req.input_price_micro req.output_price_micro
            req.prepaid_input_micro s
  unfolding open_session
  open_session_sound tokenizers o quoted prompt_body session_key nonce now h =
      let (resp, answered, h1) = >>=-eq-ok quoted _ h in
      let (req, read, h2) = >>=-eq-ok (parse_402 wire resp) _ h1 in
      let (_, checked, h3) =
        >>=-eq-ok (check_quote tokenizers o req (extract_prompt_text dumps_sorted prompt_body)) _
          h2 in
      let (timing, _, h4) =
        >>=-eq-ok
          (timing_parameters req.grace_ms req.pause_timeout_ms (req.duration_secs *ℤ pos 1000)) _
          h3 in
      let (ack, _, h5) =
        >>=-eq-ok (pay ed solana wire compile sign post dumps_sorted o req session_key nonce) _
          h4 in
      let (audited, covered) =
        check_quote_sound tokenizers o req (extract_prompt_text dumps_sorted prompt_body) checked in
      (
        resp,
        req,
        answered,
        read,
        (audit_iff o.policy req).0 audited,
        covered,
        consumer_session-Starts ack.channel_id session_key timing o.evaluator req.input_price_micro
            req.output_price_micro req.prepaid_input_micro o.deposit_micro req.max_unpaid_micro
            o.k_max o.on_commit now h5,
      )
