-- ===== src/Consumer/Opening.antt =====
-- sdk/python/tap/consumer/discovery.py, opener.py and `open_session` of client.py,
-- with `public_key` of session_key.py. The network, the wallet and the random numbers are
-- arguments.
pub mod Sound
pub mod Discovery
use tap.Base.{ℕ, String, Bool, not, Option, none, some, List, [], ◌∷◌, ◌==◌}
use tap.Base.Int.{ℤ, pos, ◌*ℤ◌, ltb_ℤ}
use tap.Base.Text.{Text, codes}
use tap.Base.Exceptions.{Result, ok, err, x402_error, value_error, raise_if, or_raise, ◌>>=◌, ◌>>◌}
use tap.External.{Keys, Ed25519}
use tap.Json.{Value, str, Wire, Fields}
use tap.Timing.{TimingParameters, timing_parameters}
use tap.Tokenizer.{Registry}
use tap.Protocol.Prompt.{extract_prompt_text}
use tap.Protocol.Header.{key_of}
use tap.X402.Requirements.{PaymentRequirements, scheme_name, decode_requirements}
use tap.X402.Payment.{OpenChannelPayment, encode_payment}
use tap.X402.Response.{PaymentResponse, decode_response}
use tap.Chain.Pda.{Solana, derive_channel_pda, derive_ata}
use tap.Chain.Instruction.{Instruction}
use tap.Chain.Program.{OpenTerms, open_channel_ix}
use tap.Evaluators.Decision.{Evaluator}
use tap.Consumer.Policy.{ConsumerPolicy, audit, verify_prompt_tokens}
use tap.Consumer.Session.{ConsumerSession, consumer_session}

-- What the consumer reads of an HTTP response.
pub record HttpResponse : Type 0 where
  pub status_code : ℕ
  -- the headers X-PAYMENT-REQUIREMENTS and X-PAYMENT-RESPONSE
  pub requirements : Option Text
  pub payment_response : Option Text

-- `if not header`: absent or empty.
abbrev pub header_or : String → Option Text → Result Text
header_or message none = err (x402_error message)
header_or message (some []) = err (x402_error message)
header_or message (some (c ∷ t)) = ok (c ∷ t)

pub record OpenChannelPlan (K M : Type 0) : Type 0 where
  pub nonce : ℤ
  pub channel : K
  pub message : M

-- The arguments of `open_session` besides the prompt, and the fields of the client.
pub record Opening (K : Type 0) : Type 0 where
  pub wallet : K
  pub policy : ConsumerPolicy
  pub usdc_mint : K
  pub deposit_micro : ℤ
  pub evaluator : Option Evaluator
  pub k_max : ℤ
  pub on_commit : Bool

module _ (wire : Wire) where
  unfoldable pub parse_402 : HttpResponse → Result PaymentRequirements
  parse_402 resp = do
    raise_if (not (resp.status_code == 402)) (x402_error "expected HTTP 402")
    header ← header_or "X-PAYMENT-REQUIREMENTS missing from 402 response" resp.requirements
    decode_requirements wire header

module _ {K : Type 0} where
  -- The two checks, and the deposit's.
  unfoldable pub check_quote : Registry → Opening K → PaymentRequirements → Text → Result (Unit {0})
  check_quote tokenizers o req prompt_text = do
    audit o.policy req
    verify_prompt_tokens o.policy tokenizers req prompt_text
    raise_if (ltb_ℤ o.deposit_micro req.prepaid_input_micro)
        (x402_error "deposit cannot cover prepaid input cost")

module _ {K : Type 0} ⦃keys : Keys K⦄ (solana : Solana K) where
  unfoldable pub open_terms : Opening K → PaymentRequirements → K → K → OpenTerms K
  open_terms o req producer session_key = record {
    consumer = o.wallet;
    producer = producer;
    consumer_usdc = derive_ata solana o.wallet o.usdc_mint;
    usdc_mint = o.usdc_mint;
    session_key = session_key;
    deposit_micro = o.deposit_micro;
    input_price_micro = req.input_price_micro;
    output_price_micro = req.output_price_micro;
    prepaid_input_micro = req.prepaid_input_micro;
    duration_secs = req.duration_secs;
    dispute_secs = req.dispute_secs;
    trailing_buffer = req.trailing_buffer_tokens;
  }

module _ {K : Type 0} ⦃keys : Keys K⦄ where
  open keys use {key_str}

  unfoldable pub payment_for : Opening K → PaymentRequirements → K → ℤ → Text → OpenChannelPayment
  payment_for o req session_key nonce transaction_b64 = record {
    scheme = str scheme_name;
    network = req.network;
    consumer_pubkey = str (key_str o.wallet);
    session_key = str (key_str session_key);
    nonce = nonce;
    deposit_micro = o.deposit_micro;
    input_price_micro = req.input_price_micro;
    output_price_micro = req.output_price_micro;
    prepaid_input_micro = req.prepaid_input_micro;
    duration_secs = req.duration_secs;
    dispute_secs = req.dispute_secs;
    trailing_buffer_tokens = req.trailing_buffer_tokens;
    transaction_b64 = transaction_b64;
  }

module _ {K SK M : Type 0} ⦃keys : Keys K⦄ (ed : Ed25519 SK) (solana : Solana K) (wire : Wire) where
  open keys use {from_key_bytes}
  open ed use {verify_key}

  -- `compile` is `MessageV0.try_compile` with the blockhash.
  unfoldable pub build_open_channel_tx :
      (K → List (Instruction K) → Result M) → OpenTerms K → ℤ → Result (OpenChannelPlan K M)
  build_open_channel_tx compile t nonce = do
    (channel, _) ← derive_channel_pda solana t.consumer t.producer nonce
    ix ← open_channel_ix solana t nonce
    message ← compile t.consumer (ix ∷ [])
    ok (record { nonce = nonce; channel = channel; message = message })

  module _ (compile : K → List (Instruction K) → Result M) (sign : M → Text)
      (post : Text → Result HttpResponse) (dumps_sorted : Value → Text) where
    -- Below the checks, up to the acknowledgement: `sign` signs and writes the transaction, `post`
    -- sends the X-PAYMENT header and raises on an error status.
    unfoldable pub pay : Opening K → PaymentRequirements → SK → ℤ → Result PaymentResponse
    unfolding build_open_channel_tx open_terms payment_for
    pay o req session_key nonce = do
      producer ← key_of wire req.producer_pubkey
      public_key ← or_raise (from_key_bytes (verify_key session_key)) value_error
      plan ← build_open_channel_tx compile (open_terms solana o req producer public_key) nonce
      resp ←
          post (encode_payment wire (payment_for o req public_key plan.nonce (sign plan.message)))
      ack_header ← header_or "X-PAYMENT-RESPONSE missing from open ack" resp.payment_response
      decode_response wire ack_header

    -- `quoted` is the answer to the prompt; the session key, the nonce and the clock are drawn.
    unfoldable pub open_session :
        Registry
        → Opening K
        → Result HttpResponse
        → Fields
        → SK
        → ℤ
        → ℤ
        → Result (ConsumerSession K SK)
    unfolding parse_402 check_quote pay
    open_session tokenizers o quoted prompt_body session_key nonce now = do
      resp ← quoted
      req ← parse_402 wire resp
      check_quote tokenizers o req (extract_prompt_text dumps_sorted prompt_body)
      timing ← timing_parameters req.grace_ms req.pause_timeout_ms (req.duration_secs *ℤ pos 1000)
      ack ← pay o req session_key nonce
      consumer_session ack.channel_id session_key timing o.evaluator req.input_price_micro
          req.output_price_micro req.prepaid_input_micro o.deposit_micro req.max_unpaid_micro
          o.k_max o.on_commit now
