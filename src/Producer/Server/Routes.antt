-- ===== src/Producer/Server/Routes.antt =====
-- sdk/python/tap/producer/server.py: the GET and POST handlers that `_mount` puts on a path.
use tap.Base.{ℕ, Bool, true, false, Option, none, some, List, [], ◌∷◌, ◌++◌, if◌then◌else◌}
use tap.Base.Int.{ℤ}
use tap.Base.Text.{Text, codes}
use tap.Base.Exceptions.{http_exception, value_error, type_error, Result, ok, err}
use tap.Base.Action.{Action, pure, raise, lift, gets, ◌>>=◌, ◌>>◌}
use tap.External.{Keys}
use tap.Json.{Value, null, str, obj, fields, Wire}
use tap.Protocol.Prompt.{extract_prompt_text}
use tap.Tokenizer.{Registry}
use tap.X402.Requirements.{encode_requirements}
use tap.X402.Response.{encode_response}
use tap.Chain.Pda.{Solana}
use tap.Producer.Channel.{ActiveChannel}
use tap.Producer.Sse.{Frame, payload, done, token_frames, encode_sse}
use tap.Producer.Server.{Config, build_requirements}
use tap.Producer.Server.Host.{Host, find_channel, open_channel_from_payment}

pub record Response : Type 0 where
  pub status_code : ℕ
  -- the headers X-PAYMENT-REQUIREMENTS and X-PAYMENT-RESPONSE
  pub requirements : Option Text
  pub payment_response : Option Text
  -- the channel whose stream is the body
  pub stream : Option ℕ

abbrev pub challenge : Text → Response
challenge header = record {
  status_code = 402;
  requirements = some header;
  payment_response = none;
  stream = none;
}

-- `extract_prompt_text(body)`; a body that is no object raises a TypeError or an AttributeError,
-- which the server answers alike.
abbrev pub prompt_of : (Value → Text) → Value → Result Text
prompt_of dumps_sorted (obj fs) = ok (extract_prompt_text dumps_sorted fs)
prompt_of dumps_sorted _ = err type_error

-- `if header` on a header that may be absent.
abbrev pub given : Option Text → Bool
given none = false
given (some []) = false
given (some _) = true

abbrev pub text_of : Option Text → Text
text_of none = []
text_of (some t) = t

-- `json.loads(raw) if raw else None`, where the JSON text `null` is None as well.
abbrev pub body_of : Option (Option Value) → Result (Option Value)
body_of none = ok none
body_of (some none) = err value_error
body_of (some (some null)) = ok none
body_of (some (some v)) = ok (some v)

-- The frames of `event_source`: `raised` is the text of what the iterator raised, if it did.
unfoldable pub event_source : List (Text × ℤ) → Option Text → List Frame
event_source chunks none = encode_sse chunks
event_source chunks (some raised) =
    token_frames chunks ++ (payload (obj (fields ((codes "error", str raised) ∷ []))) ∷ done ∷ [])

module _ {K : Type 0} ⦃keys : Keys K⦄ (solana : Solana K) (wire : Wire) (tokenizers : Registry)
    (config : Config K) (path : Text) where
  open keys use {key_str}

  abbrev quote : Option Text → Action (Host K) Response
  quote prompt_text = do
    req ← lift (build_requirements tokenizers config path prompt_text)
    pure (challenge (encode_requirements wire req))

  unfoldable pub challenge_generic : Action (Host K) Response
  challenge_generic = quote none

  unfoldable pub acknowledge : ActiveChannel K → Text
  acknowledge channel = encode_response wire (record {
    tx_hash = codes "pending";
    settlement = codes "confirmed";
    channel_id = key_str channel.channel_id;
    channel_state = codes "active";
  })

  module _ {T : Type 0} (parse_tx : Text → Option T) (send_raw : T → Result (Unit {0}))
      (handler : Value → Result (Unit {0})) (dumps_sorted : Value → Text) (now : ℤ) where
    -- `handler` is how the call of the route's handler ends; its tokens come later.
    unfoldable pub stream_response : ℕ → Option Text → Value → Action (Host K) Response
    stream_response ref ack body = do
      lift (handler body)
      pure (record {
        status_code = 200;
        requirements = none;
        payment_response = ack;
        stream = some ref;
      })

    unfoldable pub open_from : Text → Action (Host K) (ℕ × Text)
    unfolding acknowledge
    open_from x_payment = do
      ref ← open_channel_from_payment solana wire config parse_tx send_raw now x_payment
      channel ← gets (λ h. h.heap ref)
      pure (ref, acknowledge channel)

    -- With a body, in the order of the tests.
    unfoldable pub stream_body : Option Text → Option Text → Value → Action (Host K) Response
    unfolding stream_response open_from
    stream_body x_payment x_tap_channel body =
        if given x_tap_channel
        then (do ref ← find_channel (text_of x_tap_channel); stream_response ref none body)
        else if given x_payment
        then (do
          opened ← open_from (text_of x_payment)
          stream_response opened.0 (some opened.1) body)
        else (do prompt_text ← lift (prompt_of dumps_sorted body); quote (some prompt_text))

    unfoldable pub open_only : Option Text → Action (Host K) Response
    unfolding open_from
    open_only x_payment =
        if given x_payment
        then (do
          opened ← open_from (text_of x_payment)
          pure (record {
            status_code = 200;
            requirements = none;
            payment_response = some opened.1;
            stream = none;
          }))
        else raise (http_exception 402 "X-PAYMENT, X-TAP-CHANNEL, or prompt body required")

    -- The POST handler; `raw` is the body, parsed where there is one.
    unfoldable pub stream_endpoint :
        Option (Option Value) → Option Text → Option Text → Action (Host K) Response
    unfolding stream_body open_only
    stream_endpoint raw x_payment x_tap_channel = do
      body ← lift (body_of raw)
      elim body [ some b ↦ stream_body x_payment x_tap_channel b | none ↦ open_only x_payment ]
