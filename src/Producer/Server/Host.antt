-- ===== src/Producer/Server/Host.antt =====
-- sdk/python/tap/producer/server.py: the channels that a producer holds, and what opens one, takes
-- a commitment on one and ends one. A channel is an object, which the registry and the tasks share:
-- it stands in a heap under a number.
use tap.Base.{ℕ, ◌+◌, Bool, true, false, Option, none, some, List, ◌==◌, if◌then◌else◌}
use tap.Base.Int.{ℤ, pos, ◌*ℤ◌}
use tap.Base.Text.{Text}
use tap.Base.Exceptions.{
  Exception, commitment_error, protocol_error, x402_error, http_exception, value_error, Result,
  or_raise, catch_as,
}
use tap.Base.Action.{Action, pure, lift, gets, modify, ◌>>=◌, ◌>>◌}
use tap.External.{Keys, Ed25519}
use tap.Json.{Wire}
use tap.Protocol.Header.{decode_commitment, key_of}
use tap.X402.Payment.{OpenChannelPayment, decode_payment}
use tap.Chain.Pda.{Solana, derive_channel_pda, derive_ata}
use tap.Chain.Instruction.{Instruction}
use tap.Producer.Channel.{ActiveChannel}
use tap.Producer.Verifier.{accept_commitment}
use tap.Producer.Registry.{Registry, put, get, remove}
use tap.Producer.Settle.{settle_channel}
use tap.Producer.Server.{Config}

pub record Host (K : Type 0) : Type 0 where
  pub heap : ℕ → ActiveChannel K
  -- the next number that no channel has
  pub next : ℕ
  pub registry : Registry K ℕ

abbrev pub is_protocol_error : Exception → Bool
is_protocol_error (protocol_error _) = true
is_protocol_error _ = false

abbrev pub is_commitment_error : Exception → Bool
is_commitment_error (commitment_error _) = true
is_commitment_error _ = false

abbrev pub is_x402_error : Exception → Bool
is_x402_error (x402_error _) = true
is_x402_error _ = false

module _ {K : Type 0} where
  -- The mutation of the channel object at `ref`.
  unfoldable pub store : ℕ → ActiveChannel K → Host K → Host K
  store ref c h = record h { heap = λ r. if r == ref then c else h.heap r }

module _ {K : Type 0} ⦃keys : Keys K⦄ where
  open keys use {from_string}

  -- `ActiveChannel(...)`, at `now`.
  unfoldable pub channel_from : ℤ → K → K → K → K → OpenChannelPayment → ActiveChannel K
  channel_from now channel_id consumer session_key consumer_usdc payment = record {
    channel_id = channel_id;
    consumer = consumer;
    session_key = session_key;
    consumer_usdc = consumer_usdc;
    deposit_micro = payment.deposit_micro;
    input_price_micro = payment.input_price_micro;
    output_price_micro = payment.output_price_micro;
    prepaid_input_micro = payment.prepaid_input_micro;
    trailing_buffer_tokens = payment.trailing_buffer_tokens;
    expires_at_ms = payment.duration_secs *ℤ pos 1000;
    tokens_delivered = 0;
    last_commitment = none;
    last_commit_at_ms = now;
    halted = false;
    halted_reason = none;
  }

  -- A new object, and its registration.
  unfoldable pub add_channel : ActiveChannel K → Host K → Host K
  unfolding store
  add_channel c h = record (store h.next c h) {
    next = h.next + 1;
    registry = put c.channel_id h.next h.registry;
  }

  -- `self._registry.get(Pubkey.from_string(x_tap_channel))`, or 404.
  unfoldable pub find_channel : Text → Action (Host K) ℕ
  find_channel x_tap_channel = do
    channel_id ← lift (or_raise (from_string x_tap_channel) value_error)
    found ← gets (λ h. get channel_id h.registry)
    lift (or_raise found (http_exception 404 "unknown channel"))

  -- The details of the responses 400 and 409 are the texts of the exceptions, which are left out.
  unfoldable pub commit_endpoint :
      {SK : Type 0} → Ed25519 SK → Wire → ℤ → Text → Text → Action (Host K) ℕ
  unfolding find_channel store
  commit_endpoint ed wire now x_tap_commit x_tap_channel = do
    signed ←
        lift
          (catch_as is_protocol_error (http_exception 400 "") (decode_commitment wire x_tap_commit))
    ref ← find_channel x_tap_channel
    channel ← gets (λ h. h.heap ref)
    accepted ← lift (
        catch_as is_commitment_error (http_exception 409 "")
          (accept_commitment ed now channel signed))
    modify (store ref accepted)
    pure 204

  module _ (solana : Solana K) (wire : Wire) (config : Config K) where
    -- `parse_tx` is the base64 and transaction parser, `send_raw` the submission.
    unfoldable pub open_channel_from_payment :
        {T : Type 0} → (Text → Option T) → (T → Result (Unit {0})) → ℤ → Text → Action (Host K) ℕ
    unfolding channel_from add_channel
    open_channel_from_payment parse_tx send_raw now header_value = do
      payment ←
          lift (catch_as is_x402_error (http_exception 400 "") (decode_payment wire header_value))
      tx ← lift (
          or_raise (parse_tx payment.transaction_b64)
            (http_exception 400 "X-PAYMENT.transaction is not a valid Solana tx"))
      lift (send_raw tx) >> (do
        consumer ← lift (key_of wire payment.consumer_pubkey)
        derived ← lift (derive_channel_pda solana consumer config.producer payment.nonce)
        session_key ← lift (key_of wire payment.session_key)
        ref ← gets (λ h. h.next)
        modify (
            add_channel (
              channel_from now derived.0 consumer session_key
                (derive_ata solana consumer config.usdc_mint) payment))
        pure ref)

    -- `finally: await self._registry.remove(channel.channel_id)`
    unfoldable pub forget : ℕ → Host K → Host K
    forget ref h = record h { registry = remove (h.heap ref).channel_id h.registry }

    -- What `settle_channel` returned or raised, where there is a commitment to settle.
    unfoldable pub settle_task :
        {R : Type 0} → (List (Instruction K) → Result R) → ActiveChannel K → Option (Result R)
    settle_task submit channel = elim channel.last_commitment [
      | none ↦ none
      | some _ ↦ some (settle_channel solana submit config.producer channel)
    ]

    -- The outcome of the settlement is logged; whatever it is, the channel is forgotten.
    unfoldable pub settle_and_cleanup :
        {R : Type 0} → (List (Instruction K) → Result R) → ℕ → Host K → Option (Result R) × Host K
    unfolding settle_task forget
    settle_and_cleanup submit ref h = (settle_task submit (h.heap ref), forget ref h)
