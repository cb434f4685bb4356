-- ===== src/Tests/ProducerRuns.antt =====
-- The verifier, the stream's guard, the registry and the pricing, on concrete values.
use tap.Base.{ℕ, ◌≡◌, ◌↔◌, refl, false, none, some, List, [], ◌∷◌, arith, if◌then◌else◌}
use tap.Base.Int.{pos, ◌+ℤ◌, ◌-ℤ◌, ◌*ℤ◌, ◌<ℤ◌}
use tap.Base.Text.{codes, text_eq}
use tap.Base.Exceptions.{ok}
use tap.External.{◌==ₖ◌}
use tap.Timing.{default_timing}
use tap.Protocol.Commit.{SignedCommitment}
use tap.Producer.Channel.{ActiveChannel, unpaid_value_micro, note_commit}
use tap.Producer.Pricing.{Pricing, pricing, IsPricing, pricing-IsPricing}
use tap.Producer.Verifier.{accept_commitment}
use tap.Producer.Verifier.Accepts.{Accepts, accept_commitment_iff}
use tap.Producer.WrapStream.{Turn, Gap, wrap_stream}
use tap.Producer.WrapStream.Exposure.{IsBounded, wrap_stream_exposure}
use tap.Producer.Registry.{put, remove, get, get-put, get-remove}
use tap.Tests.Parties.{Party, channel, consumer, session, parties, signer, signature_of}

abbrev pub opened : ActiveChannel Party
opened = record {
  channel_id = channel;
  consumer = consumer;
  session_key = session;
  consumer_usdc = consumer;
  deposit_micro = pos 1000;
  input_price_micro = pos 5;
  output_price_micro = pos 10;
  prepaid_input_micro = pos 15;
  trailing_buffer_tokens = pos 4;
  expires_at_ms = pos 60000;
  tokens_delivered = 0;
  last_commitment = none;
  last_commit_at_ms = pos 0;
  halted = false;
  halted_reason = none;
}

abbrev pub first_commitment : SignedCommitment Party
first_commitment = record {
  message = record {
    channel = channel;
    sequence = pos 1;
    cumulative_paid = pos 25;
    tokens_received = pos 1;
    timestamp_ms = pos 7;
  };
  signature = signature_of session;
}

accept_commitment_iff_example :
    (accept_commitment signer (pos 8) opened first_commitment
      ≡ ok (note_commit (pos 8) first_commitment opened))
    ↔ (Accepts signer opened first_commitment
        × (note_commit (pos 8) first_commitment opened
            ≡ note_commit (pos 8) first_commitment opened))
accept_commitment_iff_example =
    accept_commitment_iff signer (pos 8) opened (note_commit (pos 8) first_commitment opened)
      first_commitment

abbrev pub prices : Pricing
prices = record {
  input_price_micro = pos 5;
  output_price_micro = pos 10;
  max_unpaid_micro = pos 20;
  trailing_buffer_tokens = pos 4;
  tokenizer_id = codes "tap-v1";
  min_deposit_micro = pos 100;
  max_deposit_micro = pos 100000;
}

abbrev pub gap : ℕ → Gap Party
gap n = record { posts = []; now = pos n }

abbrev pub paid : ℕ → Gap Party
paid n = record { posts = (first_commitment, pos n) ∷ []; now = pos n }

-- Three tokens, the last of which waits for the first commitment.
abbrev pub run : List (Turn Party)
run =
    record { token = codes "a"; arrive = gap 1; waits = []; pace = gap 1; sent = gap 2 }
    ∷ record { token = codes "b"; arrive = gap 3; waits = []; pace = gap 3; sent = gap 4 }
    ∷ record {
      token = codes "c";
      arrive = gap 5;
      waits = paid 15 ∷ [];
      pace = gap 15;
      sent = gap 16;
    }
    ∷ []

pub opened-IsBounded : IsBounded signer prices default_timing opened
unfolding unpaid_value_micro ◌*ℤ◌ ◌-ℤ◌ ◌+ℤ◌
opened-IsBounded = record { price_nonneg = omega arith; bounded = omega arith }

wrap_stream_exposure_example :
    unpaid_value_micro (wrap_stream signer prices default_timing (pos 0) run opened).channel
    <ℤ pos 20
      +ℤ (wrap_stream signer prices default_timing (pos 0) run opened).channel.output_price_micro
wrap_stream_exposure_example =
    wrap_stream_exposure signer prices default_timing (pos 0) run opened opened-IsBounded

get-put_example :
    get consumer (put channel prices ((consumer, prices) ∷ []))
    ≡ (if channel ==ₖ consumer then some prices else get consumer ((consumer, prices) ∷ []))
get-put_example = get-put consumer channel prices ((consumer, prices) ∷ [])

get-remove_example : get channel (remove channel ((channel, prices) ∷ (consumer, prices) ∷ [])) ≡ (
    if channel ==ₖ channel then none else get channel ((channel, prices) ∷ (consumer, prices) ∷ []))
get-remove_example = get-remove channel channel ((channel, prices) ∷ (consumer, prices) ∷ [])

prices_pass : pricing prices ≡ ok prices
unfolding pricing text_eq
prices_pass = refl

pricing-IsPricing_example : IsPricing prices
pricing-IsPricing_example = pricing-IsPricing prices prices_pass
