-- ===== src/Tests/OpeningRuns.antt =====
-- `open_session` from end to end, on concrete values.
use tap.Base.{ℕ, ◌≡◌, refl, false, Option, none, some, List, [], ◌∷◌, ◌++◌}
use tap.Base.Int.{pos, ◌*ℤ◌, ◌≤ℤ◌}
use tap.Base.Text.{Text, codes}
use tap.Base.Exceptions.{Result, ok}
use tap.Json.{Value, str, null, Fields, fields, Wire}
use tap.Timing.{TimingParameters, default_timing}
use tap.Tokenizer.{Registry, tap_v1}
use tap.X402.Requirements.{PaymentRequirements, scheme_name, encode_requirements}
use tap.X402.Response.{PaymentResponse, encode_response}
use tap.Consumer.Batching.{AdaptiveBatcher}
use tap.Consumer.Halt.{halt_detector}
use tap.Consumer.Policy.{default_policy}
use tap.Consumer.Policy.Sound.{Allows}
use tap.Consumer.Session.{ConsumerSession}
use tap.Consumer.Opening.{Opening, HttpResponse, parse_402, open_session}
use tap.Consumer.Opening.Sound.{Starts, open_session_sound}
use tap.Chain.Instruction.{Instruction}
use tap.Tests.Wire.{wire}
use tap.Tests.Parties.{Party, channel, consumer, producer, session, parties, signer, bytes_of}
use tap.Tests.Chain.{chain}

abbrev offered : PaymentRequirements
offered = record {
  scheme = str scheme_name;
  network = str (codes "solana-devnet");
  asset = str (codes "usdc");
  recipient = str (codes "program");
  producer_pubkey = str (bytes_of producer);
  input_price_micro = pos 5;
  output_price_micro = pos 10;
  max_unpaid_micro = pos 100;
  trailing_buffer_tokens = pos 4;
  duration_secs = pos 600;
  dispute_secs = pos 30;
  grace_ms = pos 200;
  pause_timeout_ms = pos 5000;
  channel_open_url = codes "/v1";
  stream_url = codes "/v1";
  tokenizer_id = codes "t";
  input_token_count = pos 1;
  prepaid_input_micro = pos 5;
  model = null;
}

abbrev tokenizers : Registry
tokenizers = (codes "t", λ _. 1) ∷ []

abbrev quoted : Result HttpResponse
quoted = ok (record {
  status_code = 402;
  requirements = some (encode_requirements wire offered);
  payment_response = none;
})

abbrev post : Text → Result HttpResponse
post header = ok (record {
  status_code = 200;
  requirements = none;
  payment_response = some (
      encode_response wire (record {
        tx_hash = codes "pending";
        settlement = codes "confirmed";
        channel_id = bytes_of channel;
        channel_state = codes "active";
      }));
})

abbrev pub opening : Opening Party
opening = record {
  wallet = consumer;
  policy = default_policy;
  usdc_mint = session;
  deposit_micro = pos 1000;
  evaluator = none;
  k_max = pos 16;
  on_commit = false;
}

abbrev pub prompt : Fields
prompt = fields ((codes "prompt", str (codes "hi")) ∷ [])

abbrev pub compile : Party → List (Instruction Party) → Result ℕ
compile payer instructions = ok 1

abbrev pub sign : ℕ → Text
sign message = message ∷ []

abbrev pub dumps : Value → Text
dumps v = []

abbrev pub opened_session : ConsumerSession Party Party
opened_session = record {
  channel_id = bytes_of channel;
  session_key = session;
  timing = record {
    grace_ms = pos 200;
    pause_timeout_ms = pos 5000;
    total_session_ms = pos 600_000;
  };
  evaluator = none;
  input_price_micro = pos 5;
  output_price_micro = pos 10;
  prepaid_input_micro = pos 5;
  deposit_micro = pos 1000;
  unpaid_cap_micro = pos 100;
  on_commit = false;
  batcher = record { k_max = 16; k = 1 };
  state = record {
    sequence = 0;
    tokens_received = 0;
    cumulative_paid = pos 5;
    accumulated = [];
    halted_by = none;
    last_emitted_sequence = 0;
    tokens_since_last_commit = 0;
  };
  detector =
      halt_detector
        (record { grace_ms = pos 200; pause_timeout_ms = pos 5000; total_session_ms = pos 600_000 })
        (pos 7);
  yielded = [];
  posted = [];
  notified = [];
}

session_opens :
    open_session signer chain wire compile sign post dumps tokenizers opening quoted prompt session
      (pos 9)
      (pos 7)
    ≡ ok opened_session
unfolding open_session encode_requirements tap.X402.Requirements.decode_requirements
    tap.X402.Requirements.requirements_from tap.Json.get tap.Base.Text.text_eq tap.Json.item
    tap.Json.truthy tap.Json.to_int tap.Consumer.Policy.audit ◌*ℤ◌
    tap.Consumer.Policy.verify_prompt_tokens tap.Tokenizer.is_registered tap.Tokenizer.count
    tap.Timing.timing_parameters tap.Chain.Pda.derive_channel_pda tap.Base.Bytes.to_bytes
    tap.Chain.Program.open_channel_ix tap.Consumer.Session.consumer_session
    tap.Consumer.Batching.adaptive_batcher encode_response tap.X402.Response.decode_response
    tap.X402.Response.response_from tap.X402.Response.to_payload
session_opens = refl

open_session_sound_example :
    (resp : HttpResponse) × (req : PaymentRequirements) × (quoted ≡ ok resp)
    × (parse_402 wire resp ≡ ok req)
    × Allows default_policy req
    × (req.prepaid_input_micro ≤ℤ pos 1000)
    × Starts
        (pos 1000)
        req.input_price_micro
        req.output_price_micro
        req.prepaid_input_micro
        opened_session
open_session_sound_example =
    open_session_sound signer chain wire compile sign post dumps tokenizers opening quoted prompt
      session (pos 9) (pos 7) session_opens
