-- ===== src/Tests/ProtocolRuns.antt =====
-- The commitments, the headers and the payment messages, on concrete values.
use tap.Base.{ℕ, ◌≡◌, refl, List, [], ◌∷◌, ◌++◌}
use tap.Base.Int.{pos}
use tap.Base.Text.{codes}
use tap.Base.Bytes.{to_bytes, le_bytes}
use tap.Base.Exceptions.{ok}
use tap.Json.{str, null}
use tap.Protocol.Commit.{CommitMessage, SignedCommitment}
use tap.Protocol.Codec.{encode_commitment_bytes}
use tap.Protocol.Codec.Layout.{encode_commitment_bytes-injective}
use tap.Protocol.Header.{encode_commitment, decode_commitment, decode-encode_commitment}
use tap.X402.Requirements.{
  PaymentRequirements, encode_requirements, decode_requirements, scheme_name,
}
use tap.X402.Requirements.RoundTrip.{decode-encode_requirements}
use tap.X402.Payment.{OpenChannelPayment, encode_payment, decode_payment}
use tap.X402.Payment.RoundTrip.{decode-encode_payment}
use tap.X402.Response.{PaymentResponse, encode_response, decode_response, decode-encode_response}
use tap.Tests.Wire.{wire}
use tap.Tests.Parties.{Party, channel, parties, zeros_31, session, signature_of}

abbrev message : CommitMessage Party
message = record {
  channel = channel;
  sequence = pos 1;
  cumulative_paid = pos 300;
  tokens_received = pos 7;
  timestamp_ms = pos 2;
}

abbrev first_bytes : List ℕ
first_bytes =
    (1 ∷ zeros_31)
    ++ (1 ∷ 0 ∷ 0 ∷ 0 ∷ 0 ∷ 0 ∷ 0 ∷ 0 ∷ 44 ∷ 1 ∷ 0 ∷ 0 ∷ 0 ∷ 0 ∷ 0 ∷ 0 ∷ 7 ∷ 0 ∷ 0 ∷ 0 ∷ 2 ∷ 0 ∷ 0
        ∷ 0 ∷ 0 ∷ 0 ∷ 0 ∷ 0 ∷ [])

message_encodes : encode_commitment_bytes message ≡ ok first_bytes
unfolding encode_commitment_bytes to_bytes le_bytes
message_encodes = refl

encode_commitment_bytes-injective_example : message ≡ message
encode_commitment_bytes-injective_example =
    encode_commitment_bytes-injective message message message_encodes message_encodes

abbrev signed : SignedCommitment Party
signed = record { message = message; signature = signature_of session }

decode-encode_commitment_example :
    decode_commitment wire (encode_commitment wire signed) ≡ ok signed
decode-encode_commitment_example = decode-encode_commitment wire signed refl

abbrev requirements : PaymentRequirements
requirements = record {
  scheme = str scheme_name;
  network = str (codes "solana-devnet");
  asset = str (codes "usdc");
  recipient = str (codes "producer");
  producer_pubkey = str (codes "key");
  input_price_micro = pos 5;
  output_price_micro = pos 10;
  max_unpaid_micro = pos 100;
  trailing_buffer_tokens = pos 4;
  duration_secs = pos 600;
  dispute_secs = pos 60;
  grace_ms = pos 500;
  pause_timeout_ms = pos 2000;
  channel_open_url = codes "/v1/chat/completions";
  stream_url = codes "/v1/chat/completions";
  tokenizer_id = codes "tap-v1";
  input_token_count = pos 3;
  prepaid_input_micro = pos 15;
  model = null;
}

decode-encode_requirements_example :
    decode_requirements wire (encode_requirements wire requirements) ≡ ok requirements
decode-encode_requirements_example = decode-encode_requirements wire requirements refl

abbrev payment : OpenChannelPayment
payment = record {
  scheme = str scheme_name;
  network = str (codes "solana-devnet");
  consumer_pubkey = str (codes "consumer");
  session_key = str (codes "session");
  nonce = pos 9;
  deposit_micro = pos 1000;
  input_price_micro = pos 5;
  output_price_micro = pos 10;
  prepaid_input_micro = pos 15;
  duration_secs = pos 600;
  dispute_secs = pos 60;
  trailing_buffer_tokens = pos 4;
  transaction_b64 = codes "AQID";
}

decode-encode_payment_example : decode_payment wire (encode_payment wire payment) ≡ ok payment
decode-encode_payment_example = decode-encode_payment wire payment

abbrev response : PaymentResponse
response = record {
  tx_hash = codes "hash";
  settlement = codes "pending";
  channel_id = codes "channel";
  channel_state = codes "active";
}

decode-encode_response_example : decode_response wire (encode_response wire response) ≡ ok response
decode-encode_response_example = decode-encode_response wire response
