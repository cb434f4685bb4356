-- ===== src/Tests/ConsumerRuns.antt =====
-- The consumer's session, its policy and its batches, and both ends together, on concrete values.
use tap.Base.{ℕ, ◌*◌, ◌≡◌, ◌↔◌, ◌⊎◌, refl, Bool, false, none, List, [], ◌∷◌, arith, min}
use tap.Base.Int.{pos, ◌+ℤ◌, ◌*ℤ◌}
use tap.Base.Text.{Text, codes, text_eq}
use tap.Base.Bytes.{to_bytes, le_bytes}
use tap.Base.Exceptions.{ok}
use tap.Base.Action
use tap.Json.{str, null}
use tap.Timing.{default_timing}
use tap.Tokenizer.{Registry, count, tap_v1, is_registered}
use tap.X402.Requirements.{PaymentRequirements, scheme_name}
use tap.Protocol.Codec.{encode_commitment_bytes}
use tap.Protocol.Signing.{sign_commitment}
use tap.Producer.Channel.{ActiveChannel}
use tap.Consumer.Batching.{AdaptiveBatcher, IsBatcher, update, update-IsBatcher}
use tap.Consumer.Policy.{default_policy, audit, verify_prompt_tokens}
use tap.Consumer.Policy.Sound.{Allows, audit_iff, no_input_inflation}
use tap.Consumer.Halt.{halt_detector}
use tap.Consumer.Session.{
  ConsumerSession, Arrival, send_commit, post_commit, after_post, commit_message, next_sequence,
  note_posted,
}
use tap.Consumer.Session.Stream.{stream, after_token}
use tap.Consumer.Session.Metering.{IsMetered, metered, stream_metered}
use tap.Consumer.Session.BatchSize.{after_token-batcher}
use tap.Agreement.{deliver}
use tap.Agreement.Peer.{IsPeer, IsWithin}
use tap.Agreement.Deliver.{session_posts_accepted}
use tap.Tests.Parties.{Party, channel, session, parties, signer, bytes_of}
use tap.Tests.ProducerRuns.{opened}

abbrev pub batches : AdaptiveBatcher
batches = record { k_max = 8; k = 2 }

batches-IsBatcher : IsBatcher batches
batches-IsBatcher = record { at_least_one = omega arith; within = omega arith }

update-IsBatcher_example : IsBatcher (update (pos 90) (pos 100) batches)
update-IsBatcher_example = update-IsBatcher (pos 90) (pos 100) batches batches-IsBatcher

abbrev pub fresh : ConsumerSession Party Party
fresh = record {
  channel_id = bytes_of channel;
  session_key = session;
  timing = default_timing;
  evaluator = none;
  input_price_micro = pos 5;
  output_price_micro = pos 10;
  prepaid_input_micro = pos 15;
  deposit_micro = pos 1000;
  unpaid_cap_micro = pos 100;
  on_commit = false;
  batcher = batches;
  state = record {
    sequence = 0;
    tokens_received = 0;
    cumulative_paid = pos 15;
    accumulated = [];
    halted_by = none;
    last_emitted_sequence = 0;
    tokens_since_last_commit = 0;
  };
  detector = halt_detector default_timing (pos 0);
  yielded = [];
  posted = [];
  notified = [];
}

abbrev pub arrival : Text → ℕ → Arrival
arrival t n = record {
  event = ok (record { text = t; ack_sequence = none; finished = false });
  noted_at = pos n;
  evaluated_at = pos n;
  wall_ms = pos n;
  post = ok tt;
  callback = ok tt;
}

-- Two tokens, which make one batch, and a third.
abbrev pub tokens : List Arrival
tokens = arrival (codes "a") 1 ∷ arrival (codes "b") 2 ∷ arrival (codes "c") 3 ∷ []

pub fresh-IsMetered : IsMetered fresh
unfolding metered ◌*ℤ◌ ◌+ℤ◌
fresh-IsMetered = record { price_nonneg = omega arith; exact = refl }

stream_metered_example :
    (stream signer (ok tt) tokens fresh).1.state.cumulative_paid
    ≡ metered (stream signer (ok tt) tokens fresh).1
stream_metered_example = stream_metered signer (ok tt) tokens fresh fresh-IsMetered

abbrev begun : ConsumerSession Party Party
begun = record fresh { state = record fresh.state { tokens_since_last_commit = 2 } }

token_handled : (after_token signer channel (arrival [] 4) begun).0 ≡ ok none
unfolding tap.Consumer.Batching.should_commit after_token send_commit post_commit after_post
    sign_commitment encode_commitment_bytes to_bytes le_bytes Action.◌>>=◌ Action.◌>>◌
    commit_message next_sequence note_posted tap.Consumer.Session.Stream.run_detector
    tap.Consumer.Halt.evaluate halt_detector tap.Base.Int.◌-ℤ◌
token_handled = refl

after_token-batcher_example :
    (after_token signer channel (arrival [] 4) begun).1.batcher
    ≡ record begun.batcher { k = min begun.batcher.k_max (begun.batcher.k * 2) }
unfolding tap.Consumer.Batching.should_commit
after_token-batcher_example =
    after_token-batcher signer channel (arrival [] 4) begun batches-IsBatcher (omega arith) refl
      token_handled

fresh-IsWithin : IsWithin signer fresh
fresh-IsWithin = record { price_nonneg = omega arith; floor = omega arith; ceiling = omega arith }

opened-IsPeer : IsPeer signer channel opened fresh
opened-IsPeer = record {
  same_channel = refl;
  same_prepaid = refl;
  same_deposit = refl;
  same_key = refl;
  behind = tt;
}

session_posts_accepted_example :
    (c : ActiveChannel Party) × (deliver signer
        (pos 9)
        opened
        (stream signer (ok tt) tokens fresh).1.posted
      ≡ ok c)
session_posts_accepted_example =
    session_posts_accepted signer (pos 9) channel opened fresh (ok tt) tokens refl refl
      fresh-IsWithin opened-IsPeer

abbrev offered : PaymentRequirements
offered = record {
  scheme = str scheme_name;
  network = str (codes "solana-devnet");
  asset = str (codes "usdc");
  recipient = str (codes "producer");
  producer_pubkey = str (codes "key");
  input_price_micro = pos 5;
  output_price_micro = pos 10;
  max_unpaid_micro = pos 100;
  trailing_buffer_tokens = pos 4;
  duration_secs = pos 600;
  dispute_secs = pos 60;
  grace_ms = pos 500;
  pause_timeout_ms = pos 2000;
  channel_open_url = codes "/v1";
  stream_url = codes "/v1";
  tokenizer_id = codes "tap-v1";
  input_token_count = pos 2;
  prepaid_input_micro = pos 10;
  model = null;
}

audit_iff_example : (audit default_policy offered ≡ ok tt) ↔ Allows default_policy offered
audit_iff_example = audit_iff default_policy offered

-- Words are the lower-case letters here.
abbrev is_word : ℕ → Bool
is_word c = text_eq (c ∷ []) (codes "h")

abbrev registry : Registry
registry = (codes "tap-v1", tap_v1 is_word) ∷ []

quote_audited : audit default_policy offered ≡ ok tt
unfolding audit text_eq ◌*ℤ◌
quote_audited = refl

quote_verified : verify_prompt_tokens default_policy registry offered (codes "h!") ≡ ok tt
unfolding verify_prompt_tokens is_registered text_eq count tap_v1
quote_verified = refl

no_input_inflation_example :
    (offered.prepaid_input_micro ≡ pos 0)
    ⊎ ((n : ℕ) × (count registry offered.tokenizer_id (codes "h!") ≡ ok n)
        × (offered.prepaid_input_micro ≡ pos n *ℤ offered.input_price_micro))
no_input_inflation_example =
    no_input_inflation default_policy registry offered (codes "h!") refl quote_audited
      quote_verified
