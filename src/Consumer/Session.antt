-- ===== src/Consumer/Session.antt =====
-- sdk/python/tap/consumer/session.py. A session is the object with its fields, and three logs of
-- what it did: the chunks that it yielded, the commitments that it posted and the events that it
-- handed to `on_commit`, each newest first. What comes from outside between two tokens is an
-- `Arrival`: the event or the exception of `iter_sse`, the clocks, and how the POST and the
-- callback of a commitment ended.
pub mod Stream
pub mod Induction
pub mod Metering
pub mod BatchSize
pub mod Covered
pub mod Posted
use tap.Base.{
  ℕ, ◌+◌, ◌*◌, Bool, true, false, not, ◌&&◌, Option, none, some, List, [], ◌∷◌, ◌++◌, ◌==◌,
}
use mathlib.Core.Option.{get_or}
use tap.Base.Int.{ℤ, pos, ◌+ℤ◌, ◌*ℤ◌, min_ℤ}
use tap.Base.Text.{Text, codes}
use tap.Base.Exceptions.{Result, ok, err, halt_error, value_error, or_raise}
use tap.Base.Action.{Action, pure, raise, lift, gets, modify, when, ◌>>=◌, ◌>>◌}
use tap.External.{Keys, Ed25519}
use tap.Timing.{TimingParameters}
use tap.Protocol.Commit.{CommitMessage, SignedCommitment}
use tap.Protocol.Signing.{sign_commitment}
use tap.Evaluators.Decision.{Evaluator, is_halt}
use tap.Consumer.Batching.{AdaptiveBatcher, adaptive_batcher, should_commit, update}
use tap.Consumer.Halt
use tap.Consumer.Halt.{HaltDetector, StreamState, halt_detector, evaluate}

-- `StreamEvent` of consumer/stream.py
pub record StreamEvent : Type 0 where
  pub text : Text
  pub ack_sequence : Option ℤ
  pub finished : Bool

pub record TokenChunk : Type 0 where
  pub text : Text
  pub cumulative_paid_micro : ℤ
  pub tokens_received : ℕ

pub record CommitSigned : Type 0 where
  pub sequence : ℤ
  pub cumulative_paid_micro : ℤ
  pub tokens_received : ℤ
  pub timestamp_ms : ℤ

pub record SessionState : Type 0 where
  pub sequence : ℕ
  pub tokens_received : ℕ
  pub cumulative_paid : ℤ
  pub accumulated : Text
  pub halted_by : Option Text
  pub last_emitted_sequence : ℕ
  pub tokens_since_last_commit : ℕ

pub record ConsumerSession (K SK : Type 0) : Type 0 where
  pub channel_id : Text
  pub session_key : SK
  pub timing : TimingParameters
  pub evaluator : Option Evaluator
  pub input_price_micro : ℤ
  pub output_price_micro : ℤ
  pub prepaid_input_micro : ℤ
  pub deposit_micro : ℤ
  pub unpaid_cap_micro : ℤ
  -- whether a callback was given
  pub on_commit : Bool
  pub batcher : AdaptiveBatcher
  pub state : SessionState
  pub detector : HaltDetector
  pub yielded : List TokenChunk
  pub posted : List (SignedCommitment K)
  pub notified : List CommitSigned

pub record Arrival : Type 0 where
  pub event : Result StreamEvent
  -- the clock in `note_token`, and in `evaluate` after the consumer took the chunk
  pub noted_at : ℤ
  pub evaluated_at : ℤ
  -- `int(time.time() * 1_000)`, the POST of a commitment, and the callback
  pub wall_ms : ℤ
  pub post : Result (Unit {0})
  pub callback : Result (Unit {0})

-- Where the generator got to: to the end of the events, or to a `return` statement.
pub data StreamEnd : Type 0 where
  exhausted returned : StreamEnd

module _ {K SK : Type 0} where
  -- `ConsumerSession(...)`, at `now`.
  unfoldable pub consumer_session :
      Text
      → SK
      → TimingParameters
      → Option Evaluator
      → ℤ
      → ℤ
      → ℤ
      → ℤ
      → ℤ
      → ℤ
      → Bool
      → ℤ
      → Result (ConsumerSession K SK)
  consumer_session channel_id session_key timing evaluator input_price_micro output_price_micro
        prepaid_input_micro deposit_micro unpaid_cap_micro k_max on_commit now =
      elim (adaptive_batcher k_max (pos 1)) [
        | err e ↦ err e
        | ok batcher ↦ ok (record {
          channel_id = channel_id;
          session_key = session_key;
          timing = timing;
          evaluator = evaluator;
          input_price_micro = input_price_micro;
          output_price_micro = output_price_micro;
          prepaid_input_micro = prepaid_input_micro;
          deposit_micro = deposit_micro;
          unpaid_cap_micro = unpaid_cap_micro;
          on_commit = on_commit;
          batcher = batcher;
          state = record {
            sequence = 0;
            tokens_received = 0;
            cumulative_paid = prepaid_input_micro;
            accumulated = [];
            halted_by = none;
            last_emitted_sequence = 0;
            tokens_since_last_commit = 0;
          };
          detector = halt_detector timing now;
          yielded = [];
          posted = [];
          notified = [];
        })
      ]

  unfoldable pub absorb_token : Text → ConsumerSession K SK → ConsumerSession K SK
  absorb_token text s = record s {
    state = record s.state {
      tokens_received = s.state.tokens_received + 1;
      tokens_since_last_commit = s.state.tokens_since_last_commit + 1;
      cumulative_paid = min_ℤ s.deposit_micro (s.state.cumulative_paid +ℤ s.output_price_micro);
      accumulated = s.state.accumulated ++ text;
    };
  }

  unfoldable pub unpaid_value : ConsumerSession K SK → ℤ
  unpaid_value s = pos s.state.tokens_since_last_commit *ℤ s.output_price_micro

  -- `yield TokenChunk(...)`
  unfoldable pub yield_chunk : Text → ConsumerSession K SK → ConsumerSession K SK
  yield_chunk text s = record s {
    yielded =
        record {
          text = text;
          cumulative_paid_micro = s.state.cumulative_paid;
          tokens_received = s.state.tokens_received;
        }
        ∷ s.yielded;
  }

  unfoldable pub next_sequence : ConsumerSession K SK → ConsumerSession K SK
  next_sequence s = record s { state = record s.state { sequence = s.state.sequence + 1 } }

  unfoldable pub commit_message : K → ℤ → ConsumerSession K SK → CommitMessage K
  commit_message channel_pk wall_ms s = record {
    channel = channel_pk;
    sequence = pos s.state.sequence;
    cumulative_paid = s.state.cumulative_paid;
    tokens_received = pos s.state.tokens_received;
    timestamp_ms = wall_ms;
  }

  -- After the POST has returned.
  unfoldable pub note_posted : SignedCommitment K → ConsumerSession K SK → ConsumerSession K SK
  note_posted signed s = record s {
    state = record s.state {
      last_emitted_sequence = s.state.sequence;
      tokens_since_last_commit = 0;
    };
    posted = signed ∷ s.posted;
  }

  unfoldable pub notify : CommitMessage K → ConsumerSession K SK → ConsumerSession K SK
  notify m s = record s {
    notified =
        record {
          sequence = m.sequence;
          cumulative_paid_micro = m.cumulative_paid;
          tokens_received = m.tokens_received;
          timestamp_ms = m.timestamp_ms;
        }
        ∷ s.notified;
  }

  -- `self._evaluator and self._evaluator(accumulated) is Decision.HALT`
  abbrev pub halted_by_evaluator : ConsumerSession K SK → Bool
  halted_by_evaluator s = elim s.evaluator [
    | none ↦ false
    | some e ↦ is_halt (e.run s.state.accumulated)
  ]

  abbrev pub evaluator_name : ConsumerSession K SK → Text
  evaluator_name s = elim s.evaluator [
    | none ↦ codes "evaluator"
    | some e ↦ get_or e.name (codes "evaluator")
  ]

abbrev pub is_halted : StreamState → Bool
is_halted Halt.halted = true
is_halted _ = false

module _ {K SK : Type 0} where
  unfoldable pub after_post :
      Arrival → SignedCommitment K → Action (ConsumerSession K SK) (Unit {0})
  after_post a signed = do
    modify (note_posted signed)
    listening ← gets (λ s. s.on_commit)
    when listening (modify (notify signed.message) >> lift a.callback)

module _ {K SK : Type 0} ⦃keys : Keys K⦄ (ed : Ed25519 SK) where
  open keys use {from_string}

  -- `_send_commit` below its early return: the commitment, the POST, and what follows it.
  unfoldable pub post_commit : K → Arrival → Action (ConsumerSession K SK) (Unit {0})
  post_commit channel_pk a = do
    modify next_sequence
    commitment ← gets (commit_message channel_pk a.wall_ms)
    signing_key ← gets (λ s. s.session_key)
    signed ← lift (sign_commitment ed commitment signing_key)
    lift a.post >> after_post a signed

  unfoldable pub send_commit : Bool → K → Arrival → Action (ConsumerSession K SK) (Unit {0})
  send_commit force channel_pk a = do
    idle ← gets (λ s. not force && s.state.tokens_since_last_commit == 0)
    when (not idle) (post_commit channel_pk a)
