-- ===== src/Consumer/Session/Stream.antt =====
-- `ConsumerSession.stream` of sdk/python/tap/consumer/session.py: the loop over the events of the
-- response. When the events run out without a last one, the generator returns there, with no
-- commitment; one that waits for its next event stands in the same state.
use tap.Base.{Bool, true, false, Option, none, some, List, [], ◌∷◌, if◌then◌else◌}
use tap.Base.Int.{ℤ}
use tap.Base.Text.{Text}
use tap.Base.Exceptions.{Result, halt_error, value_error, or_raise}
use tap.Base.Action.{Action, pure, raise, lift, gets, modify, when, ◌>>=◌, ◌>>◌}
use tap.External.{Keys, Ed25519}
use tap.Consumer.Batching.{should_commit, update}
use tap.Consumer.Halt.{note_token, evaluate}
use tap.Consumer.Session.{
  StreamEvent, ConsumerSession, Arrival, StreamEnd, exhausted, returned, absorb_token, unpaid_value,
  yield_chunk, send_commit, halted_by_evaluator, evaluator_name, is_halted,
}

module _ {K SK : Type 0} where
  unfoldable pub note_arrival : ℤ → ConsumerSession K SK → ConsumerSession K SK
  note_arrival now s = record s { detector = note_token now s.detector }

  unfoldable pub run_detector : ℤ → ConsumerSession K SK → ConsumerSession K SK
  run_detector now s = record s { detector = evaluate now s.detector }

  unfoldable pub set_halted_by : ConsumerSession K SK → ConsumerSession K SK
  set_halted_by s = record s { state = record s.state { halted_by = some (evaluator_name s) } }

  unfoldable pub update_batcher : ConsumerSession K SK → ConsumerSession K SK
  update_batcher s = record s { batcher = update (unpaid_value s) s.unpaid_cap_micro s.batcher }

  abbrev pub commit_due : ConsumerSession K SK → Bool
  commit_due s = should_commit s.batcher s.state.tokens_since_last_commit

module _ {K SK : Type 0} ⦃keys : Keys K⦄ (ed : Ed25519 SK) where
  open keys use {from_string}

  -- Below the evaluator's check: the detector, and the commitment that may be due.
  unfoldable pub after_token : K → Arrival → Action (ConsumerSession K SK) (Option StreamEnd)
  after_token channel_pk a = do
    modify (run_detector a.evaluated_at)
    state ← gets (λ s. s.detector.state)
    when (is_halted state) (raise (halt_error "producer stopped sending tokens past pause window"))
    due ← gets commit_due
    when due (send_commit ed false channel_pk a >> modify update_batcher)
    pure none

  unfoldable pub stop_by_evaluator : K → Arrival → Action (ConsumerSession K SK) (Option StreamEnd)
  stop_by_evaluator channel_pk a = do
    modify set_halted_by
    send_commit ed true channel_pk a
    pure (some returned)

  unfoldable pub on_token : K → Arrival → Text → Action (ConsumerSession K SK) (Option StreamEnd)
  on_token channel_pk a text = do
    modify (absorb_token text)
    modify (note_arrival a.noted_at)
    modify (yield_chunk text)
    stop ← gets halted_by_evaluator
    if stop then stop_by_evaluator channel_pk a else after_token channel_pk a

  -- `some` at a `return` statement.
  unfoldable pub on_event :
      K → Arrival → StreamEvent → Action (ConsumerSession K SK) (Option StreamEnd)
  on_event channel_pk a event =
      if event.finished
      then (send_commit ed true channel_pk a >> pure (some returned))
      else on_token channel_pk a event.text

  unfoldable pub stream_loop : K → List Arrival → Action (ConsumerSession K SK) StreamEnd
  stream_loop channel_pk [] = pure exhausted
  stream_loop channel_pk (a ∷ arrivals) = do
    event ← lift a.event
    end ← on_event channel_pk a event
    elim end [ some e ↦ pure e | none ↦ stream_loop channel_pk arrivals ]

  -- `response` is how the POST that opens the stream ended.
  unfoldable pub stream : Result (Unit {0}) → List Arrival → Action (ConsumerSession K SK) StreamEnd
  unfolding stream_loop on_event on_token after_token stop_by_evaluator
  stream response arrivals = do
    session ← gets (λ s. s.channel_id)
    channel_pk ← lift (or_raise (from_string session) value_error)
    lift response
    stream_loop channel_pk arrivals
