-- ===== src/Consumer/Session/Metering.antt =====
-- What a session has authorized, as a function of the tokens that it took.
use tap.Base.{◌≡◌, Bool, List, arith}
use native.Mathlib.Numerals.{add-one}
use tap.Base.Int.{ℤ, pos, ◌+ℤ◌, ◌*ℤ◌, ◌≤ℤ◌, min_ℤ, *ℤ-suc, +ℤ_parts, eq_of_parts}
use tap.Base.Text.{Text}
use tap.Base.Exceptions.{Result}
use tap.Base.Action.Keeps.{Keeps, keeps_rules}
use tap.External.{Keys, Ed25519}
use tap.Protocol.Commit.{CommitMessage, SignedCommitment}
use tap.Consumer.Session.{
  ConsumerSession, Arrival, StreamEvent, absorb_token, yield_chunk, next_sequence, note_posted,
  notify, after_post, post_commit, send_commit,
}
use tap.Consumer.Session.Stream.{
  note_arrival, run_detector, set_halted_by, update_batcher, after_token, stop_by_evaluator,
  on_token, on_event, stream,
}
use tap.Consumer.Session.Induction.{stream-Keeps}

-- One more price under the deposit's cap.
min_step : (d b x p : ℤ) → pos 0 ≤ℤ p → min_ℤ d (min_ℤ d (b +ℤ x) +ℤ p) ≡ min_ℤ d (b +ℤ (x +ℤ p))
min_step d b x p h = ground (
  arith,
  +ℤ_parts b x,
  +ℤ_parts (b +ℤ x) p,
  +ℤ_parts d p,
  +ℤ_parts x p,
  +ℤ_parts b (x +ℤ p),
  eq_of_parts (b +ℤ x +ℤ p) (b +ℤ (x +ℤ p)),
  eq_of_parts (d +ℤ p) d,
  eq_of_parts (b +ℤ (x +ℤ p)) d,
  eq_of_parts (d +ℤ p) (b +ℤ (x +ℤ p)),
)

module _ {K SK : Type 0} where
  -- The prepaid input and one price for each token, up to the deposit.
  abbrev pub metered : ConsumerSession K SK → ℤ
  metered s =
      min_ℤ s.deposit_micro
        (s.prepaid_input_micro +ℤ pos s.state.tokens_received *ℤ s.output_price_micro)

  pub record IsMetered (s : ConsumerSession K SK) : Type 0 where
    pub price_nonneg : pos 0 ≤ℤ s.output_price_micro
    pub exact : s.state.cumulative_paid ≡ metered s

  absorb_token-IsMetered :
      (text : Text) (s : ConsumerSession K SK) → IsMetered s → IsMetered (absorb_token text s)
  unfolding absorb_token
  absorb_token-IsMetered text s h = record {
    price_nonneg = h.price_nonneg;
    exact =
        rw (add-one, *ℤ-suc, h.exact)
          (min_step s.deposit_micro s.prepaid_input_micro
            (pos s.state.tokens_received *ℤ s.output_price_micro) s.output_price_micro
            h.price_nonneg);
  }

  yield_chunk-IsMetered :
      (text : Text) (s : ConsumerSession K SK) → IsMetered s → IsMetered (yield_chunk text s)
  unfolding yield_chunk
  yield_chunk-IsMetered text s h = record { price_nonneg = h.price_nonneg; exact = h.exact }

  note_arrival-IsMetered :
      (at : ℤ) (s : ConsumerSession K SK) → IsMetered s → IsMetered (note_arrival at s)
  unfolding note_arrival
  note_arrival-IsMetered at s h = record { price_nonneg = h.price_nonneg; exact = h.exact }

  run_detector-IsMetered :
      (at : ℤ) (s : ConsumerSession K SK) → IsMetered s → IsMetered (run_detector at s)
  unfolding run_detector
  run_detector-IsMetered at s h = record { price_nonneg = h.price_nonneg; exact = h.exact }

  set_halted_by-IsMetered : (s : ConsumerSession K SK) → IsMetered s → IsMetered (set_halted_by s)
  unfolding set_halted_by
  set_halted_by-IsMetered s h = record { price_nonneg = h.price_nonneg; exact = h.exact }

  update_batcher-IsMetered : (s : ConsumerSession K SK) → IsMetered s → IsMetered (update_batcher s)
  unfolding update_batcher
  update_batcher-IsMetered s h = record { price_nonneg = h.price_nonneg; exact = h.exact }

  next_sequence-IsMetered : (s : ConsumerSession K SK) → IsMetered s → IsMetered (next_sequence s)
  unfolding next_sequence
  next_sequence-IsMetered s h = record { price_nonneg = h.price_nonneg; exact = h.exact }

  note_posted-IsMetered :
      (signed : SignedCommitment K) (s : ConsumerSession K SK)
      → IsMetered s
      → IsMetered (note_posted signed s)
  unfolding note_posted
  note_posted-IsMetered signed s h = record { price_nonneg = h.price_nonneg; exact = h.exact }

  notify-IsMetered :
      (m : CommitMessage K) (s : ConsumerSession K SK) → IsMetered s → IsMetered (notify m s)
  unfolding notify
  notify-IsMetered m s h = record { price_nonneg = h.price_nonneg; exact = h.exact }

  ruleset metered_rules = (
    keeps_rules, absorb_token-IsMetered, yield_chunk-IsMetered, note_arrival-IsMetered,
    run_detector-IsMetered, set_halted_by-IsMetered, update_batcher-IsMetered,
    next_sequence-IsMetered, note_posted-IsMetered, notify-IsMetered,
  )

  after_post-IsMetered :
      (a : Arrival) (signed : SignedCommitment K) → Keeps IsMetered (after_post {SK = SK} a signed)
  unfolding after_post
  after_post-IsMetered a signed = search metered_rules depth 9

module _ {K SK : Type 0} ⦃keys : Keys K⦄ (ed : Ed25519 SK) where
  send_commit-IsMetered :
      (channel_pk : K) (force : Bool) (a : Arrival)
      → Keeps IsMetered (send_commit ed force channel_pk a)
  unfolding send_commit post_commit
  send_commit-IsMetered channel_pk force a = search (metered_rules, after_post-IsMetered) depth 16

  after_token-IsMetered :
      (channel_pk : K) (a : Arrival) → Keeps IsMetered (after_token ed channel_pk a)
  unfolding after_token
  after_token-IsMetered channel_pk a = search (metered_rules, send_commit-IsMetered) depth 12

  on_event-IsMetered :
      (channel_pk : K) (a : Arrival) (event : StreamEvent)
      → Keeps IsMetered (on_event ed channel_pk a event)
  unfolding on_event on_token stop_by_evaluator
  on_event-IsMetered channel_pk a event =
      search (metered_rules, send_commit-IsMetered, after_token-IsMetered) depth 12

  pub stream-IsMetered :
      (response : Result (Unit {0})) (arrivals : List Arrival) (s : ConsumerSession K SK)
      → IsMetered s
      → IsMetered (stream ed response arrivals s).1
  stream-IsMetered response arrivals s h =
      (stream-Keeps ed on_event-IsMetered response arrivals).at s h

  -- However a stream goes, what the session has authorized is the prepaid input plus one output
  -- price for each token that it took, capped by the deposit, if it was so before and the price is
  -- not negative.
  pub stream_metered :
      (response : Result (Unit {0})) (arrivals : List Arrival) (s : ConsumerSession K SK)
      → IsMetered s
      → (stream ed response arrivals s).1.state.cumulative_paid
        ≡ metered (stream ed response arrivals s).1
  stream_metered response arrivals s h = (stream-IsMetered response arrivals s h).exact
