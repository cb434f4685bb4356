-- ===== src/Consumer/Session/Posted.antt =====
-- No commitment of a session is for more than the session has authorized.
use tap.Base.{◌≡◌, refl, Bool, List, [], ◌∷◌, All, arith}
use tap.Base.Int.{ℤ, pos, ◌+ℤ◌, ◌≤ℤ◌, min_ℤ, +ℤ_parts}
use tap.Base.Text.{Text}
use tap.Base.Exceptions.{Result, ok, err}
use tap.Base.Action.{lift, modify, when, ◌>>=◌, ◌>>◌}
use tap.Base.Action.Keeps.{Keeps, keeps_rules}
use tap.External.{Keys, Ed25519}
use tap.Protocol.Commit.{CommitMessage, SignedCommitment}
use tap.Protocol.Signing.{sign_commitment}
use tap.Consumer.Session.{
  ConsumerSession, Arrival, StreamEvent, absorb_token, yield_chunk, next_sequence, note_posted,
  notify, commit_message, after_post, post_commit, send_commit,
}
use tap.Consumer.Session.Stream.{
  note_arrival, run_detector, set_halted_by, update_batcher, after_token, stop_by_evaluator,
  on_token, on_event, stream,
}
use tap.Consumer.Session.Induction.{stream-Keeps}

module _ {K : Type 0} where
  abbrev pub AllBelow : ℤ → List (SignedCommitment K) → Type 0
  AllBelow top = All (λ signed. signed.message.cumulative_paid ≤ℤ top)

  AllBelow-raise :
      (low high : ℤ) (posted : List (SignedCommitment K))
      → low ≤ℤ high
      → AllBelow low posted
      → AllBelow high posted
  AllBelow-raise low high [] h b = tt
  AllBelow-raise low high (signed ∷ older) h (here, b) =
      (omega (arith, h, here), AllBelow-raise low high older h b)

module _ {K SK : Type 0} where
  pub record IsBelow (s : ConsumerSession K SK) : Type 0 where
    pub price_nonneg : pos 0 ≤ℤ s.output_price_micro
    pub capped : s.state.cumulative_paid ≤ℤ s.deposit_micro
    pub below : AllBelow s.state.cumulative_paid s.posted

  -- What keeps the fields that it is about.
  same-IsBelow :
      (s s' : ConsumerSession K SK)
      → s'.output_price_micro ≡ s.output_price_micro
      → s'.deposit_micro ≡ s.deposit_micro
      → s'.state.cumulative_paid ≡ s.state.cumulative_paid
      → s'.posted ≡ s.posted
      → IsBelow s
      → IsBelow s'
  same-IsBelow s s' e1 e2 e3 e4 h = record {
    price_nonneg = rw e1 h.price_nonneg;
    capped = rw (e2, e3) h.capped;
    below = rw (e3, e4) h.below;
  }

  absorb_token-IsBelow :
      (text : Text) (s : ConsumerSession K SK) → IsBelow s → IsBelow (absorb_token text s)
  unfolding absorb_token
  absorb_token-IsBelow text s h =
      let grown = s.state.cumulative_paid +ℤ s.output_price_micro in
      let more : s.state.cumulative_paid ≤ℤ min_ℤ s.deposit_micro grown =
        ground (
          arith,
          h.capped,
          h.price_nonneg,
          +ℤ_parts s.state.cumulative_paid s.output_price_micro,
        ) in
      record {
        price_nonneg = h.price_nonneg;
        capped = ground arith;
        below =
            AllBelow-raise s.state.cumulative_paid (min_ℤ s.deposit_micro grown) s.posted more
              h.below;
      }

  yield_chunk-IsBelow :
      (text : Text) (s : ConsumerSession K SK) → IsBelow s → IsBelow (yield_chunk text s)
  unfolding yield_chunk
  yield_chunk-IsBelow text s = same-IsBelow s _ refl refl refl refl

  note_arrival-IsBelow :
      (at : ℤ) (s : ConsumerSession K SK) → IsBelow s → IsBelow (note_arrival at s)
  unfolding note_arrival
  note_arrival-IsBelow at s = same-IsBelow s _ refl refl refl refl

  run_detector-IsBelow :
      (at : ℤ) (s : ConsumerSession K SK) → IsBelow s → IsBelow (run_detector at s)
  unfolding run_detector
  run_detector-IsBelow at s = same-IsBelow s _ refl refl refl refl

  set_halted_by-IsBelow : (s : ConsumerSession K SK) → IsBelow s → IsBelow (set_halted_by s)
  unfolding set_halted_by
  set_halted_by-IsBelow s = same-IsBelow s _ refl refl refl refl

  update_batcher-IsBelow : (s : ConsumerSession K SK) → IsBelow s → IsBelow (update_batcher s)
  unfolding update_batcher
  update_batcher-IsBelow s = same-IsBelow s _ refl refl refl refl

  next_sequence-IsBelow : (s : ConsumerSession K SK) → IsBelow s → IsBelow (next_sequence s)
  unfolding next_sequence
  next_sequence-IsBelow s = same-IsBelow s _ refl refl refl refl

  notify-IsBelow :
      (m : CommitMessage K) (s : ConsumerSession K SK) → IsBelow s → IsBelow (notify m s)
  unfolding notify
  notify-IsBelow m s = same-IsBelow s _ refl refl refl refl

  -- The commitment is for what is authorized at its posting.
  note_posted-IsBelow :
      (signed : SignedCommitment K) (s : ConsumerSession K SK)
      → signed.message.cumulative_paid ≡ s.state.cumulative_paid
      → IsBelow s
      → IsBelow (note_posted signed s)
  unfolding note_posted
  note_posted-IsBelow signed s e h = record {
    price_nonneg = h.price_nonneg;
    capped = h.capped;
    below = (ground (arith, e), h.below);
  }

  ruleset below_rules = (
    keeps_rules, absorb_token-IsBelow, yield_chunk-IsBelow, note_arrival-IsBelow,
    run_detector-IsBelow, set_halted_by-IsBelow, update_batcher-IsBelow, next_sequence-IsBelow,
    notify-IsBelow,
  )

module _ {K SK : Type 0} ⦃keys : Keys K⦄ (ed : Ed25519 SK) where
  callback-IsBelow :
      (a : Arrival) (m : CommitMessage K) (b : Bool)
      → Keeps IsBelow (when {S = ConsumerSession K SK} b (modify (notify m) >> lift a.callback))
  callback-IsBelow a m b = search below_rules

  posted_or_not :
      (a : Arrival) (s : ConsumerSession K SK) (signed : SignedCommitment K)
      (post : Result (Unit {0}))
      → signed.message.cumulative_paid ≡ s.state.cumulative_paid
      → IsBelow s
      → IsBelow ((lift post >> after_post a signed) s).1
  unfolding ◌>>◌ after_post
  posted_or_not a s signed (err x) e h = h
  posted_or_not a s signed (ok _) e h =
      (callback-IsBelow a signed.message (note_posted signed s).on_commit).at _
        (note_posted-IsBelow signed s e h)

  signed_or_not :
      (channel_pk : K) (a : Arrival) (s : ConsumerSession K SK) (r : Result (SignedCommitment K))
      → sign_commitment ed (commit_message channel_pk a.wall_ms s) s.session_key ≡ r
      → IsBelow s
      → IsBelow ((lift r >>= λ signed. lift a.post >> after_post a signed) s).1
  unfolding ◌>>=◌ sign_commitment commit_message
  signed_or_not channel_pk a s (err x) e h = h
  signed_or_not channel_pk a s (ok signed) e h = posted_or_not a s signed a.post (ground arith) h

  post_commit-IsBelow :
      (channel_pk : K) (a : Arrival) → Keeps IsBelow (post_commit {SK = SK} ed channel_pk a)
  unfolding post_commit ◌>>=◌ ◌>>◌
  post_commit-IsBelow channel_pk a = record {
    at = λ s h. signed_or_not channel_pk a (next_sequence s) _ refl (next_sequence-IsBelow s h);
  }

  send_commit-IsBelow :
      (channel_pk : K) (force : Bool) (a : Arrival)
      → Keeps IsBelow (send_commit ed force channel_pk a)
  unfolding send_commit
  send_commit-IsBelow channel_pk force a = search (keeps_rules, post_commit-IsBelow)

  after_token-IsBelow : (channel_pk : K) (a : Arrival) → Keeps IsBelow (after_token ed channel_pk a)
  unfolding after_token
  after_token-IsBelow channel_pk a = search (below_rules, send_commit-IsBelow) depth 12

  on_event-IsBelow :
      (channel_pk : K) (a : Arrival) (event : StreamEvent)
      → Keeps IsBelow (on_event ed channel_pk a event)
  unfolding on_event on_token stop_by_evaluator
  on_event-IsBelow channel_pk a event =
      search (below_rules, send_commit-IsBelow, after_token-IsBelow) depth 12

  -- What a session has posted is never for more than it has authorized.
  pub stream-IsBelow :
      (response : Result (Unit {0})) (arrivals : List Arrival) (s : ConsumerSession K SK)
      → IsBelow s
      → IsBelow (stream ed response arrivals s).1
  stream-IsBelow response arrivals s h = (stream-Keeps ed on_event-IsBelow response arrivals).at s h
