-- ===== src/Consumer/Session/BatchSize.antt =====
-- The batch size over a session. `stream` updates the batcher just after a commitment was posted,
-- when no token is uncommitted, so the batcher only ever sees nothing unpaid.
use tap.Base.{◌*◌, ◌≡◌, refl, Bool, true, false, not, Option, none, arith, min, ◌==◌, ◌∙◌, ◌&&◌}
use tap.Base.Int.{pos, ◌<ℤ◌, zero-*ℤ}
use tap.Base.Exceptions.{Result, ok, err, halt_error}
use tap.Base.Action.{Action, gets, lift, modify, pure, raise, when, ◌>>=◌, ◌>>◌}
use tap.External.{Keys, Ed25519}
use tap.Protocol.Commit.{SignedCommitment}
use tap.Protocol.Signing.{sign_commitment}
use tap.Consumer.Halt.{evaluate}
use tap.Consumer.Batching.{IsBatcher, update, update_nothing_unpaid}
use tap.Consumer.Session.{
  ConsumerSession, Arrival, StreamEnd, is_halted, unpaid_value, commit_message, next_sequence,
  note_posted, notify, after_post, post_commit, send_commit,
}
use tap.Consumer.Session.Stream.{update_batcher, run_detector, commit_due, after_token}

module _ {K SK : Type 0} where
  -- A commitment that went through leaves no token uncommitted, and touches neither the batcher nor
  -- the cap.
  pub record Settled (s s' : ConsumerSession K SK) : Type 0 where
    pub nothing_pending : s'.state.tokens_since_last_commit ≡ 0
    pub same_batcher : s'.batcher ≡ s.batcher
    pub same_cap : s'.unpaid_cap_micro ≡ s.unpaid_cap_micro

  after_post-Settled :
      (a : Arrival) (signed : SignedCommitment K) (s : ConsumerSession K SK)
      → Settled s (after_post a signed s).1
  unfolding after_post ◌>>=◌ ◌>>◌ note_posted notify
  after_post-Settled a signed s = ground arith

module _ {K SK : Type 0} ⦃keys : Keys K⦄ (ed : Ed25519 SK) (channel_pk : K) where
  posted-Settled :
      (a : Arrival) (signed : SignedCommitment K) (post : Result (Unit {0}))
      (s : ConsumerSession K SK)
      → ((lift post >> after_post a signed) s).0 ≡ ok tt
      → Settled s ((lift post >> after_post a signed) s).1
  unfolding ◌>>◌
  posted-Settled a signed (err e) s h = cc
  posted-Settled a signed (ok _) s h = after_post-Settled a signed s

  signed-Settled :
      (a : Arrival) (r : Result (SignedCommitment K)) (s : ConsumerSession K SK)
      → ((lift r >>= λ signed. lift a.post >> after_post a signed) s).0 ≡ ok tt
      → Settled s ((lift r >>= λ signed. lift a.post >> after_post a signed) s).1
  unfolding ◌>>=◌
  signed-Settled a (err e) s h = cc
  signed-Settled a (ok signed) s h = posted-Settled a signed a.post s h

  post_commit-Settled :
      (a : Arrival) (s : ConsumerSession K SK)
      → (post_commit ed channel_pk a s).0 ≡ ok tt
      → Settled s (post_commit ed channel_pk a s).1
  unfolding post_commit ◌>>=◌ ◌>>◌ next_sequence
  post_commit-Settled a s h =
      let t =
        signed-Settled a
          (sign_commitment ed (commit_message channel_pk a.wall_ms (next_sequence s)) s.session_key)
          (next_sequence s) h in
      record {
        nothing_pending = t.nothing_pending;
        same_batcher = t.same_batcher;
        same_cap = t.same_cap;
      }

  when_idle-Settled :
      (a : Arrival) (idle : Bool) (s : ConsumerSession K SK)
      → (idle ≡ true → s.state.tokens_since_last_commit ≡ 0)
      → (when (not idle) (post_commit ed channel_pk a) s).0 ≡ ok tt
      → Settled s (when (not idle) (post_commit ed channel_pk a) s).1
  unfolding when
  when_idle-Settled a true s z h = record {
    nothing_pending = z refl;
    same_batcher = refl;
    same_cap = refl;
  }
  when_idle-Settled a false s z h = post_commit-Settled a s h

  send_commit-Settled :
      (force : Bool) (a : Arrival) (s : ConsumerSession K SK)
      → (send_commit ed force channel_pk a s).0 ≡ ok tt
      → Settled s (send_commit ed force channel_pk a s).1
  unfolding send_commit ◌>>=◌
  send_commit-Settled force a s h =
      when_idle-Settled a (not force && s.state.tokens_since_last_commit == 0) s (λ e. ground arith)
        h

  update_batcher-Settled :
      (s s' : ConsumerSession K SK)
      → Settled s s'
      → (update_batcher s').batcher ≡ update (pos 0) s.unpaid_cap_micro s.batcher
  unfolding update_batcher unpaid_value
  update_batcher-Settled s s' t = rw (t.nothing_pending, t.same_batcher, t.same_cap, zero-*ℤ) refl

  -- The batcher after a commitment that is due, by how sending it ended.
  sent_batcher :
      (outcome : Result (Unit {0})) (s s' : ConsumerSession K SK) {end : Option StreamEnd}
      → IsBatcher s.batcher
      → pos 0 <ℤ s.unpaid_cap_micro
      → (outcome ≡ ok tt → Settled s s')
      → (((lift outcome >> modify update_batcher) >> pure none) s').0 ≡ ok end
      → (((lift outcome >> modify update_batcher) >> pure {A = Option StreamEnd} none) s').1.batcher
        ≡ record s.batcher { k = min s.batcher.k_max (s.batcher.k * 2) }
  unfolding ◌>>◌ modify pure
  sent_batcher (err e) s s' b p t h = cc
  sent_batcher (ok _) s s' b p t h =
      update_batcher-Settled s s' (t refl) ∙ update_nothing_unpaid s.unpaid_cap_micro s.batcher b p

  due_batcher :
      (due : Bool) (a : Arrival) (s : ConsumerSession K SK) {end : Option StreamEnd}
      → IsBatcher s.batcher
      → pos 0 <ℤ s.unpaid_cap_micro
      → due ≡ true
      → ((when due (send_commit ed false channel_pk a >> modify update_batcher) >> pure none) s).0
        ≡ ok end
      → ((when due (send_commit ed false channel_pk a >> modify update_batcher)
            >> pure {A = Option StreamEnd} none)
          s).1.batcher
        ≡ record s.batcher { k = min s.batcher.k_max (s.batcher.k * 2) }
  unfolding when ◌>>◌
  due_batcher false a s b p d h = cc
  due_batcher true a s b p d h =
      sent_batcher (send_commit ed false channel_pk a s).0 s (send_commit ed false channel_pk a s).1
        b p (send_commit-Settled false a s) h

  -- After a token for which a commitment is due, if the loop goes on, the batch size has doubled up
  -- to its limit, from any size between 1 and the limit, whatever the price, the cap and the
  -- tokens, if the cap is positive. The step down is never taken.
  pub after_token-batcher :
      (a : Arrival) (s : ConsumerSession K SK) {end : Option StreamEnd}
      → IsBatcher s.batcher
      → pos 0 <ℤ s.unpaid_cap_micro
      → commit_due s ≡ true
      → (after_token ed channel_pk a s).0 ≡ ok end
      → (after_token ed channel_pk a s).1.batcher
        ≡ record s.batcher { k = min s.batcher.k_max (s.batcher.k * 2) }
  unfolding after_token ◌>>=◌ ◌>>◌ when run_detector
  after_token-batcher a s {end} b p due h =
      go (is_halted (evaluate a.evaluated_at s.detector).state) h
    where
      s1 : ConsumerSession K SK
      s1 = run_detector a.evaluated_at s

      rest : Action (ConsumerSession K SK) (Option StreamEnd)
      rest = do
        d ← gets commit_due
        when d (send_commit ed false channel_pk a >> modify update_batcher)
        pure none

      go :
          (stop : Bool)
          → ((when stop (raise (halt_error "producer stopped sending tokens past pause window"))
                >> rest)
              s1).0
            ≡ ok end
          → ((when stop (raise (halt_error "producer stopped sending tokens past pause window"))
                >> rest)
              s1).1.batcher
            ≡ record s.batcher { k = min s.batcher.k_max (s.batcher.k * 2) }
      go true h = cc
      go false h = due_batcher (commit_due s) a s1 b p due h
