-- ===== src/Agreement/Deliver.antt =====
-- Every commitment that a session posts is accepted by the producer.
use tap.Base.{ℕ, ◌≡◌, refl, Bool, some, List, [], arith}
use mathlib.Core.Path.{subst}
use tap.Base.Int.{ℤ, pos}
use tap.Base.Text.{Text}
use tap.Base.Exceptions.{Result, ok, err, >>=-eq-ok}
use tap.Base.Action.{lift, modify, when, ◌>>=◌, ◌>>◌}
use tap.Base.Action.Keeps.{Keeps, keeps_rules}
use tap.External.{Keys, Ed25519}
use tap.Protocol.Commit.{CommitMessage, SignedCommitment}
use tap.Protocol.Codec.{encode_commitment_bytes}
use tap.Protocol.Signing.{sign_commitment}
use tap.Producer.Channel.{ActiveChannel, note_commit}
use tap.Producer.Verifier.Accepts.{Accepts, accept_commitment_complete}
use tap.Consumer.Session.{
  ConsumerSession, Arrival, StreamEvent, absorb_token, yield_chunk, next_sequence, commit_message,
  note_posted, notify, after_post, post_commit, send_commit,
}
use tap.Consumer.Session.Stream.{
  note_arrival, run_detector, set_halted_by, update_batcher, after_token, stop_by_evaluator,
  on_token, on_event, stream_loop, stream,
}
use tap.Consumer.Session.Induction.{stream_loop-Keeps}
use tap.Agreement.{deliver}
use tap.Agreement.Peer.{
  IsPeer-Advances, IsWithin-Advances, absorb_token-Advances, next_sequence-Advances, quiet_steps,
  notify-Advances, signed_accepted, IsPeer, IsWithin, Advances,
}

module _ {K SK : Type 0} ⦃keys : Keys K⦄ (ed : Ed25519 SK) where
  open keys use {key_bytes}
  open ed use {verify_key, verify, sign, verify-sign}

  module _ (now : ℤ) (channel_pk : K) (c0 : ActiveChannel K) where
    pub record IsHonest (s : ConsumerSession K SK) : Type 0 where
      pub within : IsWithin ed s
      pub peer : ActiveChannel K
      pub accepted : deliver ed now c0 s.posted ≡ ok peer
      pub agrees : IsPeer ed channel_pk peer s

    IsHonest-Advances : {s s' : ConsumerSession K SK} → Advances ed s s' → IsHonest s → IsHonest s'
    IsHonest-Advances a h = record {
      within = IsWithin-Advances ed a h.within;
      peer = h.peer;
      accepted = rw a.same_posted h.accepted;
      agrees = IsPeer-Advances ed channel_pk h.peer a h.agrees;
    }

    -- A commitment that was signed and posted is accepted on top of the ones before it.
    deliver-note_posted :
        (s : ConsumerSession K SK) (signed : SignedCommitment K) (c : ActiveChannel K)
        → deliver ed now c0 s.posted ≡ ok c
        → Accepts ed c signed
        → deliver ed now c0 (note_posted signed (next_sequence s)).posted
          ≡ ok (note_commit now signed c)
    unfolding deliver note_posted next_sequence
    deliver-note_posted s signed c d a = rw d (accept_commitment_complete ed now c signed a)

    IsPeer-note_posted :
        (wall_ms : ℤ) (s : ConsumerSession K SK) (c : ActiveChannel K) (signature : List ℕ)
        → IsPeer ed channel_pk c s
        → let signed : SignedCommitment K = record {
          message = commit_message channel_pk wall_ms (next_sequence s);
          signature = signature;
        } in
          IsPeer ed channel_pk (note_commit now signed c) (note_posted signed (next_sequence s))
    unfolding note_posted next_sequence commit_message note_commit
    IsPeer-note_posted wall_ms s c signature p = record {
      same_channel = p.same_channel;
      same_prepaid = p.same_prepaid;
      same_deposit = p.same_deposit;
      same_key = p.same_key;
      behind = omega arith;
    }

    IsWithin-note_posted :
        (s : ConsumerSession K SK) (signed : SignedCommitment K)
        → IsWithin ed s
        → IsWithin ed (note_posted signed (next_sequence s))
    unfolding note_posted next_sequence
    IsWithin-note_posted s signed w = record {
      price_nonneg = w.price_nonneg;
      floor = w.floor;
      ceiling = w.ceiling;
    }

    note_posted-IsHonest :
        (wall_ms : ℤ) (s : ConsumerSession K SK) (signed : SignedCommitment K)
        → sign_commitment ed (commit_message channel_pk wall_ms (next_sequence s)) s.session_key
          ≡ ok signed
        → IsHonest s
        → IsHonest (note_posted signed (next_sequence s))
    unfolding sign_commitment
    note_posted-IsHonest wall_ms s signed e h =
        let (bytes, eb, es) = >>=-eq-ok (encode_commitment_bytes _) _ e in
        let es' : ◌≡◌ {A = SignedCommitment K}
            (record {
              message = commit_message channel_pk wall_ms (next_sequence s);
              signature = sign s.session_key bytes;
            })
            signed =
          cc es in
        subst (λ x. IsHonest (note_posted x (next_sequence s))) es'
          (record {
            within = IsWithin-note_posted s _ h.within;
            peer = note_commit now _ h.peer;
            accepted =
                deliver-note_posted s _ h.peer h.accepted
                  (signed_accepted ed channel_pk wall_ms s h.peer bytes eb h.within h.agrees);
            agrees = IsPeer-note_posted wall_ms s h.peer (sign s.session_key bytes) h.agrees;
          })

    next-IsHonest : (s : ConsumerSession K SK) → IsHonest s → IsHonest (next_sequence s)
    next-IsHonest s h = IsHonest-Advances (next_sequence-Advances ed s h.within) h

    notify-IsHonest :
        (m : CommitMessage K) (s : ConsumerSession K SK) → IsHonest s → IsHonest (notify m s)
    notify-IsHonest m s h = IsHonest-Advances (notify-Advances ed m s h.within) h

    callback-IsHonest :
        (a : Arrival) (m : CommitMessage K) (b : Bool)
        → Keeps IsHonest (when b (modify (notify m) >> lift a.callback))
    callback-IsHonest a m b = search (keeps_rules, notify-IsHonest)

    -- From the signature on.
    posted_or_not :
        (a : Arrival) (s : ConsumerSession K SK) (signed : SignedCommitment K)
        → sign_commitment ed (commit_message channel_pk a.wall_ms (next_sequence s)) s.session_key
          ≡ ok signed
        → IsHonest s
        → (post : Result (Unit {0}))
        → IsHonest ((lift post >> after_post a signed) (next_sequence s)).1
    unfolding ◌>>◌ after_post
    posted_or_not a s signed e h (err x) = next-IsHonest s h
    posted_or_not a s signed e h (ok _) =
        (callback-IsHonest a signed.message (note_posted signed (next_sequence s)).on_commit).at _
          (note_posted-IsHonest a.wall_ms s signed e h)

    signed_or_not :
        (a : Arrival) (s : ConsumerSession K SK)
        → IsHonest s
        → (r : Result (SignedCommitment K))
        → sign_commitment ed (commit_message channel_pk a.wall_ms (next_sequence s)) s.session_key
          ≡ r
        → IsHonest ((lift r >>= λ signed. lift a.post >> after_post a signed) (next_sequence s)).1
    unfolding ◌>>=◌
    signed_or_not a s h (err x) e = next-IsHonest s h
    signed_or_not a s h (ok signed) e = posted_or_not a s signed e h a.post

    post_commit-IsHonest : (a : Arrival) → Keeps IsHonest (post_commit ed channel_pk a)
    unfolding post_commit ◌>>=◌ ◌>>◌ next_sequence
    post_commit-IsHonest a = record { at = λ s h. signed_or_not a s h _ refl }

    send_commit-IsHonest :
        (force : Bool) (a : Arrival) → Keeps IsHonest (send_commit ed force channel_pk a)
    unfolding send_commit
    send_commit-IsHonest force a = search (keeps_rules, post_commit-IsHonest)

    absorb-IsHonest :
        (text : Text) (s : ConsumerSession K SK) → IsHonest s → IsHonest (absorb_token text s)
    absorb-IsHonest text s h = IsHonest-Advances (absorb_token-Advances ed text s h.within) h

    yield-IsHonest :
        (text : Text) (s : ConsumerSession K SK) → IsHonest s → IsHonest (yield_chunk text s)
    yield-IsHonest text s h = IsHonest-Advances (quiet_steps ed s text (pos 0) h.within).0 h

    arrival-IsHonest :
        (at : ℤ) (s : ConsumerSession K SK) → IsHonest s → IsHonest (note_arrival at s)
    arrival-IsHonest at s h = IsHonest-Advances (quiet_steps ed s [] at h.within).1 h

    detector-IsHonest :
        (at : ℤ) (s : ConsumerSession K SK) → IsHonest s → IsHonest (run_detector at s)
    detector-IsHonest at s h = IsHonest-Advances (quiet_steps ed s [] at h.within).2 h

    halted_by-IsHonest : (s : ConsumerSession K SK) → IsHonest s → IsHonest (set_halted_by s)
    halted_by-IsHonest s h = IsHonest-Advances (quiet_steps ed s [] (pos 0) h.within).3 h

    batcher-IsHonest : (s : ConsumerSession K SK) → IsHonest s → IsHonest (update_batcher s)
    batcher-IsHonest s h = IsHonest-Advances (quiet_steps ed s [] (pos 0) h.within).4 h

    ruleset honest_rules = (
      keeps_rules, send_commit-IsHonest, absorb-IsHonest, yield-IsHonest, arrival-IsHonest,
      detector-IsHonest, halted_by-IsHonest, batcher-IsHonest,
    )

    after_token-IsHonest : (a : Arrival) → Keeps IsHonest (after_token ed channel_pk a)
    unfolding after_token
    after_token-IsHonest a = search honest_rules depth 12

    on_event-IsHonest :
        (a : Arrival) (event : StreamEvent) → Keeps IsHonest (on_event ed channel_pk a event)
    unfolding on_event on_token stop_by_evaluator
    on_event-IsHonest a event = search (honest_rules, after_token-IsHonest) depth 12

    opened-IsHonest :
        (r : Result (Unit {0})) (arrivals : List Arrival) (s : ConsumerSession K SK)
        → IsHonest s
        → IsHonest ((lift r >> stream_loop ed channel_pk arrivals) s).1
    unfolding ◌>>◌
    opened-IsHonest (ok _) arrivals s h =
        (stream_loop-Keeps ed channel_pk on_event-IsHonest arrivals).at s h
    opened-IsHonest (err _) arrivals s h = h

    stream-IsHonest :
        (r : Result (Unit {0})) (arrivals : List Arrival) (s : ConsumerSession K SK)
        → keys.from_string s.channel_id ≡ some channel_pk
        → IsHonest s
        → IsHonest (stream ed r arrivals s).1
    unfolding stream ◌>>=◌
    stream-IsHonest r arrivals s e h = rw e (opened-IsHonest r arrivals s h)

  -- Every commitment that a session posts while it streams is accepted by the producer, in the
  -- order of posting, if the session opened within its terms and has posted nothing, and the
  -- producer's channel agrees on the channel, the terms and the session key and is not ahead.
  pub session_posts_accepted :
      (now : ℤ) (channel_pk : K) (c0 : ActiveChannel K) (s : ConsumerSession K SK)
      (response : Result (Unit {0})) (arrivals : List Arrival)
      → keys.from_string s.channel_id ≡ some channel_pk
      → s.posted ≡ []
      → IsWithin ed s
      → IsPeer ed channel_pk c0 s
      → (c : ActiveChannel K) × (deliver ed now c0 (stream ed response arrivals s).1.posted ≡ ok c)
  session_posts_accepted now channel_pk c0 s response arrivals e p w agrees =
      let h = stream-IsHonest now channel_pk c0 response arrivals s e opened in (h.peer, h.accepted)
    where
      opened : IsHonest now channel_pk c0 s
      opened = record {
        within = w;
        peer = c0;
        accepted = rw p (unfold deliver in refl);
        agrees = agrees;
      }
