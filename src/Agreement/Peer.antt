-- ===== src/Agreement/Peer.antt =====
-- A producer's channel and a consumer's session that agree, and what the session's steps keep of
-- it.
use tap.Base.{ℕ, ◌≡◌, sym, ap, ◌∙◌, Option, none, some, List, arith, ◌≤◌}
use tap.Base.Int.{ℤ, pos, ◌≤ℤ◌, +ℤ_parts}
use tap.Base.Text.{Text}
use tap.Base.Exceptions.{ok}
use tap.External.{Keys, Ed25519}
use tap.Protocol.Commit.{CommitMessage, SignedCommitment}
use tap.Protocol.Codec.{encode_commitment_bytes}
use tap.Producer.Channel.{ActiveChannel}
use tap.Producer.Verifier.Accepts.{Accepts, Supersedes}
use tap.Consumer.Session.{
  ConsumerSession, absorb_token, yield_chunk, next_sequence, commit_message, notify,
}
use tap.Consumer.Session.Stream.{note_arrival, run_detector, set_halted_by, update_batcher}

module _ {K SK : Type 0} ⦃keys : Keys K⦄ (ed : Ed25519 SK) where
  open keys use {key_bytes}
  open ed use {verify_key, verify, sign, verify-sign}

  -- The last accepted commitment is not ahead of the session.
  abbrev pub Behind : Option (SignedCommitment K) → ConsumerSession K SK → Type 0
  Behind none s = Unit
  Behind (some last) s =
      (last.message.sequence ≤ℤ pos s.state.sequence)
      × (last.message.cumulative_paid ≤ℤ s.state.cumulative_paid)

  -- The producer's channel is the one that the session pays on, under the same terms.
  pub record IsPeer (channel_pk : K) (c : ActiveChannel K) (s : ConsumerSession K SK) : Type 0 where
    pub same_channel : c.channel_id ≡ channel_pk
    pub same_prepaid : c.prepaid_input_micro ≡ s.prepaid_input_micro
    pub same_deposit : c.deposit_micro ≡ s.deposit_micro
    pub same_key : key_bytes c.session_key ≡ verify_key s.session_key
    pub behind : Behind c.last_commitment s

  -- What the session signs stays within what was agreed at the opening.
  pub record IsWithin (s : ConsumerSession K SK) : Type 0 where
    pub price_nonneg : pos 0 ≤ℤ s.output_price_micro
    pub floor : s.prepaid_input_micro ≤ℤ s.state.cumulative_paid
    pub ceiling : s.state.cumulative_paid ≤ℤ s.deposit_micro

  -- A step of the session that posts nothing, keeps the terms and pays no less.
  pub record Advances (s s' : ConsumerSession K SK) : Type 0 where
    pub same_price : s'.output_price_micro ≡ s.output_price_micro
    pub same_prepaid : s'.prepaid_input_micro ≡ s.prepaid_input_micro
    pub same_deposit : s'.deposit_micro ≡ s.deposit_micro
    pub same_key : s'.session_key ≡ s.session_key
    pub same_posted : s'.posted ≡ s.posted
    pub sequence : s.state.sequence ≤ s'.state.sequence
    pub paid : s.state.cumulative_paid ≤ℤ s'.state.cumulative_paid
    pub ceiling : s'.state.cumulative_paid ≤ℤ s'.deposit_micro

  pub Behind-Advances :
      (l : Option (SignedCommitment K)) {s s' : ConsumerSession K SK}
      → Advances s s'
      → Behind l s
      → Behind l s'
  Behind-Advances none a b = tt
  Behind-Advances (some last) a b = ground (arith, a.sequence, a.paid, b.0, b.1)

  pub IsPeer-Advances :
      (channel_pk : K) (c : ActiveChannel K) {s s' : ConsumerSession K SK}
      → Advances s s'
      → IsPeer channel_pk c s
      → IsPeer channel_pk c s'
  IsPeer-Advances channel_pk c a p = record {
    same_channel = p.same_channel;
    same_prepaid = p.same_prepaid ∙ sym a.same_prepaid;
    same_deposit = p.same_deposit ∙ sym a.same_deposit;
    same_key = p.same_key ∙ ap verify_key (sym a.same_key);
    behind = Behind-Advances c.last_commitment a p.behind;
  }

  pub IsWithin-Advances : {s s' : ConsumerSession K SK} → Advances s s' → IsWithin s → IsWithin s'
  IsWithin-Advances a w = ground (arith, a.same_price, a.same_prepaid, a.paid, a.ceiling)

  pub absorb_token-Advances :
      (text : Text) (s : ConsumerSession K SK) → IsWithin s → Advances s (absorb_token text s)
  unfolding absorb_token
  absorb_token-Advances text s w =
      ground
        (arith, w.price_nonneg, w.ceiling, +ℤ_parts s.state.cumulative_paid s.output_price_micro)

  pub next_sequence-Advances :
      (s : ConsumerSession K SK) → IsWithin s → Advances s (next_sequence s)
  unfolding next_sequence
  next_sequence-Advances s w = ground (arith, w.ceiling)

  -- The steps that touch none of what the producer sees.
  pub quiet_steps :
      (s : ConsumerSession K SK) (text : Text) (now : ℤ)
      → IsWithin s
      → Advances s (yield_chunk text s)
        × Advances s (note_arrival now s)
        × Advances s (run_detector now s)
        × Advances s (set_halted_by s)
        × Advances s (update_batcher s)
  unfolding yield_chunk note_arrival run_detector set_halted_by update_batcher
  quiet_steps s text now w = ground (arith, w.ceiling)

  pub notify-Advances :
      (m : CommitMessage K) (s : ConsumerSession K SK) → IsWithin s → Advances s (notify m s)
  unfolding notify
  notify-Advances m s w = ground (arith, w.ceiling)

  pub Supersedes-next :
      (channel_pk : K) (wall_ms : ℤ) (l : Option (SignedCommitment K)) (s : ConsumerSession K SK)
      (signature : List ℕ)
      → Behind l s
      → Supersedes l (record {
        message = commit_message channel_pk wall_ms (next_sequence s);
        signature = signature;
      })
  unfolding commit_message next_sequence
  Supersedes-next channel_pk wall_ms none s signature b = tt
  Supersedes-next channel_pk wall_ms (some last) s signature b = omega (arith, b.0, b.1)

  pub signed_accepted :
      (channel_pk : K) (wall_ms : ℤ) (s : ConsumerSession K SK) (c : ActiveChannel K)
      (bytes : List ℕ)
      → encode_commitment_bytes (commit_message channel_pk wall_ms (next_sequence s)) ≡ ok bytes
      → IsWithin s
      → IsPeer channel_pk c s
      → Accepts ed c (record {
        message = commit_message channel_pk wall_ms (next_sequence s);
        signature = sign s.session_key bytes;
      })
  unfolding commit_message next_sequence
  signed_accepted channel_pk wall_ms s c bytes e w p = record {
    same_channel = sym p.same_channel;
    fresh =
        Supersedes-next channel_pk wall_ms c.last_commitment s (sign s.session_key bytes) p.behind;
    floor = rw p.same_prepaid w.floor;
    ceiling = rw p.same_deposit w.ceiling;
    authentic = (bytes, e, rw p.same_key (verify-sign s.session_key bytes));
  }
