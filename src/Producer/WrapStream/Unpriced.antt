-- ===== src/Producer/WrapStream/Unpriced.antt =====
-- A stream on a channel without an output price.
use tap.Base.{ℕ, ◌≡◌, ◌≢◌, refl, sym, Bool, true, false, List, [], ◌∷◌, ◌++◌, arith, if-cases}
use mathlib.Core.Path.{subst}
use tap.Base.Int.{ℤ, pos, ◌*ℤ◌, ◌-ℤ◌, ◌<ℤ◌, max_ℤ, -ℤ_parts}
use tap.Base.Exceptions.{Result, ok, err}
use tap.External.{Keys, Ed25519}
use tap.Timing.{TimingParameters}
use tap.Protocol.Commit.{SignedCommitment}
use tap.Producer.Channel.{
  ActiveChannel, note_token, note_commit, mark_halted, unpaid_value_micro, cumulative_paid_micro,
}
use tap.Producer.Halt.{should_pause, should_halt}
use tap.Producer.Pricing.{Pricing}
use tap.Producer.Verifier.{accept_commitment}
use tap.Producer.Verifier.Accepts.{accept_commitment_sound}
use tap.Producer.WrapStream.{
  Gap, Turn, Status, waiting, streaming, Run, receive_one, receive, await_room, emit, turn, turns,
  set_clock, wrap_stream,
}
use tap.Producer.WrapStream.Keeps.{IsKept, keep_receive, keep_turn}

times_zero : (n : ℕ) → pos n *ℤ pos 0 ≡ pos 0
unfolding ◌*ℤ◌
times_zero n = ground arith

module _ {K SK : Type 0} ⦃keys : Keys K⦄ (ed : Ed25519 SK) where
  abbrev pub IsUnpriced : ActiveChannel K → Type 0
  IsUnpriced c = c.output_price_micro ≡ pos 0

  receive_one-IsUnpriced :
      (c : ActiveChannel K) (s : SignedCommitment K) (at : ℤ)
      → IsUnpriced c
      → IsUnpriced (receive_one ed c s at)
  unfolding receive_one note_commit
  receive_one-IsUnpriced c s at h = go (accept_commitment ed at c s) refl
    where
      go :
          (r : Result (ActiveChannel K))
          → accept_commitment ed at c s ≡ r
          → IsUnpriced (elim r [ ok c' ↦ c' | err _ ↦ c ])
      go (ok c') e = rw (accept_commitment_sound ed at c s e).1 h
      go (err _) e = h

  IsUnpriced-IsKept : IsKept ed IsUnpriced
  unfolding note_token mark_halted
  IsUnpriced-IsKept = record {
    on_post = receive_one-IsUnpriced;
    on_token = λ c h. h;
    on_clock = λ now c h. h;
    on_lapse = λ c h. h;
  }

  module _ (pricing : Pricing) (timing : TimingParameters)
      (cap_positive : pos 0 <ℤ pricing.max_unpaid_micro) where
    no_pause :
        (c : ActiveChannel K) → IsUnpriced c → should_pause c pricing.max_unpaid_micro ≡ false
    unfolding should_pause unpaid_value_micro
    no_pause c h =
        let paid = max_ℤ (pos 0) (cumulative_paid_micro c -ℤ c.prepaid_input_micro) in
        rw (h, times_zero c.tokens_delivered) (ground (arith, cap_positive, -ℤ_parts (pos 0) paid))

    no_wait :
        (c : ActiveChannel K) (now deadline_ms : ℤ) (gaps : List (Gap K))
        → IsUnpriced c
        → await_room ed pricing timing c now deadline_ms gaps ≡ (streaming, c, now)
    unfolding await_room
    no_wait c now deadline_ms [] h = rw (no_pause c h) refl
    no_wait c now deadline_ms (g ∷ gaps) h = rw (no_pause c h) refl

    turn-ne-waiting :
        (first : Bool) (t : Turn K) (c : ActiveChannel K)
        → IsUnpriced c
        → (turn ed pricing timing first t c).status ≢ waiting
    unfolding turn emit
    turn-ne-waiting first t c h =
        let c0 = receive ed c t.arrive.posts in
        let h0 = keep_receive ed IsUnpriced IsUnpriced-IsKept c t.arrive.posts h in
        subst
          (λ (w : Status × ActiveChannel K × ℤ).
            (let r : Run K = elim w.0 [
              | streaming ↦ emit ed pricing timing first t w.1 w.2
              | other ↦ record { channel = w.1; emitted = []; status = other }
            ] in
              r.status)
            ≢ waiting)
          (sym (no_wait c0 t.arrive.now timing.grace_ms t.waits h0))
          (if-cases (λ (r : Run K). r.status ≢ waiting) (should_halt t.arrive.now c0 timing)
            (λ _ e. cc) (λ _ e. cc))

    turns-ne-waiting :
        (first : Bool) (ts : List (Turn K)) (c : ActiveChannel K)
        → IsUnpriced c
        → (turns ed pricing timing first ts c).status ≢ waiting
    unfolding turns
    turns-ne-waiting first [] c h = λ e. cc
    turns-ne-waiting first (t ∷ ts) c h =
        let r = turn ed pricing timing first t c in
        let kept = keep_turn ed IsUnpriced IsUnpriced-IsKept pricing timing first t c h in
        by_status r (turns ed pricing timing false ts r.channel) (turn-ne-waiting first t c h)
          (turns-ne-waiting false ts r.channel kept)
      where
        by_status :
            (r rest : Run K)
            → r.status ≢ waiting
            → rest.status ≢ waiting
            → (let out : Run K = elim r.status [
              | streaming ↦ record rest { emitted = r.emitted ++ rest.emitted }
              | other ↦ r
            ] in
                out.status)
              ≢ waiting
        by_status r rest n1 n2 = ground arith

    -- Without a price the guard never waits.
    pub wrap_stream-ne-waiting :
        (now : ℤ) (tokens : List (Turn K)) (c : ActiveChannel K)
        → IsUnpriced c
        → (wrap_stream ed pricing timing now tokens c).status ≢ waiting
    unfolding wrap_stream
    wrap_stream-ne-waiting now tokens c h = turns-ne-waiting true tokens (set_clock now c) h
