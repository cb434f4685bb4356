-- ===== src/Producer/WrapStream/Silence.antt =====
-- The wait for room of `wrap_stream` (sdk/python/tap/producer/wrap_stream.py) under a consumer that
-- has fallen silent.
use tap.Base.{
  ℕ, suc, ◌*◌, ◌<◌, ◌≡◌, refl, true, false, Bool, List, [], ◌∷◌, ◌++◌, length, All, arith,
  Bool-cases, inl, inr,
}
use tap.Base.Int.{ℤ, pos, ◌-ℤ◌, ◌≤ℤ◌, leb_ℤ}
use tap.Base.Text.{Text}
use tap.External.{Keys, Ed25519}
use tap.Timing.{TimingParameters}
use tap.Producer.Channel.{ActiveChannel}
use tap.Producer.Halt.{should_pause, should_halt}
use tap.Producer.Pricing.{Pricing}
use tap.Producer.WrapStream.{Gap, Status, halted, lapsed, receive, await_room, turn}

one_more : (d : ℤ) (n : ℕ) → leb_ℤ (d -ℤ pos 10) (pos 0) ≡ false → d ≤ℤ pos (10 * suc n) → 0 < n
unfolding ◌-ℤ◌
one_more d n h e = ground arith

one_less : (d : ℤ) (n : ℕ) → d ≤ℤ pos (10 * suc n) → d -ℤ pos 10 ≤ℤ pos (10 * n)
unfolding ◌-ℤ◌
one_less d n h = ground arith

below : (d grace : ℤ) → d ≤ℤ grace → d -ℤ pos 10 ≤ℤ grace
unfolding ◌-ℤ◌
below d grace h = ground arith

module _ {K SK : Type 0} ⦃keys : Keys K⦄ (ed : Ed25519 SK) (c : ActiveChannel K) where
  -- No commitment that the verifier accepts came in.
  abbrev pub IsSilent : Gap K → Type 0
  IsSilent g = receive ed c g.posts ≡ c

abbrev IsHalt : {K : Type 0} → ActiveChannel K → Status × ActiveChannel K × ℤ → Type 0
IsHalt c r = (r.0 ≡ halted) × (r.1 ≡ lapsed c)

module _ {K : Type 0} (timing : TimingParameters) (c : ActiveChannel K) where
  -- The clock is past the pause timeout.
  abbrev pub IsLate : Gap K → Type 0
  IsLate g = timing.pause_timeout_ms ≤ℤ g.now -ℤ c.last_commit_at_ms

  late_halts : (g : Gap K) → IsLate g → should_halt g.now c timing ≡ true
  unfolding should_halt
  late_halts g h = ground arith

module _ {K SK : Type 0} ⦃keys : Keys K⦄ (ed : Ed25519 SK) (pricing : Pricing)
    (timing : TimingParameters) (c : ActiveChannel K) where
  await_room-late :
      (now deadline_ms : ℤ) (late : List (Gap K))
      → should_pause c pricing.max_unpaid_micro ≡ true
      → All (λ (g : Gap K). IsSilent ed c g × IsLate timing c g) late
      → 0 < length late
      → deadline_ms ≤ℤ pos (10 * length late)
      → IsHalt c (await_room ed pricing timing c now deadline_ms late)
  unfolding await_room
  await_room-late now deadline_ms [] full h d e = absurd (omega (arith, d))
  await_room-late now deadline_ms (g ∷ late) full h d e =
      rw (h.0.0, full, late_halts timing c g h.0.1)
        (elim (Bool-cases (leb_ℤ (deadline_ms -ℤ pos 10) (pos 0))) [
          | inl t ↦ rw t (refl, refl)
          | inr f ↦ rw f (
              await_room-late g.now (deadline_ms -ℤ pos 10) late full h.1
                (one_more deadline_ms (length late) f e) (one_less deadline_ms (length late) e))
        ])

  -- Rounds before the pause timeout change nothing but the time that is left.
  await_room-silent :
      (now deadline_ms : ℤ) (early late : List (Gap K))
      → should_pause c pricing.max_unpaid_micro ≡ true
      → All (IsSilent ed c) early
      → All (λ (g : Gap K). IsSilent ed c g × IsLate timing c g) late
      → 0 < length late
      → timing.grace_ms ≤ℤ pos (10 * length late)
      → deadline_ms ≤ℤ timing.grace_ms
      → IsHalt c (await_room ed pricing timing c now deadline_ms (early ++ late))
  unfolding await_room
  await_room-silent now deadline_ms [] late full s l g e u =
      await_room-late now deadline_ms late full l g (ground (arith, e, u))
  await_room-silent now deadline_ms (x ∷ early) late full s l g e u =
      rw (s.0, full)
        (elim (Bool-cases (leb_ℤ (deadline_ms -ℤ pos 10) (pos 0))) [
          | inl t ↦ rw t (elim (Bool-cases (should_halt x.now c timing)) [
            | inl stop ↦ rw stop (refl, refl)
            | inr go ↦
                rw go
                  (await_room-silent x.now timing.grace_ms early late full s.1 l g e (ground arith))
          ])
          | inr f ↦ rw f (
              await_room-silent x.now (deadline_ms -ℤ pos 10) early late full s.1 l g e
                (below deadline_ms timing.grace_ms u))
        ])

  -- A stream that has no room for its next token, and whose consumer posts nothing that is
  -- accepted, halts: after any rounds, once at least one round and a grace period of rounds have
  -- passed beyond the pause timeout, the turn has ended without a token and the channel is marked
  -- as lapsed.
  pub turn-halts :
      (first : Bool) (token : Text) (arrive : Gap K) (early late : List (Gap K)) (pace sent : Gap K)
      → should_pause c pricing.max_unpaid_micro ≡ true
      → IsSilent ed c arrive
      → All (IsSilent ed c) early
      → All (λ (g : Gap K). IsSilent ed c g × IsLate timing c g) late
      → 0 < length late
      → timing.grace_ms ≤ℤ pos (10 * length late)
      → turn ed pricing timing first
          (record {
            token = token;
            arrive = arrive;
            waits = early ++ late;
            pace = pace;
            sent = sent;
          })
          c
        ≡ record { channel = lapsed c; emitted = []; status = halted }
  unfolding turn
  turn-halts first token arrive early late pace sent full a s l g e =
      let (stopped, marked) =
        await_room-silent arrive.now timing.grace_ms early late full s l g e (ground arith) in
      rw (turn, a, stopped, a, marked) refl
