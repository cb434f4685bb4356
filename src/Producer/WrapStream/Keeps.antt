-- ===== src/Producer/WrapStream/Keeps.antt =====
-- A property of the channel that no step of `wrap_stream` breaks holds when the run stands still.
use tap.Base.{Bool, true, false, List, [], ◌∷◌, ◌++◌, arith, if◌then◌else◌, if-cases}
use tap.Base.Int.{ℤ, pos, ◌-ℤ◌, leb_ℤ}
use tap.External.{Keys, Ed25519}
use tap.Timing.{TimingParameters}
use tap.Protocol.Commit.{SignedCommitment}
use tap.Producer.Channel.{ActiveChannel, note_token}
use tap.Producer.Halt.{should_pause, should_halt}
use tap.Producer.Pricing.{Pricing}
use tap.Producer.WrapStream.{
  Gap, Turn, Status, waiting, halted, streaming, Run, set_clock, lapsed, receive_one, receive,
  await_room, emit, turn, turns, wrap_stream,
}

module _ {K SK : Type 0} ⦃keys : Keys K⦄ (ed : Ed25519 SK) (P : ActiveChannel K → Type 0) where
  -- What the run does to its channel, one change at a time.
  pub record IsKept : Type 0 where
    pub on_post :
        (c : ActiveChannel K) (s : SignedCommitment K) (at : ℤ) → P c → P (receive_one ed c s at)
    pub on_token : (c : ActiveChannel K) → P c → P (note_token c)
    pub on_clock : (now : ℤ) (c : ActiveChannel K) → P c → P (set_clock now c)
    pub on_lapse : (c : ActiveChannel K) → P c → P (lapsed c)

  module _ (kept : IsKept) where
    pub keep_receive :
        (c : ActiveChannel K) (posts : List (SignedCommitment K × ℤ)) → P c → P (receive ed c posts)
    unfolding receive
    keep_receive c [] p = p
    keep_receive c ((s, at) ∷ posts) p =
        keep_receive (receive_one ed c s at) posts (kept.on_post c s at p)

    module _ (pricing : Pricing) (timing : TimingParameters) where
      keep_await_room :
          (c : ActiveChannel K) (now deadline_ms : ℤ) (gaps : List (Gap K))
          → P c
          → P (await_room ed pricing timing c now deadline_ms gaps).1
      unfolding await_room
      keep_await_room c now deadline_ms [] p = p
      keep_await_room c now deadline_ms (g ∷ gaps) p =
          let c' = receive ed c g.posts in
          let left = deadline_ms -ℤ pos 10 in
          let over = leb_ℤ left (pos 0) in
          let got : P c' = keep_receive c g.posts p in
          let later = keep_await_room c' g.now (if over then timing.grace_ms else left) gaps got in
          let Kept = λ (r : Status × ActiveChannel K × ℤ). P r.1 in
          if-cases Kept (should_pause c pricing.max_unpaid_micro)
            (λ _.
              if-cases Kept over
                (λ _.
                  if-cases Kept (should_halt g.now c' timing) (λ _. kept.on_lapse c' got)
                    (λ _. later))
                (λ _. later))
            (λ _. p)

      keep_emit :
          (first : Bool) (t : Turn K) (c : ActiveChannel K) (now : ℤ)
          → P c
          → P (emit ed pricing timing first t c now).channel
      unfolding emit
      keep_emit first t c now p =
          let paced : P (if first then c else receive ed c t.pace.posts) =
            if-cases P first (λ _. p) (λ _. keep_receive c t.pace.posts p) in
          if-cases (λ (r : Run K). P r.channel) (should_halt now c timing) (λ _. kept.on_lapse c p)
            (λ _. kept.on_clock t.sent.now _ (keep_receive _ t.sent.posts (kept.on_token _ paced)))

      pub keep_turn :
          (first : Bool) (t : Turn K) (c : ActiveChannel K)
          → P c
          → P (turn ed pricing timing first t c).channel
      unfolding turn
      keep_turn first t c p =
          by_status
            (await_room ed pricing timing (receive ed c t.arrive.posts) t.arrive.now timing.grace_ms
              t.waits)
            (keep_await_room _ t.arrive.now timing.grace_ms t.waits
              (keep_receive c t.arrive.posts p))
        where
          by_status :
              (w : Status × ActiveChannel K × ℤ)
              → P w.1
              → P (
                  let r : Run K = elim w.0 [
                    | streaming ↦ emit ed pricing timing first t w.1 w.2
                    | other ↦ record { channel = w.1; emitted = []; status = other }
                  ] in
                  r.channel)
          by_status (streaming, c1, now) q = keep_emit first t c1 now q
          by_status (waiting, c1, now) q = q
          by_status (halted, c1, now) q = q

      keep_turns :
          (first : Bool) (ts : List (Turn K)) (c : ActiveChannel K)
          → P c
          → P (turns ed pricing timing first ts c).channel
      unfolding turns
      keep_turns first [] c p = p
      keep_turns first (t ∷ ts) c p =
          by_status (turn ed pricing timing first t c)
            (turns ed pricing timing false ts (turn ed pricing timing first t c).channel)
            (keep_turn first t c p) (keep_turns false ts _ (keep_turn first t c p))
        where
          by_status :
              (r rest : Run K)
              → P r.channel
              → P rest.channel
              → P (
                  let out : Run K = elim r.status [
                    | streaming ↦ record rest { emitted = r.emitted ++ rest.emitted }
                    | other ↦ r
                  ] in
                  out.channel)
          by_status r rest p1 p2 = ground arith

      pub wrap_stream_keeps :
          (now : ℤ) (tokens : List (Turn K)) (c : ActiveChannel K)
          → P c
          → P (wrap_stream ed pricing timing now tokens c).channel
      unfolding wrap_stream
      wrap_stream_keeps now tokens c p = keep_turns true tokens _ (kept.on_clock now c p)
