-- ===== src/Producer/WrapStream/Exposure.antt =====
-- The producer's exposure: however commitments, sleeps and tokens interleave, the output that was
-- sent and not yet paid for stays below the cap plus the price of one token.
use tap.Base.{◌≡◌, Bool, true, false, List, [], ◌∷◌, ◌++◌, arith, if◌then◌else◌, if-cases}
use tap.Base.Int.{ℤ, pos, ◌+ℤ◌, ◌-ℤ◌, ◌≤ℤ◌, ◌<ℤ◌, leb_ℤ, int_laws}
use tap.External.{Keys, Ed25519}
use tap.Timing.{TimingParameters}
use tap.Protocol.Commit.{SignedCommitment}
use tap.Producer.Channel.{ActiveChannel, note_token, unpaid_value_micro}
use tap.Producer.Halt.{should_pause, should_halt}
use tap.Producer.Pricing.{Pricing}
use tap.Producer.WrapStream.{
  Gap, Turn, Status, waiting, halted, streaming, Run, set_clock, receive, await_room, emit, turn,
  turns, wrap_stream,
}
use tap.Producer.WrapStream.Receives.{
  Receives-refl, Receives-trans, lapsed-Receives, unpaid-note_token, receive-Receives, Receives,
}

module _ {K SK : Type 0} ⦃keys : Keys K⦄ (ed : Ed25519 SK) where
  module _ (pricing : Pricing) (timing : TimingParameters) where
    -- The wait for room changes the channel as posts do, and is left only where there is room.
    abbrev HasRoom : Status → ActiveChannel K → Type 0
    HasRoom streaming c = unpaid_value_micro c <ℤ pricing.max_unpaid_micro
    HasRoom _ c = Unit

    abbrev IsWait : ActiveChannel K → Status × ActiveChannel K × ℤ → Type 0
    IsWait c r = Receives c r.1 × HasRoom r.0 r.1

    IsWait-trans :
        {a b : ActiveChannel K} (r : Status × ActiveChannel K × ℤ)
        → Receives a b
        → IsWait b r
        → IsWait a r
    IsWait-trans r p h = (Receives-trans p h.0, h.1)

    has_room :
        (c : ActiveChannel K)
        → should_pause c pricing.max_unpaid_micro ≡ false
        → HasRoom streaming c
    unfolding should_pause
    has_room c h = ground arith

    await_room-IsWait :
        (c : ActiveChannel K) (now deadline_ms : ℤ) (gaps : List (Gap K))
        → IsWait c (await_room ed pricing timing c now deadline_ms gaps)
    unfolding await_room
    await_room-IsWait c now deadline_ms [] = (
      Receives-refl c,
      if-cases (λ st. HasRoom st c) (should_pause c pricing.max_unpaid_micro) (λ _. tt)
          (has_room c),
    )
    await_room-IsWait c now deadline_ms (g ∷ gaps) =
        let c' = receive ed c g.posts in
        let left = deadline_ms -ℤ pos 10 in
        let over = leb_ℤ left (pos 0) in
        let got : Receives c c' = receive-Receives ed c g.posts in
        let later =
          IsWait-trans
            (await_room ed pricing timing c' g.now (if over then timing.grace_ms else left) gaps)
            got (await_room-IsWait c' g.now (if over then timing.grace_ms else left) gaps) in
        if-cases (IsWait c) (should_pause c pricing.max_unpaid_micro)
          (λ _.
            if-cases (IsWait c) over
              (λ _.
                if-cases (IsWait c) (should_halt g.now c' timing)
                  (λ _. (Receives-trans got (lapsed-Receives c'), tt)) (λ _. later))
              (λ _. later))
          (λ e. (Receives-refl c, has_room c e))

    -- The bound on the exposure, and that the terms it depends on never change.
    pub record IsBounded (c : ActiveChannel K) : Type 0 where
      pub price_nonneg : pos 0 ≤ℤ c.output_price_micro
      pub bounded : unpaid_value_micro c <ℤ pricing.max_unpaid_micro +ℤ c.output_price_micro

    Receives-IsBounded : {c c' : ActiveChannel K} → Receives c c' → IsBounded c → IsBounded c'
    Receives-IsBounded r b = ground (arith, r.unpaid, r.same_price, b.bounded)

    set_clock-IsBounded :
        (now : ℤ) (c : ActiveChannel K) → IsBounded c → IsBounded (set_clock now c)
    unfolding unpaid_value_micro
    set_clock-IsBounded now c b = ground arith

    -- One more token, sent where there is room.
    note_token-IsBounded :
        (c : ActiveChannel K)
        → pos 0 ≤ℤ c.output_price_micro
        → HasRoom streaming c
        → IsBounded (note_token c)
    unfolding note_token
    note_token-IsBounded c p h = record {
      price_nonneg = p;
      bounded = rw unpaid-note_token (omega int_laws);
    }

    receive-HasRoom :
        (c : ActiveChannel K) (posts : List (SignedCommitment K × ℤ))
        → HasRoom streaming c
        → HasRoom streaming (receive ed c posts)
    receive-HasRoom c posts h = omega (arith, (receive-Receives ed c posts).unpaid)

    receive-IsBounded :
        (c : ActiveChannel K) (posts : List (SignedCommitment K × ℤ))
        → IsBounded c
        → IsBounded (receive ed c posts)
    receive-IsBounded c posts = Receives-IsBounded (receive-Receives ed c posts)

    emit-IsBounded :
        (first : Bool) (t : Turn K) (c : ActiveChannel K) (now : ℤ)
        → IsBounded c
        → HasRoom streaming c
        → IsBounded (emit ed pricing timing first t c now).channel
    unfolding emit
    emit-IsBounded first t c now b h =
        let paced = if first then c else receive ed c t.pace.posts in
        let got : Receives c paced =
          if-cases (λ x. Receives c x) first (λ _. Receives-refl c)
            (λ _. receive-Receives ed c t.pace.posts) in
        let sent : IsBounded (note_token paced) =
          note_token-IsBounded paced (Receives-IsBounded got b).price_nonneg
            (omega (arith, got.unpaid)) in
        if-cases (λ (r : Run K). IsBounded r.channel) (should_halt now c timing)
          (λ _. Receives-IsBounded (lapsed-Receives c) b)
          (λ _.
            set_clock-IsBounded t.sent.now _
              (receive-IsBounded (note_token paced) t.sent.posts sent))

    turn-IsBounded :
        (first : Bool) (t : Turn K) (c : ActiveChannel K)
        → IsBounded c
        → IsBounded (turn ed pricing timing first t c).channel
    unfolding turn
    turn-IsBounded first t c b =
        let c0 = receive ed c t.arrive.posts in
        let w = await_room ed pricing timing c0 t.arrive.now timing.grace_ms t.waits in
        let (got, room) = await_room-IsWait c0 t.arrive.now timing.grace_ms t.waits in
        by_status w.0 w.1 w.2 room (Receives-IsBounded got (receive-IsBounded c t.arrive.posts b))
      where
        by_status :
            (st : Status) (c1 : ActiveChannel K) (now : ℤ)
            → HasRoom st c1
            → IsBounded c1
            → IsBounded (
                let r : Run K = elim st [
                  | streaming ↦ emit ed pricing timing first t c1 now
                  | other ↦ record { channel = c1; emitted = []; status = other }
                ] in
                r.channel)
        by_status streaming c1 now room b1 = emit-IsBounded first t c1 now b1 room
        by_status waiting c1 now room b1 = b1
        by_status halted c1 now room b1 = b1

    turns-IsBounded :
        (first : Bool) (ts : List (Turn K)) (c : ActiveChannel K)
        → IsBounded c
        → IsBounded (turns ed pricing timing first ts c).channel
    unfolding turns
    turns-IsBounded first [] c b = b
    turns-IsBounded first (t ∷ ts) c b =
        by_status (turn ed pricing timing first t c)
          (turns ed pricing timing false ts (turn ed pricing timing first t c).channel)
          (turn-IsBounded first t c b) (turns-IsBounded false ts _ (turn-IsBounded first t c b))
      where
        by_status :
            (r rest : Run K)
            → IsBounded r.channel
            → IsBounded rest.channel
            → IsBounded (
                let out : Run K = elim r.status [
                  | streaming ↦ record rest { emitted = r.emitted ++ rest.emitted }
                  | other ↦ r
                ] in
                out.channel)
        by_status r rest b1 b2 = ground arith

    -- However commitments, sleeps and tokens interleave, the value of the output sent and not paid
    -- for stays below the cap plus the price of one token, on every run that starts so, if the
    -- price is not negative.
    pub wrap_stream_exposure :
        (now : ℤ) (tokens : List (Turn K)) (c : ActiveChannel K)
        → IsBounded c
        → unpaid_value_micro (wrap_stream ed pricing timing now tokens c).channel
          <ℤ pricing.max_unpaid_micro
            +ℤ (wrap_stream ed pricing timing now tokens c).channel.output_price_micro
    unfolding wrap_stream
    wrap_stream_exposure now tokens c b =
        (turns-IsBounded true tokens _ (set_clock-IsBounded now c b)).bounded
