-- ===== src/Producer/WrapStream.antt =====
-- sdk/python/tap/producer/wrap_stream.py. The generator is suspended at each `await` and at each
-- `yield`; meanwhile the commit endpoint may change the channel and time passes. A `Gap` is what
-- happens across one suspension: the commitments that were posted, and the clock on resumption. A
-- run is over the gaps that have happened so far; where they end inside the wait for room, the
-- generator is still suspended there.
pub mod Receives
pub mod Exposure
pub mod Silence
pub mod Keeps
pub mod Unpriced
use tap.Base.{ℕ, String, Bool, true, false, Option, none, some, List, [], ◌∷◌, ◌++◌, if◌then◌else◌}
use tap.Base.Int.{ℤ, pos, ◌-ℤ◌, leb_ℤ}
use tap.Base.Text.{Text}
use tap.Base.Exceptions.{Result, ok, err}
use tap.External.{Keys, Ed25519}
use tap.Timing.{TimingParameters}
use tap.Protocol.Commit.{CommitMessage, SignedCommitment}
use tap.Producer.Channel.{ActiveChannel, note_token, mark_halted}
use tap.Producer.Verifier.{accept_commitment}
use tap.Producer.Halt.{should_pause, should_halt}
use tap.Producer.Pricing.{Pricing}

pub record Gap (K : Type 0) : Type 0 where
  -- each with the time at which it arrived
  pub posts : List (SignedCommitment K × ℤ)
  pub now : ℤ

-- One token of the model: the wait for it, the rounds of the loop that waits for room, the pacing
-- sleep, and the suspension at the `yield`.
pub record Turn (K : Type 0) : Type 0 where
  pub token : Text
  pub arrive : Gap K
  pub waits : List (Gap K)
  pub pace : Gap K
  pub sent : Gap K

pub data Status : Type 0 where
  -- inside the wait for room; returned after a halt; after the last token so far
  waiting halted streaming : Status

pub record Run (K : Type 0) : Type 0 where
  pub channel : ActiveChannel K
  pub emitted : List (Text × ℤ)
  pub status : Status

module _ {K : Type 0} where
  -- `channel.last_commitment.message.sequence if channel.last_commitment else 0`
  unfoldable pub ack_sequence : ActiveChannel K → ℤ
  ack_sequence c = elim c.last_commitment [ none ↦ pos 0 | some last ↦ last.message.sequence ]

  abbrev pub lapsed : ActiveChannel K → ActiveChannel K
  lapsed = mark_halted "consumer commitments lapsed"

  abbrev pub set_clock : ℤ → ActiveChannel K → ActiveChannel K
  set_clock now c = record c { last_commit_at_ms = now }

module _ {K SK : Type 0} ⦃keys : Keys K⦄ (ed : Ed25519 SK) where
  -- A posted commitment that the verifier refuses leaves the channel as it was.
  unfoldable pub receive_one : ActiveChannel K → SignedCommitment K → ℤ → ActiveChannel K
  receive_one c s now = elim (accept_commitment ed now c s) [ ok c' ↦ c' | err _ ↦ c ]

  unfoldable pub receive : ActiveChannel K → List (SignedCommitment K × ℤ) → ActiveChannel K
  receive c [] = c
  receive c ((s, at) ∷ posts) = receive (receive_one c s at) posts

  module _ (pricing : Pricing) (timing : TimingParameters) where
    -- `while should_pause(...)`: the status is `streaming` when the loop is left with room.
    unfoldable pub await_room :
        ActiveChannel K → ℤ → ℤ → List (Gap K) → Status × ActiveChannel K × ℤ
    await_room c now deadline_ms [] =
        (if should_pause c pricing.max_unpaid_micro then waiting else streaming, c, now)
    await_room c now deadline_ms (g ∷ gaps) =
        let c' = receive c g.posts in
        let left = deadline_ms -ℤ pos 10 in
        let over = leb_ℤ left (pos 0) in
        let rest = await_room c' g.now (if over then timing.grace_ms else left) gaps in
        if should_pause c pricing.max_unpaid_micro
        then (if over
            then (if should_halt g.now c' timing then (halted, lapsed c', g.now) else rest)
            else rest)
        else (streaming, c, now)

    -- From the check after the wait to the `yield`; `first` is the generator's flag.
    unfoldable pub emit : Bool → Turn K → ActiveChannel K → ℤ → Run K
    emit first t c now =
        if should_halt now c timing
        then record { channel = lapsed c; emitted = []; status = halted }
        else (let c1 = note_token (if first then c else receive c t.pace.posts) in
            record {
              channel = set_clock t.sent.now (receive c1 t.sent.posts);
              emitted = (t.token, ack_sequence c1) ∷ [];
              status = streaming;
            })

    -- The body of `async for token in tokens`.
    unfoldable pub turn : Bool → Turn K → ActiveChannel K → Run K
    turn first t c =
        let c0 = receive c t.arrive.posts in
        let (status, c1, now) = await_room c0 t.arrive.now timing.grace_ms t.waits in
        elim status [
          | streaming ↦ emit first t c1 now
          | other ↦ record { channel = c1; emitted = []; status = other }
        ]

    unfoldable pub turns : Bool → List (Turn K) → ActiveChannel K → Run K
    turns first [] c = record { channel = c; emitted = []; status = streaming }
    turns first (t ∷ ts) c =
        let r = turn first t c in
        let rest = turns false ts r.channel in
        elim r.status [
          | streaming ↦ record rest { emitted = r.emitted ++ rest.emitted }
          | other ↦ r
        ]

    -- The generator from its start at `now`.
    unfoldable pub wrap_stream : ℤ → List (Turn K) → ActiveChannel K → Run K
    unfolding turns turn emit await_room receive receive_one
    wrap_stream now tokens c = turns true tokens (set_clock now c)
