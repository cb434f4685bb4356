-- ===== src/Producer/Server/Serving/Verified.antt =====
-- What holds of every channel that a host serves.
use tap.Base.{◌≡◌, refl, sym, Option, none, some, [], if-cases}
use mathlib.Core.Path.{subst}
use tap.Base.Int.{ℤ, ◌≤ℤ◌}
use tap.Base.Text.{Text}
use tap.Base.Exceptions.{Result}
use tap.External.{Keys, Ed25519, ◌==ₖ◌}
use tap.Json.{Wire}
use tap.Protocol.Commit.{SignedCommitment}
use tap.Chain.Pda.{Solana}
use tap.Producer.Channel.{ActiveChannel, note_token, note_commit, mark_halted}
use tap.Producer.Verifier.Accepts.{Accepts, IsAuthentic}
use tap.Producer.Registry.{get}
use tap.Producer.Server.{Config}
use tap.Producer.Server.Host.{Host}
use tap.Producer.Server.Serving.{HostReach}
use tap.Producer.Server.Serving.View.{view, IsHost}
use tap.Producer.Server.Serving.Moves.{
  ChannelMap, Progress, token, clock, halt, IsUpdate, Move, keep, open_new, commit, progress,
  forgets, Moves, stop, step,
}
use tap.Producer.Server.Serving.Refines.{Reach-Moves}

module _ {K SK : Type 0} ⦃keys : Keys K⦄ (ed : Ed25519 SK) where
  -- The commitment that the channel holds, if it holds one, passed all checks.
  abbrev IsChecked : ActiveChannel K → Option (SignedCommitment K) → Type 0
  IsChecked c none = Unit
  IsChecked c (some s) =
      (s.message.channel ≡ c.channel_id)
      × (c.prepaid_input_micro ≤ℤ s.message.cumulative_paid)
      × (s.message.cumulative_paid ≤ℤ c.deposit_micro)
      × IsAuthentic ed c.session_key s

  pub record IsVerified (k : K) (c : ActiveChannel K) : Type 0 where
    pub own_id : c.channel_id ≡ k
    pub checked : IsChecked c c.last_commitment

  Progress-IsVerified :
      {k : K} {c c' : ActiveChannel K} → Progress c c' → IsVerified k c → IsVerified k c'
  unfolding note_token mark_halted
  Progress-IsVerified {k} {c} (token e) v =
      subst (IsVerified k) (sym e) (record { own_id = v.own_id; checked = v.checked })
  Progress-IsVerified {k} {c} (clock now e) v =
      subst (IsVerified k) (sym e) (record { own_id = v.own_id; checked = v.checked })
  Progress-IsVerified {k} {c} (halt e) v =
      subst (IsVerified k) (sym e) (record { own_id = v.own_id; checked = v.checked })

  note_commit-IsVerified :
      (k : K) (now : ℤ) (c : ActiveChannel K) (s : SignedCommitment K)
      → Accepts ed c s
      → IsVerified k c
      → IsVerified k (note_commit now s c)
  unfolding note_commit
  note_commit-IsVerified k now c s a v = record {
    own_id = v.own_id;
    checked = (a.same_channel, a.floor, a.ceiling, a.authentic);
  }

  abbrev IsVerifiedAt : K → Option (ActiveChannel K) → Type 0
  IsVerifiedAt k none = Unit
  IsVerifiedAt k (some c) = IsVerified k c

  abbrev AllVerified : ChannelMap K → Type 0
  AllVerified v = (k : K) → IsVerifiedAt k (v k)

  update-AllVerified :
      (k : K) (o : Option (ActiveChannel K)) (v w : ChannelMap K)
      → IsUpdate k o v w
      → IsVerifiedAt k o
      → AllVerified v
      → AllVerified w
  update-AllVerified k o v w u new all j = subst (IsVerifiedAt j) (sym (u j)) (
      if-cases (IsVerifiedAt j) (k ==ₖ j)
        (λ e. subst (λ x. IsVerifiedAt x o) ((keys.beq_iff k j).0 e) new) (λ _. all j))

  Move-AllVerified : {v w : ChannelMap K} → Move ed v w → AllVerified v → AllVerified w
  Move-AllVerified (keep same) all = λ k. subst (IsVerifiedAt k) (sym (same k)) (all k)
  Move-AllVerified {v} {w} (open_new c fresh none_sent u) all =
      update-AllVerified c.channel_id (some c) v w u
        (record { own_id = refl; checked = subst (IsChecked c) (sym fresh) tt }) all
  Move-AllVerified {v} {w} (commit k now c s held fits u) all =
      let before : IsVerified k c = subst (IsVerifiedAt k) held (all k) in
      update-AllVerified k (some (note_commit now s c)) v w u
        (note_commit-IsVerified k now c s fits before) all
  Move-AllVerified {v} {w} (progress k c c' held p u) all =
      update-AllVerified k (some c') v w u
        (Progress-IsVerified p (subst (IsVerifiedAt k) held (all k))) all
  Move-AllVerified {v} {w} (forgets k u) all = update-AllVerified k none v w u tt all

  Moves-AllVerified : {v w : ChannelMap K} → Moves ed v w → AllVerified v → AllVerified w
  Moves-AllVerified stop all = all
  Moves-AllVerified (step ms m) all = Move-AllVerified m (Moves-AllVerified ms all)

  -- Every channel that a host finds under an id has this id, and the commitment that it would
  -- settle, if any, was signed by its session key for this channel, for at least its prepaid input
  -- and at most its deposit: so it is from a host without channels on, whatever requests are served
  -- and however streams run in between.
  pub Reach-IsVerified :
      {R T : Type 0} (solana : Solana K) (wire : Wire) (config : Config K)
      (parse_tx : Text → Option T) (send_raw : T → Result (Unit {0})) {start h : Host K} (k : K)
      (c : ActiveChannel K)
      → HostReach R ed solana wire config parse_tx send_raw start h
      → start.registry ≡ []
      → view h k ≡ some c
      → IsVerified k c
  unfolding get
  Reach-IsVerified solana wire config parse_tx send_raw {start = start} k c r empty held =
      let nothing : (j : K) → get j start.registry ≡ none = λ j. rw empty refl in
      let start_ok : IsHost start = record {
        own_id = λ j ref g. let no = nothing j in cc;
        allocated = λ j ref g. let no = nothing j in cc;
      } in
      let (_, ms) = Reach-Moves ed solana wire config parse_tx send_raw r start_ok in
      let all = Moves-AllVerified ms (λ j. rw (nothing j) tt) in subst (IsVerifiedAt k) held (all k)
