-- ===== src/Producer/Server/Serving/Moves.antt =====
-- What a host does to its channels, as moves of a map, and that every step is one.
use tap.Base.{ℕ, ◌≡◌, refl, ap, Bool, Option, none, some, arith, if◌then◌else◌, ◌⊎◌, inl, inr}
use tap.Base.Int.{ℤ}
use tap.Base.Text.{Text}
use tap.Base.Exceptions.{
  Exception, Result, ok, err, http_exception, value_error, catch_as, or_raise,
}
use tap.Base.Action.{Action, lift, gets, modify, pure, ◌>>=◌, ◌>>◌}
use tap.Base.Action.Keeps.{lift_cases}
use tap.External.{Keys, Ed25519, ◌==ₖ◌}
use tap.Json.{Wire}
use tap.Protocol.Commit.{SignedCommitment}
use tap.Protocol.Header.{decode_commitment}
use tap.Producer.Channel.{ActiveChannel, note_token, note_commit, mark_halted}
use tap.Producer.Verifier.{accept_commitment}
use tap.Producer.Verifier.Accepts.{Accepts, accept_commitment_sound}
use tap.Producer.WrapStream.{set_clock, lapsed}
use tap.Producer.Registry.{get}
use tap.Producer.Server.Host.{
  Host, store, find_channel, commit_endpoint, is_commitment_error, is_protocol_error,
}

abbrev pub ChannelMap : Type 0 → Type 0
ChannelMap K = K → Option (ActiveChannel K)

module _ {K : Type 0} where
  -- What a stream does to its channel.
  pub data Progress (c c' : ActiveChannel K) : Type 0 where
    token : c' ≡ note_token c → Progress c c'
    clock : (now : ℤ) → c' ≡ set_clock now c → Progress c c'
    halt : c' ≡ lapsed c → Progress c c'

  pub Progress-same_id : {c c' : ActiveChannel K} → Progress c c' → c'.channel_id ≡ c.channel_id
  unfolding note_token mark_halted
  Progress-same_id (token e) = rw e refl
  Progress-same_id (clock now e) = rw e refl
  Progress-same_id (halt e) = rw e refl

module _ {K : Type 0} ⦃keys : Keys K⦄ where
  -- `w` is `v` but for the value at `k`.
  abbrev pub IsUpdate : K → Option (ActiveChannel K) → ChannelMap K → ChannelMap K → Type 0
  IsUpdate k o v w = (j : K) → w j ≡ (if k ==ₖ j then o else v j)

module _ {K SK : Type 0} ⦃keys : Keys K⦄ (ed : Ed25519 SK) where
  pub data Move (v w : ChannelMap K) : Type 0 where
    keep : ((j : K) → w j ≡ v j) → Move v w
    open_new :
        (c : ActiveChannel K)
        → c.last_commitment ≡ none
        → c.tokens_delivered ≡ 0
        → IsUpdate c.channel_id (some c) v w
        → Move v w
    commit :
        (k : K) (now : ℤ) (c : ActiveChannel K) (s : SignedCommitment K)
        → v k ≡ some c
        → Accepts ed c s
        → IsUpdate k (some (note_commit now s c)) v w
        → Move v w
    progress :
        (k : K) (c c' : ActiveChannel K)
        → v k ≡ some c
        → Progress c c'
        → IsUpdate k (some c') v w
        → Move v w
    forgets : (k : K) → IsUpdate k none v w → Move v w

  pub data Moves (v : ChannelMap K) : ChannelMap K → Type 0 where
    stop : Moves v v
    step : {u w : ChannelMap K} → Moves v u → Move u w → Moves v w

module _ {K B : Type 0} ⦃keys : Keys K⦄ where
  open keys use {from_string}

  find_cases :
      (P : Host K → Type 0) (x_tap_channel : Text) (rest : ℕ → Action (Host K) B) (h : Host K)
      → P h
      → ((k : K) (ref : ℕ) → get k h.registry ≡ some ref → P (rest ref h).1)
      → P ((find_channel x_tap_channel >>= rest) h).1
  unfolding find_channel ◌>>=◌
  find_cases P x_tap_channel rest h raised given = named (from_string x_tap_channel)
    where
      found :
          (k : K) (o : Option ℕ)
          → get k h.registry ≡ o
          → P ((lift (or_raise o (http_exception 404 "unknown channel")) >>= rest) h).1
      found k none e = raised
      found k (some ref) e = given k ref e

      named :
          (o : Option K)
          → P
              (((lift {S = Host K} (or_raise o value_error) >>= λ k.
                    gets (λ (x : Host K). get k x.registry) >>= λ found.
                    lift (or_raise found (http_exception 404 "unknown channel")))
                  >>= rest)
                h).1
      named none = raised
      named (some k) = found k (get k h.registry) refl

catch_as-ok :
    {A : Type 0} (test : Exception → Bool) (e : Exception) (r : Result A) {a : A}
    → catch_as test e r ≡ ok a
    → r ≡ ok a
catch_as-ok test e (ok a) h = h
catch_as-ok test e (err x) h = ground arith

module _ {K SK : Type 0} ⦃keys : Keys K⦄ (ed : Ed25519 SK) where
  -- What a post does to the host.
  abbrev pub HasPosted : Host K → Host K → Type 0
  HasPosted h h' =
      (h' ≡ h)
      ⊎ ((k : K) × (now : ℤ) × (ref : ℕ) × (signed : SignedCommitment K) × (get k h.registry
            ≡ some ref)
          × Accepts ed (h.heap ref) signed
          × (h' ≡ store ref (note_commit now signed (h.heap ref)) h))

  -- The end of the endpoint, on the object at `ref`.
  abbrev take_commitment : ℤ → SignedCommitment K → ℕ → Action (Host K) ℕ
  take_commitment now signed ref = do
    channel ← gets (λ h. h.heap ref)
    accepted ← lift (
        catch_as is_commitment_error (http_exception 409 "")
          (accept_commitment ed now channel signed))
    modify (store ref accepted)
    pure 204

  take_commitment-HasPosted :
      (now : ℤ) (signed : SignedCommitment K) (h : Host K) (k : K) (ref : ℕ)
      → get k h.registry ≡ some ref
      → HasPosted h (take_commitment now signed ref h).1
  unfolding ◌>>=◌ ◌>>◌
  take_commitment-HasPosted now signed h k ref g =
      let outcome = accept_commitment ed now (h.heap ref) signed in
      lift_cases (HasPosted h) (catch_as is_commitment_error (http_exception 409 "") outcome)
        (λ accepted. modify (store ref accepted) >> pure 204) h (inl refl)
        (λ accepted a.
          let returned = catch_as-ok is_commitment_error (http_exception 409 "") outcome a in
          let (fits, is) = accept_commitment_sound ed now (h.heap ref) signed returned in
          inr (k, now, ref, signed, g, fits, ap (λ x. store ref x h) is))

  pub commit_endpoint-HasPosted :
      (wire : Wire) (now : ℤ) (x_tap_commit x_tap_channel : Text) (h : Host K)
      → HasPosted h (commit_endpoint ed wire now x_tap_commit x_tap_channel h).1
  unfolding commit_endpoint
  commit_endpoint-HasPosted wire now x_tap_commit x_tap_channel h =
      lift_cases (HasPosted h)
        (catch_as is_protocol_error (http_exception 400 "") (decode_commitment wire x_tap_commit))
        (λ signed. find_channel x_tap_channel >>= take_commitment now signed) h (inl refl)
        (λ signed _.
          find_cases (HasPosted h) x_tap_channel (take_commitment now signed) h (inl refl)
            (take_commitment-HasPosted now signed h))
