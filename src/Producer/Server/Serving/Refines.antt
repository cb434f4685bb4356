-- ===== src/Producer/Server/Serving/Refines.antt =====
-- A host, with its heap of shared objects and its registry, behaves as a map from ids to channels.
use tap.Base.{
  ℕ, ◌≡◌, refl, sym, ◌∙◌, ap, Option, none, some, arith, ◌⊎◌, inl, inr, ◌==◌, Bool-cases,
}
use mathlib.Core.Path.{subst}
use tap.Base.Int.{ℤ}
use tap.Base.Text.{Text}
use tap.Base.Exceptions.{Result}
use tap.Base.Action.Keeps.{Keeps, keeps_rules}
use tap.External.{Keys, Ed25519}
use tap.Json.{Wire}
use tap.X402.Payment.{OpenChannelPayment}
use tap.Chain.Pda.{Solana}
use tap.Producer.Channel.{ActiveChannel, note_commit}
use tap.Producer.Registry.{get}
use tap.Producer.Server.{Config}
use tap.Producer.Server.Host.{
  Host, store, channel_from, add_channel, open_channel_from_payment, settle_and_cleanup, forget,
}
use tap.Producer.Server.Serving.{
  HostStep, posts, pays, emits, resumes, halts, ends, HostReach, here, later,
}
use tap.Producer.Server.Serving.View.{
  view, IsHost, store-IsHost, add_channel-IsHost, remove-IsHost, view-store, view-store_lost,
  view-add_channel, view-remove,
}
use tap.Producer.Server.Serving.Moves.{
  ChannelMap, Progress, token, clock, halt, Progress-same_id, keep, open_new, commit, progress,
  forgets, Moves, stop, step, HasPosted, commit_endpoint-HasPosted,
}

module _ {K : Type 0} ⦃keys : Keys K⦄ where
  -- The object at `ref` is the one that its id stands for, or no id stands for it.
  shown_or_lost :
      (ref : ℕ) (h : Host K)
      → IsHost h
      → (get (h.heap ref).channel_id h.registry ≡ some ref)
        ⊎ ((k : K) → get k h.registry ≡ some ref → ⊥)
  shown_or_lost ref h i = go (get (h.heap ref).channel_id h.registry) refl
    where
      own :
          (k : K) (o : Option ℕ)
          → get (h.heap ref).channel_id h.registry ≡ o
          → get k h.registry ≡ some ref
          → o ≡ some ref
      own k o e g = sym e ∙ ap (λ j. get j h.registry) (i.own_id k ref g) ∙ g

      go :
          (o : Option ℕ)
          → get (h.heap ref).channel_id h.registry ≡ o
          → (o ≡ some ref) ⊎ ((k : K) → get k h.registry ≡ some ref → ⊥)
      go none e = inr (λ k g. let same = own k none e g in cc)
      go (some r) e = elim (Bool-cases (r == ref)) [
        | inl is ↦ inl (ground arith)
        | inr isnt ↦ inr (λ k g. let same = own k (some r) e g in ground arith)
      ]

module _ {K SK : Type 0} ⦃keys : Keys K⦄ (ed : Ed25519 SK) where
  -- A well-formed host that the map has followed from `v` on.
  pub record IsTracked (v : ChannelMap K) (h : Host K) : Type 0 where
    pub is_host : IsHost h
    pub moves : Moves ed v (view h)

  store-IsTracked :
      (v : ChannelMap K) (ref : ℕ) (c : ActiveChannel K) (h : Host K)
      → Progress (h.heap ref) c
      → IsTracked v h
      → IsTracked v (store ref c h)
  store-IsTracked v ref c h p t = record {
    is_host = store-IsHost ref c h (Progress-same_id p) t.is_host;
    moves = step t.moves (elim (shown_or_lost ref h t.is_host) [
      | inl shown ↦
          progress (h.heap ref).channel_id (h.heap ref) c (rw shown refl) p
            (λ j. view-store ref c h (h.heap ref).channel_id j t.is_host shown)
      | inr lost ↦ keep (λ j. view-store_lost ref c h j lost)
    ]);
  }

  add_channel-IsTracked :
      (v : ChannelMap K) (c : ActiveChannel K) (h : Host K)
      → c.last_commitment ≡ none
      → c.tokens_delivered ≡ 0
      → IsTracked v h
      → IsTracked v (add_channel c h)
  add_channel-IsTracked v c h fresh none_sent t = record {
    is_host = add_channel-IsHost c h t.is_host;
    moves = step t.moves (open_new c fresh none_sent (λ j. view-add_channel c h j t.is_host));
  }

  HasPosted-IsTracked :
      (v : ChannelMap K) (h h' : Host K) → HasPosted ed h h' → IsTracked v h → IsTracked v h'
  unfolding note_commit
  HasPosted-IsTracked v h h' (inl e) t = subst (IsTracked v) (sym e) t
  HasPosted-IsTracked v h h' (inr (k, now, ref, signed, g, fits, e)) t =
      let c' = note_commit now signed (h.heap ref) in
      subst (IsTracked v) (sym e) (record {
        is_host = store-IsHost ref c' h refl t.is_host;
        moves = step t.moves (
            commit k now (h.heap ref) signed (rw g refl) fits
              (λ j. view-store ref c' h k j t.is_host g));
      })

  module _ (solana : Solana K) (wire : Wire) (config : Config K) where
    forget-IsTracked :
        (v : ChannelMap K) (ref : ℕ) (h : Host K)
        → IsTracked v h
        → IsTracked v (forget solana wire config ref h)
    unfolding forget
    forget-IsTracked v ref h t = record {
      is_host = remove-IsHost (h.heap ref).channel_id h t.is_host;
      moves =
          step t.moves (forgets (h.heap ref).channel_id (view-remove (h.heap ref).channel_id h));
    }

    opened-IsTracked :
        (v : ChannelMap K) (now : ℤ) (channel_id consumer session_key consumer_usdc : K)
        (payment : OpenChannelPayment) (h : Host K)
        → IsTracked v h
        → IsTracked v
            (add_channel (channel_from now channel_id consumer session_key consumer_usdc payment) h)
    unfolding channel_from
    opened-IsTracked v now channel_id consumer session_key consumer_usdc payment h =
        add_channel-IsTracked v _ h refl refl

    module _ {T : Type 0} (parse_tx : Text → Option T) (send_raw : T → Result (Unit {0})) where
      open_channel_from_payment-IsTracked :
          (v : ChannelMap K) (now : ℤ) (header_value : Text)
          → Keeps
              (IsTracked v)
              (open_channel_from_payment solana wire config parse_tx send_raw now header_value)
      unfolding open_channel_from_payment
      open_channel_from_payment-IsTracked v now header_value =
          search (keeps_rules, opened-IsTracked) depth 24

      Step-IsTracked :
          {R : Type 0} (v : ChannelMap K) {h h' : Host K}
          → HostStep R ed solana wire config parse_tx send_raw h h'
          → IsTracked v h
          → IsTracked v h'
      unfolding settle_and_cleanup
      Step-IsTracked v {h = h} (posts now x_tap_commit x_tap_channel) t =
          HasPosted-IsTracked v h _
            (commit_endpoint-HasPosted ed wire now x_tap_commit x_tap_channel h) t
      Step-IsTracked v {h = h} (pays now header_value) t =
          (open_channel_from_payment-IsTracked v now header_value).at h t
      Step-IsTracked v {h = h} (emits ref) t = store-IsTracked v ref _ h (token refl) t
      Step-IsTracked v {h = h} (resumes now ref) t = store-IsTracked v ref _ h (clock now refl) t
      Step-IsTracked v {h = h} (halts ref) t = store-IsTracked v ref _ h (halt refl) t
      Step-IsTracked v {h = h} (ends submit ref) t = forget-IsTracked v ref h t

      Reach-IsTracked :
          {R : Type 0} {start h : Host K}
          → HostReach R ed solana wire config parse_tx send_raw start h
          → IsHost start
          → IsTracked (view start) h
      Reach-IsTracked here i = record { is_host = i; moves = stop }
      Reach-IsTracked {start = start} (later r s) i =
          Step-IsTracked (view start) s (Reach-IsTracked r i)

      -- A host implements a map from ids to channels. Whatever requests it serves, in whatever
      -- order, and however its streams run in between: if at the start each id stood for an object
      -- of its own, with this id, then it still does, and the map from ids to channels has changed
      -- by moves only, each of which opens a channel with no commitment, puts a commitment that the
      -- verifier accepts into one channel, has one channel's stream go on, or forgets one id.
      pub Reach-Moves :
          {R : Type 0} {start h : Host K}
          → HostReach R ed solana wire config parse_tx send_raw start h
          → IsHost start
          → IsHost h × Moves ed (view start) (view h)
      Reach-Moves r i = let t = Reach-IsTracked r i in (t.is_host, t.moves)
