-- ===== src/Producer/Server/Serving/View.antt =====
-- A host as a map from the ids of its channels to the channels, without the heap.
use tap.Base.{ℕ, ◌<◌, ◌≡◌, refl, Option, none, some, arith, if◌then◌else◌}
use tap.External.{Keys, ◌==ₖ◌}
use tap.Producer.Channel.{ActiveChannel}
use tap.Producer.Registry.{get, remove, get-put, get-remove}
use tap.Producer.Server.Host.{Host, store, add_channel}

module _ {K : Type 0} where
  abbrev pub at_ref : Host K → Option ℕ → Option (ActiveChannel K)
  at_ref h none = none
  at_ref h (some ref) = some (h.heap ref)

module _ {K : Type 0} ⦃keys : Keys K⦄ where
  abbrev pub view : Host K → K → Option (ActiveChannel K)
  view h k = at_ref h (get k h.registry)

  -- Each id stands for an object of its own, which has this id.
  pub record IsHost (h : Host K) : Type 0 where
    pub own_id : (k : K) (ref : ℕ) → get k h.registry ≡ some ref → (h.heap ref).channel_id ≡ k
    pub allocated : (k : K) (ref : ℕ) → get k h.registry ≡ some ref → ref < h.next

  pub store-IsHost :
      (ref : ℕ) (c : ActiveChannel K) (h : Host K)
      → c.channel_id ≡ (h.heap ref).channel_id
      → IsHost h
      → IsHost (store ref c h)
  unfolding store
  store-IsHost ref c h e i = record {
    own_id = λ k r g. let own = i.own_id k r g in ground arith;
    allocated = i.allocated;
  }

  pub add_channel-IsHost : (c : ActiveChannel K) (h : Host K) → IsHost h → IsHost (add_channel c h)
  unfolding add_channel
  add_channel-IsHost c h i = record {
    own_id = λ k r g. ground (
      arith,
      get-put k c.channel_id h.next h.registry,
      keys.beq_iff c.channel_id k,
      i.own_id k r,
      i.allocated k r,
    );
    allocated = λ k r g. ground (
      arith,
      get-put k c.channel_id h.next h.registry,
      keys.beq_iff c.channel_id k,
      i.allocated k r,
    );
  }

  pub remove-IsHost :
      (k : K) (h : Host K) → IsHost h → IsHost (record h { registry = remove k h.registry })
  remove-IsHost k h i = record {
    own_id = λ j r g. ground (arith, get-remove j k h.registry, i.own_id j r);
    allocated = λ j r g. ground (arith, get-remove j k h.registry, i.allocated j r);
  }

  -- A change of the object at `ref` shows where its id stands for it.
  pub view-store :
      (ref : ℕ) (c : ActiveChannel K) (h : Host K) (k j : K)
      → IsHost h
      → get k h.registry ≡ some ref
      → view (store ref c h) j ≡ (if k ==ₖ j then some c else view h j)
  unfolding store
  view-store ref c h k j i g = go (get j h.registry) refl
    where
      go :
          (o : Option ℕ)
          → get j h.registry ≡ o
          → at_ref (store ref c h) o ≡ (if k ==ₖ j then some c else at_ref h o)
      go none e = ground (arith, keys.beq_iff k j)
      go (some r) e = ground (arith, keys.beq_iff k j, i.own_id j r e, i.own_id k ref g)

  -- An object that no id stands for is not seen.
  pub view-store_lost :
      (ref : ℕ) (c : ActiveChannel K) (h : Host K) (j : K)
      → ((k : K) → get k h.registry ≡ some ref → ⊥)
      → view (store ref c h) j ≡ view h j
  unfolding store
  view-store_lost ref c h j lost = go (get j h.registry) refl
    where
      go : (o : Option ℕ) → get j h.registry ≡ o → at_ref (store ref c h) o ≡ at_ref h o
      go none e = refl
      go (some r) e = let gone = lost j in ground arith

  pub view-add_channel :
      (c : ActiveChannel K) (h : Host K) (j : K)
      → IsHost h
      → view (add_channel c h) j ≡ (if c.channel_id ==ₖ j then some c else view h j)
  unfolding add_channel
  view-add_channel c h j i = go (get j h.registry) refl
    where
      go :
          (o : Option ℕ)
          → get j h.registry ≡ o
          → view (add_channel c h) j ≡ (if c.channel_id ==ₖ j then some c else at_ref h o)
      go none e = rw (get-put j c.channel_id h.next h.registry) (ground arith)
      go (some r) e =
          let below = i.allocated j r e in
          rw (get-put j c.channel_id h.next h.registry) (ground arith)

  pub view-remove :
      (k : K) (h : Host K) (j : K)
      → view (record h { registry = remove k h.registry }) j ≡ (if k ==ₖ j then none else view h j)
  view-remove k h j = rw (get-remove j k h.registry) (ground arith)
