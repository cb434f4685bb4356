-- ===== src/Producer/Registry.antt =====
-- sdk/python/tap/producer/registry.py. Each method holds the lock throughout, so it is one step.
-- The registry stores references to channel objects, so the value type is open.
use tap.Base.{◌≡◌, refl, Option, none, some, List, [], ◌∷◌, arith, map, if◌then◌else◌}
use tap.External.{Keys, ◌==ₖ◌}

abbrev pub Registry : Type 0 → Type 0 → Type 0
Registry K V = List (K × V)

module _ {K V : Type 0} ⦃keys : Keys K⦄ where
  open keys use {beq_iff}

  -- `self._channels[id] = channel`
  unfoldable pub put : K → V → Registry K V → Registry K V
  put k v [] = (k, v) ∷ []
  put k v ((j, w) ∷ rest) = if j ==ₖ k then (k, v) ∷ rest else (j, w) ∷ put k v rest

  unfoldable pub get : K → Registry K V → Option V
  get k [] = none
  get k ((j, w) ∷ rest) = if j ==ₖ k then some w else get k rest

  -- `self._channels.pop(id, None)`; a dictionary has each key once.
  unfoldable pub remove : K → Registry K V → Registry K V
  remove k [] = []
  remove k ((j, w) ∷ rest) = let later = remove k rest in if j ==ₖ k then later else (j, w) ∷ later

  unfoldable pub snapshot : Registry K V → List V
  snapshot = map (λ e. e.1)

  pub get-put :
      (j k : K) (v : V) (r : Registry K V)
      → get j (put k v r) ≡ (if k ==ₖ j then some v else get j r)
  unfolding get put
  get-put j k v [] = refl
  get-put j k v ((i, w) ∷ r) =
      ground (arith, beq_iff k j, beq_iff i k, beq_iff i j, get-put j k v r)

  pub get-remove :
      (j k : K) (r : Registry K V) → get j (remove k r) ≡ (if k ==ₖ j then none else get j r)
  unfolding get remove
  get-remove j k [] = ground arith
  get-remove j k ((i, w) ∷ r) =
      ground (arith, beq_iff k j, beq_iff i k, beq_iff i j, get-remove j k r)
