-- ===== src/Demo/Runner/Sorted.antt =====
-- The list of signatures that demo/runner.py shows is in order.
use tap.Base.{List, [], ◌∷◌, All, arith, if-cases}
use mathlib.Core.List.{Perm}
use mathlib.Core.List.Perm
use tap.Base.Int.{◌≤ℤ◌, leb_ℤ}
use tap.Chain.Rpc.{SignatureItem}
use tap.Demo.Runner.{insert, sort}

-- Each item before those of no lower slot.
abbrev pub IsSorted : List SignatureItem → Type 0
IsSorted [] = Unit
IsSorted (s ∷ sigs) = All (λ (t : SignatureItem). s.slot ≤ℤ t.slot) sigs × IsSorted sigs

below-All :
    (s t : SignatureItem) (sigs : List SignatureItem)
    → s.slot ≤ℤ t.slot
    → All (λ (u : SignatureItem). t.slot ≤ℤ u.slot) sigs
    → All (λ (u : SignatureItem). s.slot ≤ℤ u.slot) sigs
below-All s t [] le h = tt
below-All s t (u ∷ sigs) le h = (omega (arith, le, h.0), below-All s t sigs le h.1)

insert-All :
    (P : SignatureItem → Type 0) (s : SignatureItem) (sigs : List SignatureItem)
    → P s
    → All P sigs
    → All P (insert s sigs)
unfolding insert
insert-All P s [] p h = (p, tt)
insert-All P s (t ∷ sigs) p h =
    if-cases (All P) (leb_ℤ s.slot t.slot) (λ _. (p, h)) (λ _. (h.0, insert-All P s sigs p h.1))

insert-IsSorted :
    (s : SignatureItem) (sigs : List SignatureItem) → IsSorted sigs → IsSorted (insert s sigs)
unfolding insert
insert-IsSorted s [] h = (tt, tt)
insert-IsSorted s (t ∷ sigs) h =
    if-cases IsSorted (leb_ℤ s.slot t.slot)
      (λ e. let le : s.slot ≤ℤ t.slot = ground (arith, e) in ((le, below-All s t sigs le h.0), h))
      (λ e. (
        insert-All (λ (u : SignatureItem). t.slot ≤ℤ u.slot) s sigs (ground (arith, e)) h.0,
        insert-IsSorted s sigs h.1,
      ))

insert-Perm : (s : SignatureItem) (sigs : List SignatureItem) → Perm (insert s sigs) (s ∷ sigs)
unfolding insert
insert-Perm s [] = Perm.refl (s ∷ [])
insert-Perm s (t ∷ sigs) =
    if-cases (λ r. Perm r (s ∷ t ∷ sigs)) (leb_ℤ s.slot t.slot) (λ _. Perm.refl (s ∷ t ∷ sigs))
      (λ _. Perm.trans (Perm.cons t (insert-Perm s sigs)) (Perm.swap s t sigs))

-- The signatures are shown oldest first: the items of the answer, each as often as it was there, by
-- their slots.
sort-IsSorted : (sigs : List SignatureItem) → IsSorted (sort sigs) × Perm (sort sigs) sigs
unfolding sort
sort-IsSorted [] = (tt, Perm.refl [])
sort-IsSorted (s ∷ sigs) =
    let (sorted, same) = sort-IsSorted sigs in
    (
      insert-IsSorted s (sort sigs) sorted,
      Perm.trans (insert-Perm s (sort sigs)) (Perm.cons s same),
    )
