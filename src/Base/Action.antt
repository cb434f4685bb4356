-- ===== src/Base/Action.antt =====
-- A coroutine or method that mutates an object and may raise. What was written before an exception
-- stays written, so the state comes back beside it too.
pub mod Keeps
pub mod Returns
use tap.Base.{Bool, true, false}
use tap.Base.Exceptions.{Exception, Result, ok, err}

abbrev pub Action : Type 0 → Type 0 → Type 0
Action S A = S → Result A × S

module _ {S A : Type 0} where
  unfoldable pub pure : A → Action S A
  pure a s = (ok a, s)

  unfoldable pub raise : Exception → Action S A
  raise e s = (err e, s)

  unfoldable pub lift : Result A → Action S A
  lift r s = (r, s)

  unfoldable pub gets : (S → A) → Action S A
  gets f s = (ok (f s), s)

module _ {S : Type 0} where
  unfoldable pub modify : (S → S) → Action S (Unit {0})
  modify f s = (ok tt, f s)

  unfoldable pub when : Bool → Action S (Unit {0}) → Action S (Unit {0})
  unfolding pure
  when true m = m
  when false m = pure tt

module _ {S A B : Type 0} where
  abbrev continue : Result A → (A → Action S B) → Action S B
  continue (ok a) f s = f a s
  continue (err e) f s = (err e, s)

  infixl 5 ◌>>=◌
  -- Opening this opens the actions above too.
  unfoldable pub ◌>>=◌ : Action S A → (A → Action S B) → Action S B
  unfolding pure raise lift gets modify when
  ◌>>=◌ m f s = let (r, s') = m s in continue r f s'

module _ {S B : Type 0} where
  infixl 5 ◌>>◌
  unfoldable pub ◌>>◌ : Action S (Unit {0}) → Action S B → Action S B
  unfolding ◌>>=◌
  m >> k = m >>= λ _. k

module _ {S A : Type 0} where
  -- `try: ... finally: ...`, where what the cleanup raises replaces the outcome.
  abbrev pub try_finally : Action S A → Action S (Unit {0}) → Action S A
  try_finally body cleanup s =
      let (outcome, after) = body s in
      let (closed, last) = cleanup after in (elim closed [ ok _ ↦ outcome | err e ↦ err e ], last)
