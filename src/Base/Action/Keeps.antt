-- ===== src/Base/Action/Keeps.antt =====
-- Invariants of actions, with one rule for each way to build an action.
use tap.Base.{◌≡◌, refl, Bool, true, false, if◌then◌else◌}
use tap.Base.Exceptions.{Exception, Result, ok, err}
use tap.Base.Action.{Action, pure, raise, lift, gets, modify, when, ◌>>=◌, ◌>>◌}

-- The action keeps `P`, whether it returns or raises.
pub record Keeps {S A : Type 0} (P : S → Type 0) (m : Action S A) : Type 0 where
  pub at : (before : S) → P before → P (m before).1

module _ {S A : Type 0} {P : S → Type 0} where
  pub Keeps-if :
      (b : Bool) (m n : Action S A) → Keeps P m → Keeps P n → Keeps P (if b then m else n)
  Keeps-if true m n km kn = km
  Keeps-if false m n km kn = kn

  pub Keeps-gets : (read : S → A) → Keeps P (gets read)
  unfolding gets
  Keeps-gets read = record { at = λ _ kept. kept }

  pub Keeps-lift : (outcome : Result A) → Keeps P (lift outcome)
  unfolding lift
  Keeps-lift outcome = record { at = λ _ kept. kept }

module _ {S : Type 0} {P : S → Type 0} where
  pub Keeps-modify : (f : S → S) → ((s : S) → P s → P (f s)) → Keeps P (modify f)
  unfolding modify
  Keeps-modify f h = record { at = h }

module _ {S A : Type 0} {P : S → Type 0} where
  pub Keeps-raise : (e : Exception) → Keeps P (raise {A = A} e)
  unfolding raise
  Keeps-raise e = record { at = λ _ kept. kept }

  pub Keeps-pure : (a : A) → Keeps P (pure a)
  unfolding pure
  Keeps-pure a = record { at = λ _ kept. kept }

module _ {S : Type 0} {P : S → Type 0} where
  pub Keeps-when : (b : Bool) (m : Action S (Unit {0})) → Keeps P m → Keeps P (when b m)
  unfolding when
  Keeps-when true m km = km
  Keeps-when false m km = Keeps-pure tt

module _ {S A B : Type 0} {P : S → Type 0} where
  -- The rest of a block, from what its first action returned or raised.
  after-Keeps :
      (rest : A → Action S B)
      → ((a : A) → Keeps P (rest a))
      → (outcome : Result A) → Keeps P (lift outcome >>= rest)
  unfolding ◌>>=◌
  after-Keeps rest kept (err e) = record { at = λ _ h. h }
  after-Keeps rest kept (ok a) = kept a

  pub Keeps-bind :
      (first : Action S A) (rest : A → Action S B)
      → Keeps P first
      → ((a : A) → Keeps P (rest a))
      → Keeps P (first >>= rest)
  unfolding ◌>>=◌
  Keeps-bind first rest kept_first kept_rest = record {
    at = λ s h. (after-Keeps rest kept_rest (first s).0).at (first s).1 (kept_first.at s h);
  }

module _ {S B : Type 0} {P : S → Type 0} where
  pub Keeps-then :
      (m : Action S (Unit {0})) (k : Action S B) → Keeps P m → Keeps P k → Keeps P (m >> k)
  unfolding ◌>>◌
  Keeps-then m k km kk = Keeps-bind m (λ _. k) km (λ _. kk)

pub ruleset keeps_rules = (
  Keeps-pure, Keeps-raise, Keeps-lift, Keeps-gets, Keeps-if, Keeps-modify, Keeps-when, Keeps-bind,
  Keeps-then,
)

module _ {S A B : Type 0} where
  -- A block from its first step on, which raises and leaves the state, or gives the rest a value.
  pub lift_cases :
      (P : S → Type 0) (outcome : Result A) (rest : A → Action S B) (s : S)
      → P s
      → ((a : A) → outcome ≡ ok a → P (rest a s).1)
      → P ((lift outcome >>= rest) s).1
  unfolding ◌>>=◌
  lift_cases P (err e) rest s raised given = raised
  lift_cases P (ok a) rest s raised given = given a refl
