-- ===== src/Base/Action/Returns.antt =====
-- What holds when an action has returned, with one rule for each way to build an action.
use tap.Base.{◌≡◌, refl, Bool, true, false, if◌then◌else◌}
use tap.Base.Exceptions.{Exception, Result, ok, err, ok-injective}
use mathlib.Core.Path.{subst}
use tap.Base.Action.{Action, pure, raise, lift, ◌>>=◌, ◌>>◌}

-- If the action returns, `Q` holds of what it returned and of the state.
pub record Returns {S A : Type 0} (Q : A → S → Type 0) (m : Action S A) : Type 0 where
  pub at : (before : S) (a : A) → (m before).0 ≡ ok a → Q a (m before).1

module _ {S A : Type 0} {Q : A → S → Type 0} where
  pub Returns-pure : (a : A) → ((s : S) → Q a s) → Returns Q (pure a)
  unfolding pure
  Returns-pure a h = record { at = λ s b e. subst (λ x. Q x s) (ok-injective e) (h s) }

  pub Returns-raise : (e : Exception) → Returns Q (raise e)
  unfolding raise
  Returns-raise e = record { at = λ s b h. cc }

  pub Returns-if :
      (b : Bool) (m n : Action S A) → Returns Q m → Returns Q n → Returns Q (if b then m else n)
  Returns-if true m n rm rn = rm
  Returns-if false m n rm rn = rn

module _ {S A B : Type 0} (P : A → S → Type 0) (Q : B → S → Type 0) where
  after-Returns :
      (rest : A → Action S B)
      → ((a : A) (s : S) → P a s → (b : B) → (rest a s).0 ≡ ok b → Q b (rest a s).1)
      → (outcome : Result A) (s : S) → ((a : A) → outcome ≡ ok a → P a s)
      → (b : B) → ((lift outcome >>= rest) s).0 ≡ ok b
      → Q b ((lift outcome >>= rest) s).1
  unfolding ◌>>=◌
  after-Returns rest h (err e) s p b r = cc
  after-Returns rest h (ok a) s p b r = h a s (p a refl) b r

module _ {S A B : Type 0} {P : A → S → Type 0} {Q : B → S → Type 0} where
  -- What holds after the first action is passed on.
  pub Returns-chain :
      (first : Action S A) (rest : A → Action S B)
      → Returns P first
      → ((a : A) (s : S) → P a s → (b : B) → (rest a s).0 ≡ ok b → Q b (rest a s).1)
      → Returns Q (first >>= rest)
  unfolding ◌>>=◌
  Returns-chain first rest p h = record {
    at = λ s b r. after-Returns P Q rest h (first s).0 (first s).1 (λ a e. p.at s a e) b r;
  }

module _ {S A B : Type 0} {Q : B → S → Type 0} where
  -- The last action decides.
  pub Returns-bind :
      (first : Action S A) (rest : A → Action S B)
      → ((a : A) → Returns Q (rest a))
      → Returns Q (first >>= rest)
  Returns-bind first rest h =
      Returns-chain {P = λ _ _. Unit} first rest (record { at = λ _ _ _. tt })
        (λ a s _ b r. (h a).at s b r)

module _ {S B : Type 0} {Q : B → S → Type 0} where
  pub Returns-then :
      (first : Action S (Unit {0})) (rest : Action S B) → Returns Q rest → Returns Q (first >> rest)
  unfolding ◌>>◌
  Returns-then first rest h = Returns-bind first (λ _. rest) (λ _. h)
