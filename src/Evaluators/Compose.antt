-- ===== src/Evaluators/Compose.antt =====
-- sdk/python/tap/evaluators/compose.py
use tap.Base.{◌≡◌, refl, some, List, [], ◌∷◌, ◌++◌, arith, any, if◌then◌else◌}
use mathlib.Core.Option.{get_or}
use mathlib.Core.Path.{subst}
use tap.Base.Text.{Text, codes}
use tap.Base.Exceptions.{Result, ok, err, value_error, ok-injective}
use tap.Evaluators.Decision.{Decision, halt, «continue», Evaluator, is_halt}

-- `",".join(names)`
unfoldable pub join_names : List Evaluator → Text
join_names [] = []
join_names (e ∷ []) = get_or e.name (codes "anonymous")
join_names (e ∷ f ∷ es) = get_or e.name (codes "anonymous") ++ 44 ∷ join_names (f ∷ es)

unfoldable pub evaluate_all : List Evaluator → Text → Decision
evaluate_all [] accumulated = «continue»
evaluate_all (e ∷ evaluators) accumulated =
    let later = evaluate_all evaluators accumulated in
    if is_halt (e.run accumulated) then halt else later

-- The evaluator that `compose` returns.
unfoldable pub composed : List Evaluator → Evaluator
unfolding join_names evaluate_all
composed evaluators = record {
  name = some (codes "compose(" ++ (join_names evaluators ++ codes ")"));
  run = evaluate_all evaluators;
}

unfoldable pub compose : List Evaluator → Result Evaluator
unfolding composed
compose [] = err value_error
compose (e ∷ evaluators) = ok (composed (e ∷ evaluators))

evaluate_all-any :
    (es : List Evaluator) (t : Text) → is_halt (evaluate_all es t) ≡ any (λ e. is_halt (e.run t)) es
unfolding evaluate_all
evaluate_all-any [] t = refl
evaluate_all-any (e ∷ es) t = ground (arith, evaluate_all-any es t)

-- A composition halts on a text exactly when one of its evaluators does.
pub compose_halts :
    (es : List Evaluator) (c : Evaluator) (t : Text)
    → compose es ≡ ok c
    → is_halt (c.run t) ≡ any (λ e. is_halt (e.run t)) es
unfolding compose
compose_halts [] c t h = cc
compose_halts (e ∷ es) c t h =
    subst (λ (x : Evaluator). is_halt (x.run t) ≡ any (λ d. is_halt (d.run t)) (e ∷ es))
      (ok-injective h) (evaluate_all-any (e ∷ es) t)
