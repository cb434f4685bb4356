-- ===== src/Tests/EvaluatorRuns.antt =====
-- The evaluators, on concrete texts.
use tap.Base.{◌≡◌, refl, List, [], ◌∷◌, ◌++◌, any}
use tap.Base.Int.{pos}
use tap.Base.Text.{Text, codes}
use tap.Base.Exceptions.{ok}
use tap.Evaluators.Decision.{halt, Evaluator, is_halt}
use tap.Evaluators.Guards.{length_cap, cap, length_cap_stays}
use tap.Evaluators.Compose.{compose, composed, compose_halts}

abbrev shown : Text
shown = codes "3"

abbrev cap_of_3 : Evaluator
cap_of_3 = cap (λ _. shown) (pos 3)

cap_made : length_cap (λ _. shown) (pos 3) ≡ ok cap_of_3
unfolding length_cap
cap_made = refl

cap_halts : cap_of_3.run (codes "abc") ≡ halt
cap_halts = refl

length_cap_stays_example : cap_of_3.run (codes "abc" ++ codes "d") ≡ halt
length_cap_stays_example =
    length_cap_stays (λ _. shown) (pos 3) cap_of_3 (codes "abc") (codes "d") cap_made cap_halts

abbrev both : List Evaluator
both = cap_of_3 ∷ cap_of_3 ∷ []

both_made : compose both ≡ ok (composed both)
unfolding compose
both_made = refl

compose_halts_example :
    is_halt ((composed both).run (codes "ab")) ≡ any (λ e. is_halt (e.run (codes "ab"))) both
compose_halts_example = compose_halts both (composed both) (codes "ab") both_made
