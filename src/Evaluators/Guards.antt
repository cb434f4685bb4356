-- ===== src/Evaluators/Guards.antt =====
-- sdk/python/tap/evaluators/length_cap.py and content_policy.py. The name of a cap shows its limit
-- by `str_int`, Python's `str` of an integer. A compiled pattern is its `search`, as a test; the
-- pattern of a plain string, escaped and without case, is the argument `ignore_case`.
use tap.Base.{
  ◌≡◌, Bool, some, List, [], ◌∷◌, ◌++◌, arith, length, length-append, if◌then◌else◌, map,
}
use mathlib.Core.Path.{subst}
use tap.Base.Int.{ℤ, pos, leb_ℤ}
use tap.Base.Text.{Text, codes}
use tap.Base.Exceptions.{Result, ok, err, value_error, raise_if, ◌>>◌, >>=-eq-ok, ok-injective}
use tap.Evaluators.Decision.{Decision, halt, «continue», Evaluator}

-- The evaluator that `length_cap` returns.
abbrev pub cap : (ℤ → Text) → ℤ → Evaluator
cap str_int max_chars = record {
  name = some (codes "length_cap(" ++ (str_int max_chars ++ codes ")"));
  run = λ accumulated. if leb_ℤ max_chars (pos (length accumulated)) then halt else «continue»;
}

unfoldable pub length_cap : (ℤ → Text) → ℤ → Result Evaluator
length_cap str_int max_chars = do
  raise_if (leb_ℤ max_chars (pos 0)) value_error
  ok (cap str_int max_chars)

pub data Pattern : Type 0 where
  compiled : (Text → Bool) → Pattern
  plain : Text → Pattern

abbrev pub search_of : (Text → Text → Bool) → Pattern → Text → Bool
search_of ignore_case (compiled search) = search
search_of ignore_case (plain t) = ignore_case t

unfoldable pub search_all : List (Text → Bool) → Text → Decision
search_all [] accumulated = «continue»
search_all (p ∷ patterns) accumulated =
    let later = search_all patterns accumulated in if p accumulated then halt else later

unfoldable pub content_policy : (Text → Text → Bool) → List Pattern → Result Evaluator
unfolding search_all
content_policy ignore_case [] = err value_error
content_policy ignore_case (p ∷ banned) = ok (record {
  name = some (codes "content_policy");
  run = search_all (map (search_of ignore_case) (p ∷ banned));
})

cap_stays :
    (max_chars : ℤ) (seen more : Text)
    → (if leb_ℤ max_chars (pos (length seen)) then halt else «continue») ≡ halt
    → (if leb_ℤ max_chars (pos (length (seen ++ more))) then halt else «continue») ≡ halt
cap_stays max_chars seen more h = let longer = length-append seen more in ground arith

-- Once the cap has halted a stream, no further output undoes it.
pub length_cap_stays :
    (str_int : ℤ → Text) (max_chars : ℤ) (e : Evaluator) (seen more : Text)
    → length_cap str_int max_chars ≡ ok e
    → e.run seen ≡ halt
    → e.run (seen ++ more) ≡ halt
unfolding length_cap
length_cap_stays str_int max_chars e seen more h halted =
    let kept = >>=-eq-ok (raise_if (leb_ℤ max_chars (pos 0)) value_error) _ h in
    subst (λ (x : Evaluator). x.run seen ≡ halt → x.run (seen ++ more) ≡ halt)
      (ok-injective (kept.2)) (λ w. cap_stays max_chars seen more w) halted
