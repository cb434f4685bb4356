-- ===== src/Evaluators/Scores.antt =====
-- sdk/python/tap/evaluators/repetition.py and topic_drift.py. A threshold is a fraction, and a
-- score a fraction with a positive denominator; they are compared across, where Python compares the
-- quotients in floating point. `lower` is `str.lower`.
use tap.Base.{
  ℕ, zero, suc, ◌+◌, ◌-◌, ◌*◌, Bool, ◌&&◌, ◌||◌, some, List, [], ◌∷◌, ◌++◌, length, take, drop, ltb,
  leb, ◌==◌, min, max, if◌then◌else◌,
}
use tap.Base.Text.{Text, codes, text_eq, text_in}
use tap.Base.Exceptions.{Result, ok, value_error, raise_if, ◌>>◌}
use tap.Evaluators.Decision.{Decision, halt, «continue», Evaluator}

pub record Fraction : Type 0 where
  pub num : ℕ
  pub den : ℕ

-- `Counter(items)[item]`
unfoldable pub count_of : Text → List Text → ℕ
count_of t [] = 0
count_of t (u ∷ us) = (if text_eq t u then 1 else 0) + count_of t us

-- `tail[i : i + 8]` for the `n` first positions.
unfoldable pub ngrams : ℕ → Text → List Text
ngrams zero tail = []
ngrams (suc n) tail = take 8 tail ∷ ngrams n (drop 1 tail)

-- The count of `most_common(1)`, over the items of a list.
unfoldable pub most_common : List Text → List Text → ℕ
unfolding count_of
most_common [] all = 0
most_common (t ∷ ts) all = max (count_of t all) (most_common ts all)

unfoldable pub is_repetitive : ℕ → Fraction → Text → Decision
unfolding ngrams most_common
is_repetitive window threshold accumulated =
    if ltb (length accumulated) window
    then «continue»
    else (let grams = ngrams (window - 8) (drop (length accumulated - window) accumulated) in
        if leb (threshold.num * window) (most_common grams grams * 8 * threshold.den)
        then halt
        else «continue»)

-- `repetition_guard(window=..., threshold=...)`
unfoldable pub repetition_guard : ℕ → Fraction → Result Evaluator
unfolding is_repetitive
repetition_guard window threshold = do
  raise_if (ltb window 32) value_error
  raise_if (threshold.num == 0 || ltb threshold.den threshold.num) value_error
  ok (record { name = some (codes "repetition_guard"); run = is_repetitive window threshold })

-- `[A-Za-z0-9']`
abbrev pub is_token_char : ℕ → Bool
is_token_char c =
    (leb b'A' c && leb c b'Z')
    || ((leb b'a' c && leb c b'z') || ((leb b'0' c && leb c b'9') || c == 39))

-- `findall`; `run` is the token that is being read, backwards.
abbrev flush : Text → List Text → List Text
flush [] ts = ts
flush (c ∷ run) ts = (c ∷ run) ∷ ts

unfoldable pub tokens : Text → Text → List Text
tokens run [] = flush run []
tokens run (c ∷ s) =
    let longer = tokens (run ++ c ∷ []) s in
    let ended = tokens [] s in if is_token_char c then longer else flush run ended

-- The keys of a `Counter`.
unfoldable pub distinct : List Text → List Text
distinct [] = []
distinct (t ∷ ts) = let rest = distinct ts in if text_in t ts then rest else t ∷ rest

-- `sum((ref & acc).values())` over the given keys.
unfoldable pub overlap : List Text → List Text → List Text → ℕ
unfolding count_of
overlap [] ref acc = 0
overlap (k ∷ ks) ref acc = min (count_of k ref) (count_of k acc) + overlap ks ref acc

-- `_overlap_score`
unfoldable pub overlap_score : (Text → Text) → Text → Text → Fraction
unfolding tokens distinct overlap
overlap_score lower reference accumulated =
    let ref = tokens [] (lower reference) in
    let acc = tokens [] (lower accumulated) in
    if length ref == 0 || length acc == 0
    then record { num = 1; den = 1 }
    else record { num = overlap (distinct ref) ref acc; den = max (length acc) 1 }

-- `topic_drift(reference, threshold=..., min_chars=..., scorer=...)`
unfoldable pub topic_drift : Text → Fraction → ℕ → (Text → Text → Fraction) → Result Evaluator
topic_drift reference threshold min_chars score = do
  raise_if (ltb threshold.den threshold.num) value_error
  ok (record {
    name = some (codes "topic_drift");
    run = λ accumulated.
        if ltb (length accumulated) min_chars
        then «continue»
        else (let s = score reference accumulated in
            if ltb (s.num * threshold.den) (threshold.num * s.den) then halt else «continue»);
  })
