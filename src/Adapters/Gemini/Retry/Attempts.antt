-- ===== src/Adapters/Gemini/Retry/Attempts.antt =====
-- Which attempts `stream_gemini` makes (sdk/python/tap/adapters/gemini.py), against a plan without
-- loops.
use tap.Base.{
  ℕ, suc, ◌≤◌, ◌≡◌, refl, ap, ◌∙◌, false, ◌&&◌, leb, Option, none, some, List, [], ◌∷◌, length,
  arith, if-cases,
}
use tap.Base.Int.{ℤ}
use tap.Base.Text.{Text, text_eq}
use tap.Base.Exceptions.{Exception, Result, ok, err}
use tap.Json.{Value, JsonText}
use tap.Adapters.Gemini.{consume_sse}
use tap.Adapters.Gemini.Retry.{
  Answer, Outcome, Retrieval, again, final, outcome, note_open, yield_pieces, caught, drain,
  is_status_error, is_transient, http_status_error, open_model, open_models, models, started,
  stream_gemini,
}

-- Attempts 0, 1 and 2 on each model.
abbrev pub plan : List Text → List (Text × ℕ)
plan [] = []
plan (which ∷ later) = (which, 0) ∷ (which, 1) ∷ (which, 2) ∷ plan later

-- An attempt that is followed by another has yielded nothing.
abbrev IsQuiet : Outcome → Type 0
IsQuiet (again pieces e) = pieces ≡ []
IsQuiet (final pieces raised) = Unit

caught_nothing : (status : ℕ) (raised : Option Exception) → IsQuiet (caught status [] raised)
caught_nothing status none = tt
caught_nothing status (some e) =
    if-cases IsQuiet (is_status_error e && is_transient status) (λ _. refl) (λ _. tt)

caught_stays :
    (status : ℕ) (pieces : List Text) (raised : Option Exception)
    → is_transient status ≡ false
    → IsQuiet (caught status pieces raised)
caught_stays status pieces none h = tt
caught_stays status pieces (some e) h =
    if-cases IsQuiet (is_status_error e && is_transient status) (λ t. ground (arith, t, h))
      (λ _. tt)

drain-IsQuiet :
    (json : JsonText) (status : ℕ) (raised : Option Exception) → IsQuiet (drain json status raised)
drain-IsQuiet json status none = refl
drain-IsQuiet json status (some e) = caught_nothing status (some e)

outcome-IsQuiet : (json : JsonText) (r : Result Answer) → IsQuiet (outcome json r)
unfolding outcome
outcome-IsQuiet json (err e) = tt
outcome-IsQuiet json (ok a) =
    if-cases IsQuiet (is_transient a.status_code) (λ _. drain-IsQuiet json a.status_code a.failure)
      (λ steady.
        if-cases IsQuiet (leb 200 a.status_code && leb a.status_code 299)
          (λ _.
            caught_stays a.status_code (consume_sse json a.lines a.failure).0
              (consume_sse json a.lines a.failure).1 steady)
          (λ _. caught_nothing a.status_code (some http_status_error)))

-- One attempt, with what follows it.
abbrev attempted : Text × ℕ → Outcome → (Option Exception → Retrieval) → Retrieval
attempted at o next = note_open at (elim o [
  | again pieces e ↦ yield_pieces pieces (next (some e))
  | final pieces raised ↦ record { opened = []; pieces = pieces; raised = raised }
])

-- The same, where an attempt that is followed by another counts for nothing.
abbrev decided : Text × ℕ → Outcome → (Option Exception → Retrieval) → Retrieval
decided at o next = note_open at (elim o [
  | again pieces e ↦ next (some e)
  | final pieces raised ↦ record { opened = []; pieces = pieces; raised = raised }
])

attempted_quiet :
    (at : Text × ℕ) (o : Outcome) (f g : Option Exception → Retrieval)
    → IsQuiet o
    → ((l : Option Exception) → f l ≡ g l)
    → attempted at o f ≡ decided at o g
attempted_quiet at (again pieces e) f g q h =
    ap (λ p. note_open at (yield_pieces p (f (some e)))) q ∙ ap (note_open at) (h (some e))
attempted_quiet at (final _ _) f g q h = refl

decided_le :
    (at : Text × ℕ) (o : Outcome) (f : Option Exception → Retrieval) (n : ℕ)
    → ((l : Option Exception) → length (f l).opened ≤ n)
    → length (decided at o f).opened ≤ suc n
decided_le at (again pieces e) f n h = omega (arith, h (some e))
decided_le at (final _ _) f n h = omega arith

module _ (json : JsonText) (answer : Text → ℕ → Result Answer) where
  -- The attempts of a plan up to the first whose answer is final.
  unfoldable pub first_final : List (Text × ℕ) → Option Exception → Retrieval
  first_final [] last = record { opened = []; pieces = []; raised = last }
  first_final ((which, attempt) ∷ later) last =
      note_open (which, attempt)
        (elim (outcome json (answer which attempt)) [
          | again _ e ↦ first_final later (some e)
          | final pieces raised ↦ record { opened = []; pieces = pieces; raised = raised }
        ])

  -- The loops make the attempts of the plan, each model's three in turn, and stop at the first
  -- answer that is final. Its pieces are the whole output: an attempt that is followed by another
  -- has yielded nothing, so nothing is tried again once pieces were yielded.
  pub open_models-first_final :
      (ms : List Text) (last : Option Exception)
      → open_models json answer ms last ≡ first_final (plan ms) last
  unfolding open_models open_model first_final
  open_models-first_final [] last = refl
  open_models-first_final (which ∷ later) last =
      attempted_quiet (which, 0) (outcome json (answer which 0)) _ _
        (outcome-IsQuiet json (answer which 0))
        (λ (l : Option Exception).
          attempted_quiet (which, 1) (outcome json (answer which 1)) _ _
            (outcome-IsQuiet json (answer which 1))
            (λ (k : Option Exception).
              attempted_quiet (which, 2) (outcome json (answer which 2))
                (open_models json answer later) (first_final (plan later))
                (outcome-IsQuiet json (answer which 2)) (open_models-first_final later)))

  opened_le :
      (p : List (Text × ℕ)) (last : Option Exception)
      → length (first_final p last).opened ≤ length p
  unfolding first_final
  opened_le [] last = omega arith
  opened_le ((which, attempt) ∷ later) last =
      decided_le (which, attempt) (outcome json (answer which attempt)) (first_final later)
        (length later) (opened_le later)

  length-plan-models :
      (model : Text) (fallback : Option Text) → length (plan (models model fallback)) ≤ 6
  length-plan-models model none = omega arith
  length-plan-models model (some []) = omega arith
  length-plan-models model (some (c ∷ fallback)) =
      if-cases (λ ms. length (plan ms) ≤ 6) (text_eq (c ∷ fallback) model) (λ _. omega arith)
        (λ _. omega arith)

  started_le :
      (r : Result Value) (ms : List Text)
      → length (plan ms) ≤ 6
      → length (started json answer r ms).opened ≤ 6
  started_le (err e) ms h = omega arith
  started_le (ok _) ms h = omega (
    arith,
    ap (λ (r : Retrieval). length r.opened) (open_models-first_final ms none),
    opened_le (plan ms) none,
    h,
  )

  -- However the service answers, the stream is opened at most six times.
  pub stream_gemini-opened :
      (gemini_key google_key : Option Text) (model : Text) (fallback : Option Text) (max_tokens : ℤ)
      (body : Value)
      → length
          (stream_gemini json answer gemini_key google_key model fallback max_tokens body).opened
        ≤ 6
  unfolding stream_gemini
  stream_gemini-opened gemini_key google_key model fallback max_tokens body =
      started_le _ (models model fallback) (length-plan-models model fallback)
