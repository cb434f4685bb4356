-- ===== src/Tests/GeminiRuns.antt =====
-- The model adapters, on concrete values.
use tap.Base.{
  ℕ, ◌≤◌, ◌≡◌, refl, none, some, Option, List, [], ◌∷◌, ◌++◌, length, arith, ◌==◌, if◌then◌else◌,
}
use tap.Base.Text.{Text, codes, text_eq}
use tap.Base.Int.{pos}
use tap.Base.Exceptions.{Result, ok}
use tap.Json.{Value, Fields, lookup, int, str, arr, obj, nil, cons, fields, JsonText}
use tap.Adapters.Gemini.Chunks.{split_spaces, split_chunk}
use tap.Adapters.Gemini.Pieces.{concat, concat-split_chunk, concat-split_chunk_lead}
use tap.Adapters.Gemini.Retry.{Answer, default_model, fallback_model, open_models}
use tap.Adapters.Gemini.Retry.Attempts.{plan, first_final, open_models-first_final}
use tap.Adapters.Requests.{anthropic_body}
use tap.Adapters.Requests.Merged.{over, lookup-anthropic_body}
use tap.Tests.Events.{json}

concat-split_chunk_example :
    concat (split_chunk 8 (codes "pay per token now")) ≡ codes "pay per token now"
unfolding split_spaces
concat-split_chunk_example =
    concat-split_chunk 8 (codes "pay per token now") (refl, (refl, (refl, (refl, tt))))

concat-split_chunk_lead_example :
    concat (split_chunk 8 (codes " per token now")) ≡ codes "per token now"
unfolding split_spaces
concat-split_chunk_lead_example =
    concat-split_chunk_lead 8 (codes "per token now") (refl, (refl, (refl, tt))) (omega arith)

-- `{"candidates": [{"content": {"parts": [{"text": "Hi there"}]}}]}`
abbrev chunk : Value
chunk = obj (
    fields (
      (
        codes "candidates",
        arr (
            cons
              (obj (
                fields (
                  (
                    codes "content",
                    obj (
                        fields (
                          (
                            codes "parts",
                            arr (
                                cons (obj (fields ((codes "text", str (codes "Hi there")) ∷ [])))
                                  nil),
                          )
                          ∷ [])),
                  )
                  ∷ [])))
              nil),
      )
      ∷ []))

-- Busy at first, then a stream.
abbrev answer : Text → ℕ → Result Answer
answer which attempt =
    if attempt == 0
    then ok (record { status_code = 503; lines = []; failure = none })
    else ok (record {
      status_code = 200;
      lines = (codes "data: " ++ json.dumps chunk) ∷ [];
      failure = none;
    })

open_models-first_final_example :
    open_models json answer (default_model ∷ fallback_model ∷ []) none
    ≡ first_final json answer (plan (default_model ∷ fallback_model ∷ [])) none
open_models-first_final_example =
    open_models-first_final json answer (default_model ∷ fallback_model ∷ []) none

-- The second attempt on the first model yields the text.
served : open_models json answer (default_model ∷ fallback_model ∷ []) none ≡ record {
  opened = (default_model, 0) ∷ (default_model, 1) ∷ [];
  pieces = codes "Hi there" ∷ [];
  raised = none;
}
unfolding open_models tap.Base.Text.starts_with tap.Base.Text.strip tap.Base.Text.text_eq
    tap.Json.get tap.Json.truthy
served = refl

-- `{"model": "m", "system": "s"}`
abbrev asked : Fields
asked = fields ((codes "model", str (codes "m")) ∷ (codes "system", str (codes "s")) ∷ [])

lookup-anthropic_body_example :
    lookup (codes "model") (anthropic_body (codes "default") (pos 1024) asked)
    ≡ over (lookup (codes "model") asked) (
        if text_eq (codes "model") (codes "model")
        then some (str (codes "default"))
        else if text_eq (codes "max_tokens") (codes "model")
        then some (int (pos 1024))
        else none)
unfolding text_eq
lookup-anthropic_body_example =
    lookup-anthropic_body (codes "model") (codes "default") (pos 1024) asked (refl, (refl, tt))
