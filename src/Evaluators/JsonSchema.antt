-- ===== src/Evaluators/JsonSchema.antt =====
-- sdk/python/tap/evaluators/json_schema.py. `json.loads` on a text and the `jsonschema` validator
-- are arguments; with no validator installed the latter is `none`.
use tap.Base.{
  ◌+◌, ◌-◌, Bool, false, not, ◌&&◌, ◌||◌, Option, none, some, List, [], ◌∷◌, length, drop, take,
  ltb, ◌==◌, if◌then◌else◌,
}
use tap.Base.Text.{Text, codes, text_in, text_eq, starts_with, strip, rstrip, find_char}
use tap.Json.{Value, str, arr, Items, nil, cons, Fields, lookup}
use tap.Evaluators.Decision.{Decision, halt, «continue», Evaluator}

abbrev pub scalar_types : List Text
scalar_types =
    codes "string" ∷ codes "number" ∷ codes "integer" ∷ codes "boolean" ∷ codes "null" ∷ []

abbrev pub is_scalar_type : Value → Bool
is_scalar_type (str t) = text_in t scalar_types
is_scalar_type _ = false

unfoldable pub any_scalar : Items → Bool
any_scalar nil = false
any_scalar (cons v rest) = is_scalar_type v || any_scalar rest

abbrev type_allows : Option Value → Bool
type_allows (some (str t)) = text_in t scalar_types
type_allows (some (arr items)) = any_scalar items
type_allows _ = false

-- `_allows_scalar`
unfoldable pub allows_scalar : Fields → Bool
unfolding any_scalar
allows_scalar schema = type_allows (lookup (codes "type") schema)

-- `s.endswith("```")`, and `s[:-3]`
abbrev pub ends_with_fence : Text → Bool
ends_with_fence s = not (ltb (length s) 3) && text_eq (drop (length s - 3) s) (codes "```")

abbrev pub without_closer : Text → Text
without_closer body = if ends_with_fence body then rstrip (take (length body - 3) body) else body

-- `_strip_markdown_fence`
unfoldable pub strip_markdown_fence : Text → Text
strip_markdown_fence text =
    if not (starts_with text (codes "```")) then text else elim (find_char 10 (drop 3 text)) [
      | none ↦ []
      | some newline ↦ without_closer (drop (newline + 1) (drop 3 text))
    ]

module _ (json_loads : Text → Option Value) (validator : Option (Value → Bool)) where
  abbrev validated : Option Value → Decision
  validated none = «continue»
  validated (some value) = elim validator [
    | none ↦ «continue»
    | some is_valid ↦ if is_valid value then «continue» else halt
  ]

  -- On the stripped text; `text[0]` is looked at from the 32nd character on.
  unfoldable pub check_text : Fields → Text → Decision
  unfolding allows_scalar
  check_text schema [] = «continue»
  check_text schema (first ∷ rest) =
      if ltb (length (first ∷ rest)) 32
      then «continue»
      else if not (first == b'{' || first == b'[') && not (allows_scalar schema)
      then halt
      else validated (json_loads (first ∷ rest))

  unfoldable pub json_schema : Fields → Evaluator
  unfolding check_text strip_markdown_fence strip
  json_schema schema = record {
    name = some (codes "json_schema");
    run = λ accumulated. check_text schema (strip_markdown_fence (strip accumulated));
  }
