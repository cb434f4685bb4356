-- ===== src/Adapters/Gemini.antt =====
-- sdk/python/tap/adapters/gemini.py: the request, the reading of one stream, and the retries. What
-- the network answers is an argument; the sleeps between attempts are left out.
pub mod Chunks
pub mod Pieces
pub mod Retry
use tap.Base.{
  ℕ, Bool, true, false, not, ◌||◌, Option, none, some, List, [], ◌∷◌, ◌++◌, drop, if◌then◌else◌,
}
use tap.Base.Text.{Text, codes, text_eq, starts_with, strip, contains}
use tap.Base.Exceptions.{Exception, Result, ok, err, key_error, type_error, attribute_error, ◌>>=◌}
use tap.Json.{
  Value, null, str, arr, obj, Items, nil, cons, Fields, end, field, fields, lookup, item, get,
  truthy, JsonText,
}
use tap.Adapters.Gemini.Chunks.{split_chunk, is_empty}

-- `v == "assistant"`
abbrev is_assistant : Value → Bool
is_assistant (str t) = text_eq t (codes "assistant")
is_assistant _ = false

-- `v or []`
abbrev or_list : Value → Value
or_list v = elim (truthy v) [ true ↦ v | false ↦ arr nil ]

abbrev is_present : Option Value → Bool
is_present none = false
is_present (some _) = true

-- `"text" in p`
abbrev in_text : Items → Bool
in_text nil = false
in_text (cons (str t) vs) = text_eq t (codes "text") || in_text vs
in_text (cons _ vs) = in_text vs

abbrev has_text : Value → Result Bool
has_text (obj fs) = ok (is_present (lookup (codes "text") fs))
has_text (arr vs) = ok (in_text vs)
has_text (str t) = ok (contains (codes "text") t)
has_text _ = err type_error

-- `v[0]` of what is not empty.
abbrev first_of : Value → Result Value
first_of (arr (cons v _)) = ok v
first_of (str (c ∷ _)) = ok (str (c ∷ []))
first_of (obj _) = err key_error
first_of _ = err type_error

-- What `for p in v` goes over.
abbrev chars : Text → Items
chars [] = nil
chars (c ∷ t) = cons (str (c ∷ [])) (chars t)

abbrev keys : Fields → Items
keys end = nil
keys (field k _ fs) = cons (str k) (keys fs)

abbrev items_of : Value → Result Items
items_of (arr vs) = ok vs
items_of (str t) = ok (chars t)
items_of (obj fs) = ok (keys fs)
items_of _ = err type_error

abbrev prepend : Bool → Result Value → Result (List Value) → Result (List Value)
prepend true v rest = do text ← v; texts ← rest; ok (text ∷ texts)
prepend false v rest = rest

-- `p.get("text", "") for p in parts if "text" in p`
unfoldable pub part_texts : Items → Result (List Value)
part_texts nil = ok []
part_texts (cons p parts) = do
  there ← has_text p
  prepend there (get p (codes "text") (str [])) (part_texts parts)

-- `"".join(...)`
unfoldable pub join_texts : List Value → Result Text
join_texts [] = ok []
join_texts (str t ∷ texts) = join_texts texts >>= λ rest. ok (t ++ rest)
join_texts (_ ∷ texts) = err type_error

abbrev first_parts : Value → Result Value
first_parts candidates = do
  candidate ← first_of candidates
  content ← get candidate (codes "content") (obj end)
  parts ← get content (codes "parts") null
  ok (or_list parts)

abbrev candidate_text : Value → Result Text
candidate_text candidates = do
  parts ← first_parts candidates
  items ← items_of parts
  texts ← part_texts items
  join_texts texts

unfoldable pub extract_text : Value → Result Text
unfolding part_texts join_texts
extract_text payload = do
  found ← get payload (codes "candidates") null
  elim (truthy (or_list found)) [ true ↦ candidate_text (or_list found) | false ↦ ok [] ]

module _ (json : JsonText) where
  abbrev gemini_role : Value → Value
  gemini_role role = str (if is_assistant role then codes "model" else codes "user")

  abbrev content_text : Value → Text
  content_text (str t) = t
  content_text v = json.show v

  -- `_to_gemini_contents`, on the messages of a list.
  unfoldable pub to_gemini_contents : Items → Result Items
  to_gemini_contents nil = ok nil
  to_gemini_contents (cons m messages) = do
    role ← get m (codes "role") null
    content ← item m (codes "content")
    contents ← to_gemini_contents messages
    ok (
        cons
          (obj (
            fields (
              (codes "role", gemini_role role)
              ∷ (
                codes "parts",
                arr (cons (obj (fields ((codes "text", str (content_text content)) ∷ []))) nil),
              )
              ∷ [])))
          contents)

  -- `_consume_sse`: the pieces, and how the reading ended; `failure` is what the connection raised
  -- after these lines, if it did.
  abbrev after_text : Result Text → List Text × Option Exception → List Text × Option Exception
  after_text (err e) rest = ([], some e)
  after_text (ok []) rest = rest
  after_text (ok (c ∷ text)) rest = (split_chunk 8 (c ∷ text) ++ rest.0, rest.1)

  abbrev after_data : Text → List Text × Option Exception → List Text × Option Exception
  after_data payload rest =
      if is_empty payload || text_eq payload (codes "[DONE]")
      then rest
      else elim (json.loads payload) [ none ↦ rest | some v ↦ after_text (extract_text v) rest ]

  unfoldable pub consume_sse : List Text → Option Exception → List Text × Option Exception
  unfolding split_chunk extract_text
  consume_sse [] failure = ([], failure)
  consume_sse (line ∷ lines) failure =
      let rest = consume_sse lines failure in
      if starts_with line (codes "data:") then after_data (strip (drop 5 line)) rest else rest
