-- ===== src/Protocol/Prompt.antt =====
-- sdk/python/tap/protocol/prompt.py, on a body that is an object. The last resort, `json.dumps`
-- with sorted keys, is the argument `dumps_sorted`.
use tap.Base.{Option, some, List, [], ◌∷◌, ◌++◌}
use tap.Base.Text.{Text, codes}
use tap.Json.{Value, str, arr, obj, Items, nil, cons, Fields, lookup}

-- `msg.get("content")`, of the messages that are objects with a string there.
unfoldable pub contents : Items → List Text
contents nil = []
contents (cons (obj fs) rest) = elim (lookup (codes "content") fs) [
  | some (str t) ↦ t ∷ contents rest
  | _ ↦ contents rest
]
contents (cons _ rest) = contents rest

-- `"\n".join(...)`
unfoldable pub join_lines : List Text → Text
join_lines [] = []
join_lines (t ∷ []) = t
join_lines (t ∷ u ∷ ts) = t ++ 10 ∷ join_lines (u ∷ ts)

abbrev prompt_or : (Value → Text) → Fields → Option Value → Text
prompt_or dumps_sorted body (some (str t)) = t
prompt_or dumps_sorted body _ = dumps_sorted (obj body)

abbrev messages_or : (Value → Text) → Fields → Option Value → Text
messages_or dumps_sorted body (some (arr items)) = join_lines (contents items)
messages_or dumps_sorted body _ = prompt_or dumps_sorted body (lookup (codes "prompt") body)

unfoldable pub extract_prompt_text : (Value → Text) → Fields → Text
unfolding contents join_lines
extract_prompt_text dumps_sorted body =
    messages_or dumps_sorted body (lookup (codes "messages") body)
