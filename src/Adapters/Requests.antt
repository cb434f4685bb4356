-- ===== src/Adapters/Requests.antt =====
-- sdk/python/tap/adapters: openai.py, anthropic.py and ollama.py, which pass the body on to a model
-- SDK. What the SDK answers is an argument, and `failure` is what it raised after these chunks, if
-- it did.
pub mod Merged
use tap.Base.{◌≡◌, refl, Bool, true, false, Option, none, some, List, [], ◌∷◌, arith, if◌then◌else◌}
use tap.Base.Int.{ℤ, pos}
use tap.Base.Text.{Text, codes, text_eq}
use tap.Base.Exceptions.{Exception, Result, ok, err}
use tap.Json.{
  Value, null, bool, int, str, obj, Fields, end, field, fields, lookup, get, item, truthy,
}

-- `d[k] = v`
unfoldable pub set_key : Text → Value → Fields → Fields
set_key k v end = field k v end
set_key k v (field j w fs) =
    let rest = set_key k v fs in if text_eq j k then field j v fs else field j w rest

-- `{..., **body}`
unfoldable pub update_dict : Fields → Fields → Fields
unfolding set_key
update_dict fs end = fs
update_dict fs (field k v body) = update_dict (set_key k v fs) body

unfoldable pub openai_body : Text → Fields → Fields
openai_body model body =
    update_dict (fields ((codes "model", str model) ∷ (codes "stream", bool true) ∷ [])) body

unfoldable pub ollama_body : Text → Fields → Fields
ollama_body model body =
    update_dict (fields ((codes "model", str model) ∷ (codes "stream", bool true) ∷ [])) body

unfoldable pub anthropic_body : Text → ℤ → Fields → Fields
anthropic_body model max_tokens body =
    update_dict (fields ((codes "model", str model) ∷ (codes "max_tokens", int max_tokens) ∷ []))
      body

-- A chunk is the `delta.content` of each of its choices.
abbrev delta_of : List (Option Text) → Option Text
delta_of [] = none
delta_of (delta ∷ choices) = delta

abbrev yield_delta : Option Text → List Text → List Text
yield_delta none rest = rest
yield_delta (some []) rest = rest
yield_delta (some (c ∷ delta)) rest = (c ∷ delta) ∷ rest

unfoldable pub openai_deltas : List (List (Option Text)) → List Text
openai_deltas [] = []
openai_deltas (choices ∷ chunks) = yield_delta (delta_of choices) (openai_deltas chunks)

-- `message["content"]` where both tests pass. A chunk that is no dictionary, which any value but an
-- object stands for, has no message.
abbrev message_of : Value → Value
message_of (obj fs) = elim (lookup (codes "message") fs) [ some v ↦ v | none ↦ null ]
message_of _ = null

abbrev content_of : Value → Result Value
content_of message = if truthy message then get message (codes "content") null else ok null

abbrev yield_content : Result Value → List Value × Option Exception → List Value × Option Exception
yield_content (err e) rest = ([], some e)
yield_content (ok v) rest = if truthy v then (v ∷ rest.0, rest.1) else rest

unfoldable pub ollama_contents : List Value → Option Exception → List Value × Option Exception
ollama_contents [] failure = ([], failure)
ollama_contents (chunk ∷ chunks) failure =
    yield_content (content_of (message_of chunk)) (ollama_contents chunks failure)
