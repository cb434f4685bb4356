-- ===== src/Adapters/Gemini/Retry.antt =====
-- `stream_gemini` of sdk/python/tap/adapters/gemini.py: the request and the attempts to open the
-- stream. The answers of the service are an argument, by model and attempt; the sleeps are left
-- out.
pub mod Attempts
use tap.Base.{
  ℕ, suc, zero, ◌+◌, Bool, true, false, not, ◌&&◌, ◌||◌, Option, none, some, List, [], ◌∷◌, ◌++◌,
  ◌==◌, str_eq, leb, any, if◌then◌else◌,
}
use tap.Base.Int.{ℤ, pos}
use tap.Base.Text.{Text, codes, text_eq}
use tap.Base.Exceptions.{Exception, Result, ok, err, external, runtime_error, type_error, ◌>>=◌}
use tap.Json.{Value, int, str, arr, obj, Items, nil, fields, get, JsonText}
use tap.Adapters.Gemini.{to_gemini_contents, items_of, consume_sse}

-- `DEFAULT_MODEL`, `FALLBACK_MODEL`, `TRANSIENT_STATUSES` and `MAX_OPEN_ATTEMPTS`
abbrev pub default_model : Text
default_model = codes "gemini-2.5-flash"

abbrev pub fallback_model : Text
fallback_model = codes "gemini-2.5-flash-lite"

abbrev transient_statuses : List ℕ
transient_statuses = 429 ∷ 500 ∷ 502 ∷ 503 ∷ 504 ∷ []

abbrev pub max_open_attempts : ℕ
max_open_attempts = 3

abbrev pub is_transient : ℕ → Bool
is_transient status = any (λ s. s == status) transient_statuses

-- The status, the lines of the body, and what the connection raised after them.
pub record Answer : Type 0 where
  pub status_code : ℕ
  pub lines : List Text
  pub failure : Option Exception

-- What one attempt yields, and whether the loop goes on with the error that is kept, or the
-- generator ends.
pub data Outcome : Type 0 where
  again : List Text → Exception → Outcome
  final : List Text → Option Exception → Outcome

-- Where the generator stands: the attempts that it made, what it yielded, and what it raised.
pub record Retrieval : Type 0 where
  pub opened : List (Text × ℕ)
  pub pieces : List Text
  pub raised : Option Exception

abbrev pub http_status_error : Exception
http_status_error = external "HTTPStatusError"

-- One attempt, before what follows.
abbrev pub note_open : Text × ℕ → Retrieval → Retrieval
note_open at r = record r { opened = at ∷ r.opened }

abbrev pub yield_pieces : List Text → Retrieval → Retrieval
yield_pieces pieces r = record r { pieces = pieces ++ r.pieces }

abbrev pub is_status_error : Exception → Bool
is_status_error (external name) = str_eq name "HTTPStatusError"
is_status_error _ = false

-- The `except httpx.HTTPStatusError` clause, on an attempt that yielded `pieces` and raised: the
-- response of the error is the one that was read.
abbrev pub caught : ℕ → List Text → Option Exception → Outcome
caught status pieces none = final pieces none
caught status pieces (some e) =
    if is_status_error e && is_transient status then again pieces e else final pieces (some e)

-- `attempts`
abbrev pub models : Text → Option Text → List Text
models model none = model ∷ []
models model (some []) = model ∷ []
models model (some fallback) = if text_eq fallback model then model ∷ [] else model ∷ fallback ∷ []

-- `os.environ.get("GEMINI_API_KEY") or os.environ.get("GOOGLE_API_KEY")`, where the empty text is
-- false.
unfoldable pub api_key : Option Text → Option Text → Result Text
api_key (some (c ∷ key)) google = ok (c ∷ key)
api_key _ (some (c ∷ key)) = ok (c ∷ key)
api_key _ _ = err (runtime_error "GEMINI_API_KEY (or GOOGLE_API_KEY) is required")

module _ (json : JsonText) where
  -- The JSON that is posted, for a body that is an object.
  unfoldable pub request_body : ℤ → Value → Result Value
  unfolding to_gemini_contents
  request_body max_tokens body = do
    messages ← get body (codes "messages") (arr nil)
    items ← items_of messages
    contents ← to_gemini_contents json items
    limit ← get body (codes "max_tokens") (int max_tokens)
    ok (
        obj (
          fields (
            (codes "contents", arr contents)
            ∷ (codes "generationConfig", obj (fields ((codes "maxOutputTokens", limit) ∷ [])))
            ∷ [])))

  abbrev read_body : Answer → Outcome
  read_body a =
      let (pieces, raised) = consume_sse json a.lines a.failure in
      caught a.status_code pieces raised

  -- A transient answer is read to its end first.
  abbrev pub drain : ℕ → Option Exception → Outcome
  drain status none = again [] http_status_error
  drain status (some e) = caught status [] (some e)

  unfoldable pub outcome : Result Answer → Outcome
  unfolding consume_sse
  outcome (err e) = final [] (some e)
  outcome (ok a) =
      if is_transient a.status_code
      then drain a.status_code a.failure
      else if leb 200 a.status_code && leb a.status_code 299
      then read_body a
      else caught a.status_code [] (some http_status_error)

  module _ (answer : Text → ℕ → Result Answer) where
    -- The attempts on one model that are left, then the rest of the run, which takes the last
    -- error.
    unfoldable pub open_model :
        Text → ℕ → ℕ → Option Exception → (Option Exception → Retrieval) → Retrieval
    unfolding outcome
    open_model which attempt zero last next = next last
    open_model which attempt (suc left) last next =
        note_open (which, attempt)
          (elim (outcome (answer which attempt)) [
            | again pieces e ↦
                yield_pieces pieces (open_model which (suc attempt) left (some e) next)
            | final pieces raised ↦ record { opened = []; pieces = pieces; raised = raised }
          ])

    unfoldable pub open_models : List Text → Option Exception → Retrieval
    unfolding open_model
    open_models [] last = record { opened = []; pieces = []; raised = last }
    open_models (which ∷ later) last = open_model which 0 max_open_attempts last (open_models later)

    -- Once the request is built, or not.
    abbrev pub started : Result Value → List Text → Retrieval
    started (err e) ms = record { opened = []; pieces = []; raised = some e }
    started (ok _) ms = open_models ms none

    -- With the two keys of the environment; the request is built before the first attempt.
    unfoldable pub stream_gemini :
        Option Text → Option Text → Text → Option Text → ℤ → Value → Retrieval
    unfolding open_models request_body api_key
    stream_gemini gemini_key google_key model fallback max_tokens body =
        started (api_key gemini_key google_key >>= λ _. request_body max_tokens body)
          (models model fallback)
