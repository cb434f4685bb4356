-- ===== src/Consumer/Events.antt =====
-- sdk/python/tap/consumer/stream.py. The lines are those of `response.aiter_lines()`; what the
-- generator yields comes back as a list, where an exception is the last entry.
pub mod Reading
use tap.Base.{Bool, true, false, not, ◌||◌, Option, none, some, List, [], ◌∷◌, drop, if◌then◌else◌}
use tap.Base.Int.{ℤ}
use tap.Base.Text.{Text, codes, text_eq, starts_with, strip, contains}
use tap.Base.Exceptions.{
  Exception, Result, ok, err, protocol_error, type_error, or_raise, ◌>>=◌, ◌>>◌,
}
use tap.Json.{
  Value, null, str, arr, obj, bool, Items, nil, cons, Fields, lookup, item, get, truthy, to_int,
  JsonText,
}
use tap.Consumer.Session.{StreamEvent}

abbrev is_error : Value → Bool
is_error (str t) = text_eq t (codes "error")
is_error _ = false

abbrev has_error : Items → Bool
has_error nil = false
has_error (cons v vs) = is_error v || has_error vs

abbrev is_present : Option Value → Bool
is_present none = false
is_present (some _) = true

-- `"error" in obj`
abbrev pub in_error : Value → Result Bool
in_error (obj fs) = ok (is_present (lookup (codes "error") fs))
in_error (arr vs) = ok (has_error vs)
in_error (str t) = ok (contains (codes "error") t)
in_error _ = err type_error

-- `int(obj["ack"]) if obj.get("ack") is not None else None`
abbrev ack_of : Value → Result (Option ℤ)
ack_of null = ok none
ack_of v = to_int v >>= λ i. ok (some i)

-- What one line makes the generator do.
pub data Line : Type 0 where
  skip : Line
  event : StreamEvent → Line
  last : StreamEvent → Line
  raised : Exception → Line

abbrev pub yielded : Result StreamEvent → Line
yielded (ok e) = event e
yielded (err x) = raised x

abbrev pub final_event : StreamEvent
final_event = record { text = []; ack_sequence = none; finished = true }

module _ (json : JsonText) where
  abbrev fields_of : Value → Result StreamEvent
  fields_of v = do
    text ← get v (codes "text") (str [])
    found ← get v (codes "ack") null
    ack ← ack_of found
    finished ← get v (codes "finished") (bool false)
    ok (record { text = json.show text; ack_sequence = ack; finished = truthy finished })

  abbrev pub event_of : Value → Result StreamEvent
  event_of v = do
    failed ← in_error v
    elim failed [
      | true ↦ item v (codes "error") >>= λ _. err (protocol_error "producer error")
      | false ↦ fields_of v
    ]

  abbrev pub read_payload : Text → Line
  read_payload payload =
      if text_eq payload (codes "[DONE]")
      then last final_event
      else yielded
          (or_raise (json.loads payload) (protocol_error "SSE data is not valid JSON") >>= event_of)

  unfoldable pub read_line : Text → Line
  read_line [] = skip
  read_line (c ∷ line) =
      if starts_with (c ∷ line) (codes ":") || starts_with (c ∷ line) (codes "event:")
      then skip
      else if not (starts_with (c ∷ line) (codes "data:"))
      then raised (protocol_error "unexpected SSE line")
      else read_payload (strip (drop 5 (c ∷ line)))

  unfoldable pub iter_sse : List Text → List (Result StreamEvent)
  unfolding read_line
  iter_sse [] = []
  iter_sse (line ∷ lines) =
      let rest = iter_sse lines in
      elim (read_line line) [
        | skip ↦ rest
        | event e ↦ ok e ∷ rest
        | last e ↦ ok e ∷ []
        | raised x ↦ err x ∷ []
      ]
