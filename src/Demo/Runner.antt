-- ===== src/Demo/Runner.antt =====
-- demo/runner.py: the access gate, the checks of a request, the list of signatures, and the events
-- of one run. The environment's values are arguments; `show` is `str` of an exception.
pub mod Sorted
pub mod Events
pub mod Config
use tap.Base.{
  ℕ, ◌+◌, Bool, true, false, not, Option, none, some, List, [], ◌∷◌, ◌++◌, if◌then◌else◌, map,
}
use mathlib.Core.Option.{get_or}
use tap.Base.Int.{ℤ, pos, ltb_ℤ, leb_ℤ}
use tap.Base.Text.{Text, codes, text_eq}
use tap.Base.Exceptions.{
  Exception, Result, ok, err, http_exception, raise_if, or_raise, ◌>>=◌, ◌>>◌,
}
use tap.External.{Keys}
use tap.Json.{Value, null, bool, int, str, arr, obj, Items, nil, cons, Fields, fields, JsonText}
use tap.Chain.Rpc.{SignatureItem, signature_entry}
use tap.Consumer.Session.{TokenChunk, CommitSigned}
use tap.Evaluators.Decision.{Decision, «continue», Evaluator}
use tap.Evaluators.Compose.{compose}
use tap.Evaluators.Guards.{length_cap}
use tap.Evaluators.JsonSchema.{json_schema}

-- `os.environ.get("TAP_ACCESS_CODE") or None`
abbrev access_code : Option Text → Option Text
access_code none = none
access_code (some []) = none
access_code (some (c ∷ code)) = some (c ∷ code)

abbrev is_code : Option Text → Text → Bool
is_code none code = false
is_code (some header) code = text_eq header code

unfoldable pub require_access : Option Text → Option Text → Result (Unit {0})
require_access configured x_tap_access = elim (access_code configured) [
  | none ↦ ok tt
  | some code ↦
      raise_if (not (is_code x_tap_access code)) (http_exception 401 "invalid access code")
]

-- `RunRequest`, whose deposit FastAPI refuses outside its bounds.
pub record RunRequest : Type 0 where
  pub prompt : Text
  pub deposit_micro : ℤ
  pub enforce_schema : Bool

unfoldable pub run_request : ℤ → Text → Option ℤ → Option Bool → Result RunRequest
run_request max_deposit_micro prompt deposit_micro enforce_schema = elim deposit_micro [
  | none ↦ ok (record {
    prompt = prompt;
    deposit_micro = pos 50_000;
    enforce_schema = get_or enforce_schema true;
  })
  | some deposit ↦ do
    raise_if (ltb_ℤ deposit (pos 1_000)) (http_exception 422 "greater_than_equal")
    raise_if (ltb_ℤ max_deposit_micro deposit) (http_exception 422 "less_than_equal")
    ok (record {
      prompt = prompt;
      deposit_micro = deposit;
      enforce_schema = get_or enforce_schema true;
    })
]

-- `sigs.sort(key=lambda s: s["slot"])`, which is stable.
unfoldable pub insert : SignatureItem → List SignatureItem → List SignatureItem
insert s [] = s ∷ []
insert s (t ∷ sigs) =
    let rest = insert s sigs in if leb_ℤ s.slot t.slot then s ∷ t ∷ sigs else t ∷ rest

unfoldable pub sort : List SignatureItem → List SignatureItem
unfolding insert
sort [] = []
sort (s ∷ sigs) = insert s (sort sigs)

abbrev entries : List SignatureItem → Items
entries [] = nil
entries (s ∷ sigs) = cons (signature_entry s) (entries sigs)

module _ {K : Type 0} ⦃keys : Keys K⦄
    (signatures_for_address : K → Result (List SignatureItem)) where
  open keys use {from_string}

  unfoldable pub get_session_signatures : Text → Result Value
  unfolding sort
  get_session_signatures channel_id = do
    address ← or_raise (from_string channel_id) (http_exception 400 "invalid channel_id")
    sigs ← signatures_for_address address
    ok (
        obj (
          fields (
            (codes "channel_id", str channel_id)
            ∷ (codes "signatures", arr (entries (sort sigs)))
            ∷ [])))

abbrev property : Text → Value
property type = obj (fields ((codes "type", str type) ∷ []))

abbrev expected_schema : Fields
expected_schema = fields (
    (codes "type", str (codes "object"))
    ∷ (
      codes "required",
      arr (
          cons (str (codes "title"))
            (cons (str (codes "summary")) (cons (str (codes "tags")) nil))),
    )
    ∷ (
      codes "properties",
      obj (
          fields (
            (codes "title", property (codes "string"))
            ∷ (codes "summary", property (codes "string"))
            ∷ (codes "tags", property (codes "array"))
            ∷ [])),
    )
    ∷ [])

abbrev noop_evaluator : Evaluator
noop_evaluator = record { name = none; run = λ _. «continue» }

-- The composition that a run's session is opened with.
unfoldable pub eval_chain :
    (ℤ → Text) → (Text → Option Value) → Option (Value → Bool) → Bool → Result Evaluator
eval_chain str_int json_loads validator enforce_schema = do
  cap ← length_cap str_int (pos 4_000)
  compose (
      (if enforce_schema then json_schema json_loads validator expected_schema else noop_evaluator)
      ∷ cap
      ∷ [])
