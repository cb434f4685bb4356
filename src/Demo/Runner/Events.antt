-- ===== src/Demo/Runner/Events.antt =====
-- `_run_session` of demo/runner.py: the events that one run sends to the browser.
use tap.Base.{ℕ, Option, none, some, List, [], ◌∷◌, ◌++◌, map}
use tap.Base.Int.{ℤ, pos}
use tap.Base.Text.{Text, codes}
use tap.Json.{Value, null, int, str, obj, fields}
use tap.Consumer.Session.{TokenChunk, CommitSigned}

-- What the run reads of the session that it opened.
pub record OpenedSession : Type 0 where
  pub channel_id : Text
  pub session_pubkey : Text
  pub open_tx_signature : Text
  pub prepaid_input_micro : ℤ

-- In the order in which they reach the queue: a chunk of the stream, or a call of `on_commit`.
pub data Happening : Type 0 where
  token : TokenChunk → Happening
  committed : CommitSigned → Happening

-- The session once its stream has ended.
pub record FinalState : Type 0 where
  pub tokens_received : ℕ
  pub cumulative_paid_micro : ℤ
  pub halted_by : Option Text

abbrev text_or_null : Option Text → Value
text_or_null none = null
text_or_null (some t) = str t

unfoldable pub on_commit : CommitSigned → Value
on_commit signed = obj (
    fields (
      (codes "type", str (codes "commit_signed"))
      ∷ (codes "sequence", int signed.sequence)
      ∷ (codes "cumulative_paid_micro", int signed.cumulative_paid_micro)
      ∷ (codes "tokens_received", int signed.tokens_received)
      ∷ (codes "timestamp_ms", int signed.timestamp_ms)
      ∷ []))

abbrev token_event : TokenChunk → Value
token_event chunk = obj (
    fields (
      (codes "type", str (codes "token"))
      ∷ (codes "text", str chunk.text)
      ∷ (codes "tokens_received", int (pos chunk.tokens_received))
      ∷ (codes "cumulative_paid_micro", int chunk.cumulative_paid_micro)
      ∷ []))

abbrev queued : Happening → Value
queued (token chunk) = token_event chunk
queued (committed signed) = on_commit signed

abbrev phase : Text → Value
phase name = obj (fields ((codes "type", str (codes "phase")) ∷ (codes "phase", str name) ∷ []))

abbrev session_open : ℤ → OpenedSession → Value
session_open deposit_micro s = obj (
    fields (
      (codes "type", str (codes "session_open"))
      ∷ (codes "channel_id", str s.channel_id)
      ∷ (codes "session_pubkey", str s.session_pubkey)
      ∷ (codes "open_tx_signature", str s.open_tx_signature)
      ∷ (codes "deposit_micro", int deposit_micro)
      ∷ (codes "prepaid_input_micro", int s.prepaid_input_micro)
      ∷ []))

abbrev pub error_event : Text → Value
error_event message =
    obj (fields ((codes "type", str (codes "error")) ∷ (codes "message", str message) ∷ []))

abbrev pub complete_event : FinalState → Value
complete_event s = obj (
    fields (
      (codes "type", str (codes "complete"))
      ∷ (codes "tokens_received", int (pos s.tokens_received))
      ∷ (codes "cumulative_paid_micro", int s.cumulative_paid_micro)
      ∷ (codes "halted_by", text_or_null s.halted_by)
      ∷ []))

-- How a part of the run ended: with a value, or with the text of an exception.
pub data Ending (A : Type 0) : Type 0 where
  finished : A → Ending A
  failed : Text → Ending A

-- What the exit from the clients raises takes the place of what was raised before.
abbrev after_body : Ending (Unit {0}) → Ending FinalState → List Value
after_body (failed message) (finished s) = complete_event s ∷ error_event message ∷ []
after_body (failed message) (failed _) = error_event message ∷ []
after_body (finished tt) (finished s) = complete_event s ∷ []
after_body (finished tt) (failed message) = error_event message ∷ []

abbrev last_error : Ending (Unit {0}) → Text → Text
last_error (failed message) _ = message
last_error (finished tt) message = message

abbrev session_events :
    ℤ → Ending (Unit {0}) → OpenedSession → List Happening → Ending FinalState → List Value
session_events deposit_micro exit s happenings end =
    session_open deposit_micro s
    ∷ phase (codes "streaming")
    ∷ (map queued happenings ++ after_body exit end)

-- `driver`: the clients are entered, the session is opened and streamed, and the clients are left.
unfoldable pub driver :
    ℤ
    → Ending (Unit {0})
    → Ending OpenedSession
    → List Happening
    → Ending FinalState
    → Ending (Unit {0})
    → List Value
unfolding on_commit
driver deposit_micro (failed message) opening happenings end exit = error_event message ∷ []
driver deposit_micro (finished tt) (failed message) happenings end exit =
    phase (codes "opening") ∷ error_event (last_error exit message) ∷ []
driver deposit_micro (finished tt) (finished s) happenings end exit =
    phase (codes "opening") ∷ session_events deposit_micro exit s happenings end

-- `_sse`
abbrev sse : (Value → Text) → Value → Text
sse dumps event = codes "data: " ++ (dumps event ++ (b'\n' ∷ b'\n' ∷ []))

-- Everything that was queued before the end, in order, if the browser reads on.
unfoldable pub run_session : (Value → Text) → List Value → List Text
run_session dumps events = map (sse dumps) events
