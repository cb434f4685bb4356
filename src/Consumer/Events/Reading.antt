-- ===== src/Consumer/Events/Reading.antt =====
-- What the consumer reads (sdk/python/tap/consumer/stream.py) of what the producer writes
-- (`encode_sse` of sdk/python/tap/producer/sse.py and `event_source` of
-- sdk/python/tap/producer/server.py).
use tap.Base.{
  ◌≡◌, refl, sym, ◌∙◌, ap, false, Option, none, some, List, [], ◌∷◌, ◌++◌, All, All-append, arith,
}
use tap.Base.Int.{ℤ}
use tap.Base.Text.{
  Text, codes, strip, lstrip, rstrip, rstrip-append, is_space, text_eq, starts_with,
}
use tap.Base.Exceptions.{Result, ok, err, protocol_error}
use tap.Json.{Fields, obj, int, str, fields, JsonText, IsPrintable, item, get, to_int, truthy}
use tap.Consumer.Session.{StreamEvent}
use tap.Consumer.Events.{read_line, event_of, yielded, final_event, iter_sse}
use tap.Producer.Sse.{
  Frame, payload, done, frame_line, body_text, token_frame, token_frames, encode_sse,
}
use tap.Producer.Server.Routes.{event_source}

-- How `aiter_lines` cuts a text of printable lines.
pub record LineReader : Type 0 where
  pub lines : Text → List Text
  pub lines_end : lines [] ≡ []
  pub lines_next :
      (line rest : Text) → All IsPrintable line → lines (line ++ (b'\n' ∷ rest)) ≡ line ∷ lines rest

abbrev pub token_event : Text × ℤ → StreamEvent
token_event (token, ack) = record { text = token; ack_sequence = some ack; finished = false }

abbrev pub last_event : Option Text → Result StreamEvent
last_event none = ok final_event
last_event (some _) = err (protocol_error "producer error")

-- The events of the tokens, then the end of the stream.
abbrev pub events_of : List (Text × ℤ) → Option Text → List (Result StreamEvent)
events_of [] raised = last_event raised ∷ []
events_of (c ∷ chunks) raised = ok (token_event c) ∷ events_of chunks raised

module _ (json : JsonText) where
  strip-dumps : (fs : Fields) → strip (b' ' ∷ json.dumps (obj fs)) ≡ json.dumps (obj fs)
  unfolding strip lstrip is_space
  strip-dumps fs =
      let (inner, shape) = json.dumps-obj fs in
      ap (λ t. strip (b' ' ∷ t)) shape ∙ (rstrip-append b'}' (b'{' ∷ inner) refl ∙ sym shape)

  no_sentinel : (fs : Fields) → text_eq (json.dumps (obj fs)) (codes "[DONE]") ≡ false
  unfolding text_eq
  no_sentinel fs =
      let (inner, shape) = json.dumps-obj fs in ap (λ t. text_eq t (codes "[DONE]")) shape

  -- The line of a payload that is an object is read as the event of that object.
  read_line-frame_line :
      (fs : Fields)
      → read_line json (frame_line json (payload (obj fs))) ≡ yielded (event_of json (obj fs))
  unfolding read_line starts_with
  read_line-frame_line fs = rw (strip-dumps fs, no_sentinel fs, json.loads-dumps (obj fs)) refl

  event_of-token :
      (token : Text) (ack : ℤ)
      → event_of json (obj (fields ((codes "text", str token) ∷ (codes "ack", int ack) ∷ [])))
        ≡ ok (record { text = token; ack_sequence = some ack; finished = false })
  unfolding get to_int truthy text_eq
  event_of-token token ack = rw (json.show-str token) refl

  event_of-error :
      (text : Text)
      → event_of json (obj (fields ((codes "error", str text) ∷ [])))
        ≡ err (protocol_error "producer error")
  unfolding item text_eq
  event_of-error text = refl

  frame_line-IsPrintable : (f : Frame) → All IsPrintable (frame_line json f)
  frame_line-IsPrintable (payload v) =
      All-append IsPrintable (codes "data: ") (json.dumps v) (ground arith)
        (json.dumps-IsPrintable v)
  frame_line-IsPrintable done = ground arith

  module _ (reader : LineReader) where
    open reader use {lines, lines_next, lines_end}

    -- A frame is its line and a blank one.
    lines-body_text :
        (f : Frame) (frames : List Frame)
        → lines (body_text json (f ∷ frames))
          ≡ frame_line json f ∷ [] ∷ lines (body_text json frames)
    unfolding body_text
    lines-body_text f frames =
        lines_next (frame_line json f) (b'\n' ∷ body_text json frames) (frame_line-IsPrintable f)
        ∙ ap (λ ls. frame_line json f ∷ ls) (lines_next [] (body_text json frames) tt)

    iter_token :
        (c : Text × ℤ) (frames : List Frame)
        → iter_sse json (lines (body_text json (token_frame c ∷ frames)))
          ≡ ok (token_event c) ∷ iter_sse json (lines (body_text json frames))
    unfolding iter_sse token_frame starts_with body_text text_eq strip
    iter_token (token, ack) frames =
        rw
          (
            lines-body_text (token_frame (token, ack)) frames,
            read_line-frame_line (fields ((codes "text", str token) ∷ (codes "ack", int ack) ∷ [])),
            event_of-token token ack,
          )
          refl

    iter_done : iter_sse json (lines (body_text json (done ∷ []))) ≡ ok final_event ∷ []
    unfolding iter_sse read_line starts_with strip lstrip rstrip is_space text_eq
    iter_done = rw (lines-body_text done []) refl

    iter_error :
        (text : Text) (frames : List Frame)
        → iter_sse json (
            lines
              (body_text json (payload (obj (fields ((codes "error", str text) ∷ []))) ∷ frames)))
          ≡ err (protocol_error "producer error") ∷ []
    unfolding iter_sse starts_with text_eq strip
    iter_error text frames =
        rw
          (
            lines-body_text (payload (obj (fields ((codes "error", str text) ∷ [])))) frames,
            read_line-frame_line (fields ((codes "error", str text) ∷ [])),
            event_of-error text,
          )
          refl

    -- The consumer reads the body of a producer's stream back as the tokens that were sent, each
    -- with its acknowledgement, in their order. After the last token it reads the end of the
    -- stream, or an error if the model's iterator raised, and nothing beyond.
    pub iter_sse-event_source :
        (chunks : List (Text × ℤ)) (raised : Option Text)
        → iter_sse json (lines (body_text json (event_source chunks raised)))
          ≡ events_of chunks raised
    unfolding event_source encode_sse token_frames
    iter_sse-event_source [] none = iter_done
    iter_sse-event_source [] (some text) = iter_error text (done ∷ [])
    iter_sse-event_source (c ∷ chunks) none =
        iter_token c (encode_sse chunks)
        ∙ ap (λ es. ok (token_event c) ∷ es) (iter_sse-event_source chunks none)
    iter_sse-event_source (c ∷ chunks) (some text) =
        iter_token c (event_source chunks (some text))
        ∙ ap (λ es. ok (token_event c) ∷ es) (iter_sse-event_source chunks (some text))
