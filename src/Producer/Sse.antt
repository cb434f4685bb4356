-- ===== src/Producer/Sse.antt =====
-- sdk/python/tap/producer/sse.py. A frame is what follows `data: `: a JSON payload or the sentinel.
use tap.Base.{List, [], ◌∷◌, ◌++◌}
use tap.Base.Int.{ℤ}
use tap.Base.Text.{Text, codes}
use tap.Json.{Value, int, str, obj, fields, JsonText}

pub data Frame : Type 0 where
  payload : Value → Frame
  done : Frame

unfoldable pub token_frame : Text × ℤ → Frame
token_frame (token, ack) =
    payload (obj (fields ((codes "text", str token) ∷ (codes "ack", int ack) ∷ [])))

-- Of the pairs until the iterator ends; if it raises instead, the frames stop before the sentinel.
unfoldable pub token_frames : List (Text × ℤ) → List Frame
unfolding token_frame
token_frames [] = []
token_frames (c ∷ chunks) = token_frame c ∷ token_frames chunks

unfoldable pub encode_sse : List (Text × ℤ) → List Frame
unfolding token_frame
encode_sse [] = done ∷ []
encode_sse (c ∷ chunks) = token_frame c ∷ encode_sse chunks

-- A frame as it is written: one line that starts with `data: `, then an empty one.
abbrev pub frame_line : JsonText → Frame → Text
frame_line json (payload v) = codes "data: " ++ json.dumps v
frame_line json done = codes "data: [DONE]"

unfoldable pub body_text : JsonText → List Frame → Text
body_text json [] = []
body_text json (f ∷ frames) = frame_line json f ++ (b'\n' ∷ b'\n' ∷ body_text json frames)
