-- ===== src/Tests/Events.antt =====
-- A JSON text of printable characters: the program of Tests.Wire with each number in unary, between
-- braces where the value is an object; lines cut at each newline; and the reading of one stream.
use tap.Base.{
  ℕ, zero, suc, ◌+◌, ◌≡◌, refl, ◌∙◌, ap, Bool, true, false, some, List, [], ◌∷◌, ◌++◌, ◌==◌, arith,
  All, All-append, if◌then◌else◌,
}
use tap.Base.Int.{pos}
use tap.Base.Text.{Text, codes}
use tap.Base.Exceptions.{ok, err, protocol_error}
use tap.Json.{Value, obj, JsonText, IsPrintable}
use tap.Consumer.Events.{iter_sse}
use tap.Consumer.Events.Reading.{LineReader, iter_sse-event_source}
use tap.Producer.Sse.{body_text}
use tap.Producer.Server.Routes.{event_source}
use tap.Tests.Wire.{put_value, run, top, read-write, shown}

-- `n` as `n` letters a and a letter b.
abbrev unary : ℕ → Text → Text
unary zero t = b'b' ∷ t
unary (suc n) t = b'a' ∷ unary n t

abbrev encode : List ℕ → Text → Text
encode [] t = t
encode (n ∷ ns) t = unary n (encode ns t)

-- Braces are passed over.
abbrev decode : ℕ → Text → List ℕ
decode n [] = []
decode n (c ∷ t) =
    let more = decode (suc n) t in
    let next = decode 0 t in
    let rest = decode n t in if c == b'a' then more else if c == b'b' then n ∷ next else rest

decode-unary : (m n : ℕ) (t : Text) → decode m (unary n t) ≡ (m + n) ∷ decode 0 t
decode-unary m zero t = ap (λ k. k ∷ decode 0 t) (omega arith)
decode-unary m (suc n) t = decode-unary (suc m) n t ∙ ap (λ k. k ∷ decode 0 t) (omega arith)

decode_first : (n : ℕ) (t : Text) → decode 0 (unary n t) ≡ n ∷ decode 0 t
decode_first n t = decode-unary 0 n t ∙ ap (λ k. k ∷ decode 0 t) (omega arith)

decode-encode : (ns : List ℕ) (t : Text) → decode 0 (encode ns t) ≡ ns ++ decode 0 t
decode-encode [] t = refl
decode-encode (n ∷ ns) t = decode_first n (encode ns t) ∙ ap (λ r. n ∷ r) (decode-encode ns t)

unary-append : (n : ℕ) (t u : Text) → unary n t ++ u ≡ unary n (t ++ u)
unary-append zero t u = refl
unary-append (suc n) t u = ap (λ r. b'a' ∷ r) (unary-append n t u)

encode-append : (ns : List ℕ) (t : Text) → encode ns [] ++ t ≡ encode ns t
encode-append [] t = refl
encode-append (n ∷ ns) t = unary-append n (encode ns []) t ∙ ap (unary n) (encode-append ns t)

unary-IsPrintable : (n : ℕ) (t : Text) → All IsPrintable t → All IsPrintable (unary n t)
unary-IsPrintable zero t h = ((omega arith, omega arith), h)
unary-IsPrintable (suc n) t h = ((omega arith, omega arith), unary-IsPrintable n t h)

encode-IsPrintable : (ns : List ℕ) (t : Text) → All IsPrintable t → All IsPrintable (encode ns t)
encode-IsPrintable [] t h = h
encode-IsPrintable (n ∷ ns) t h = unary-IsPrintable n (encode ns t) (encode-IsPrintable ns t h)

abbrev is_obj : Value → Bool
is_obj (obj _) = true
is_obj _ = false

-- The braces are written around every value that is an object.
abbrev wrapped : Bool → List ℕ → Text
wrapped true ns = b'{' ∷ (encode ns [] ++ (b'}' ∷ []))
wrapped false ns = encode ns []

decode-wrapped : (b : Bool) (ns : List ℕ) → decode 0 (wrapped b ns) ≡ ns ++ []
decode-wrapped true ns = ap (decode 0) (encode-append ns (b'}' ∷ [])) ∙ decode-encode ns (b'}' ∷ [])
decode-wrapped false ns = decode-encode ns []

pub wrapped-IsPrintable : (b : Bool) (ns : List ℕ) → All IsPrintable (wrapped b ns)
wrapped-IsPrintable true ns = (
  (omega arith, omega arith),
  All-append IsPrintable (encode ns []) (b'}' ∷ []) (encode-IsPrintable ns [] tt)
      ((omega arith, omega arith), tt),
)
wrapped-IsPrintable false ns = encode-IsPrintable ns [] tt

append_none : (ns : List ℕ) → ns ++ [] ≡ ns
append_none [] = refl
append_none (n ∷ ns) = ap (λ r. n ∷ r) (append_none ns)

pub loads-dumps :
    (v : Value) → top (run (decode 0 (wrapped (is_obj v) (put_value v []))) []) ≡ some v
loads-dumps v =
    ap (λ ns. top (run ns []))
      (decode-wrapped (is_obj v) (put_value v []) ∙ append_none (put_value v []))
    ∙ read-write v

abbrev pub json : JsonText
json = record {
  dumps = λ v. wrapped (is_obj v) (put_value v []);
  loads = λ t. top (run (decode 0 t) []);
  loads-dumps = loads-dumps;
  dumps-IsPrintable = λ v. wrapped-IsPrintable (is_obj v) (put_value v []);
  dumps-obj = λ fs. (encode (put_value (obj fs) []) [], refl);
  show = shown;
  show-str = λ _. refl;
}

abbrev onto_first : ℕ → List Text → List Text
onto_first c [] = (c ∷ []) ∷ []
onto_first c (l ∷ ls) = (c ∷ l) ∷ ls

abbrev cut : Text → List Text
cut [] = []
cut (c ∷ t) = let rest = cut t in if c == b'\n' then [] ∷ rest else onto_first c rest

cut_next :
    (line rest : Text) → All IsPrintable line → cut (line ++ (b'\n' ∷ rest)) ≡ line ∷ cut rest
cut_next [] rest h = refl
cut_next (c ∷ line) rest h =
    let no_newline : (c == b'\n') ≡ false = ground (arith, h.0) in
    rw (no_newline, cut_next line rest h.1) refl

abbrev reader : LineReader
reader = record { lines = cut; lines_end = refl; lines_next = cut_next }

iter_sse-event_source_example :
    iter_sse json (
      cut (
        body_text json
          (event_source ((codes "Hi", pos 0) ∷ (codes " you", pos 1) ∷ []) (some (codes "503")))))
    ≡ ok (record { text = codes "Hi"; ack_sequence = some (pos 0); finished = false })
      ∷ ok (record { text = codes " you"; ack_sequence = some (pos 1); finished = false })
      ∷ err (protocol_error "producer error")
      ∷ []
iter_sse-event_source_example =
    iter_sse-event_source json reader ((codes "Hi", pos 0) ∷ (codes " you", pos 1) ∷ [])
      (some (codes "503"))
