-- ===== src/Json.antt =====
-- The values that `json.loads` returns and `json.dumps` takes, and what the SDK does with them:
-- dictionary access, `int(...)`, `str(...)` and truth.
use tap.Base.{
  ℕ, ◌+◌, ◌-◌, ◌*◌, ◌≤◌, ◌≡◌, All, ◌++◌, Bool, true, false, not, ◌&&◌, Option, none, some, List, [],
  ◌∷◌, ◌==◌, leb, if◌then◌else◌,
}
use mathlib.Core.Option
use tap.Base.Int.{ℤ, pos, sub_ℕ, eqb_ℤ}
use tap.Base.Text.{Text, text_eq, strip}
use tap.Base.Exceptions.{
  Result, ok, err, value_error, key_error, type_error, overflow_error, attribute_error, or_raise,
}

-- A finite float other than 0.0 stands with its integer part, toward zero, which is all that the
-- SDK takes of it; 0.0 is the integer 0.
mutual
  pub data Value : Type 0 where
    null infinite nan : Value
    bool : Bool → Value
    int : ℤ → Value
    float : ℤ → Value
    str : Text → Value
    arr : Items → Value
    obj : Fields → Value

  pub data Items : Type 0 where
    nil : Items
    cons : Value → Items → Items

  -- Each key once, as in a `dict`.
  pub data Fields : Type 0 where
    end : Fields
    field : Text → Value → Fields → Fields

abbrev pub lookup : Text → Fields → Option Value
lookup k end = none
lookup k (field j v fs) = if text_eq j k then some v else lookup k fs

-- `{"k": v, ...}`
abbrev pub fields : List (Text × Value) → Fields
fields [] = end
fields ((k, v) ∷ kvs) = field k v (fields kvs)

-- `d[k]`; a list or a string refuses a string index, and so does what has no index.
unfoldable pub item : Value → Text → Result Value
item (obj fs) k = or_raise (lookup k fs) key_error
item _ k = err type_error

-- `d.get(k, default)`
unfoldable pub get : Value → Text → Value → Result Value
get (obj fs) k default = ok (elim (lookup k fs) [ some v ↦ v | none ↦ default ])
get _ k default = err attribute_error

-- `bool(v)`
unfoldable pub truthy : Value → Bool
truthy null = false
truthy (bool b) = b
truthy (int i) = not (eqb_ℤ i (pos 0))
truthy (str []) = false
truthy (arr nil) = false
truthy (obj end) = false
truthy _ = true

-- `v or {}`
abbrev pub or_empty : Value → Value
or_empty v = elim (truthy v) [ true ↦ v | false ↦ obj end ]

-- The digits of `int(text)`, most significant first, with single underscores between them;
-- `after_digit` tells whether an underscore or the end may come next.
unfoldable pub digits : ℕ → Bool → Text → Option ℕ
digits n after_digit [] = if after_digit then some n else none
digits n after_digit (c ∷ s) =
    let next = digits (n * 10 + (c - 48)) true s in
    let skip = digits n false s in
    if leb 48 c && leb c 57 then next else if c == 95 && after_digit then skip else none

abbrev negated : Option ℕ → Option ℤ
negated = Option.map (sub_ℕ 0)

unfoldable pub signed_digits : Text → Option ℤ
unfolding digits
signed_digits [] = none
signed_digits (c ∷ s) =
    if c == b'-'
    then negated (digits 0 false s)
    else if c == b'+'
    then Option.map pos (digits 0 false s)
    else Option.map pos (digits 0 false (c ∷ s))

-- `int(v)`
unfoldable pub to_int : Value → Result ℤ
unfolding signed_digits strip
to_int (int i) = ok i
to_int (bool b) = ok (if b then pos 1 else pos 0)
to_int (float i) = ok i
to_int infinite = err overflow_error
to_int nan = err value_error
to_int (str t) = or_raise (signed_digits (strip t)) value_error
to_int _ = err type_error

-- The text form of a value, which stands in an HTTP header: `b64encode(json.dumps(v))` and back,
-- `json.loads(b64decode(h, validate=True))`, where `none` stands for the `ValueError` of either.
-- It is an interface of these functions of the standard library, with the round trip.
pub record Wire : Type 0 where
  pub write : Value → Text
  pub read : Text → Option Value
  pub read-write : (v : Value) → read (write v) ≡ some v
  -- `b64encode(b).decode()` and `b64decode(t, validate=True)`
  pub b64 : List ℕ → Text
  pub unb64 : Text → Option (List ℕ)
  pub unb64-b64 : (b : List ℕ) → unb64 (b64 b) ≡ some b
  -- `str(v)`, which is the text itself on a string
  pub show : Value → Text
  pub show-str : (t : Text) → show (str t) ≡ t

abbrev pub IsPrintable : ℕ → Type 0
IsPrintable c = (32 ≤ c) × (c ≤ 126)

-- `json.dumps(v, separators=(",", ":"))`, which escapes what is not printable ASCII, and
-- `json.loads`, where `none` stands for `JSONDecodeError`.
pub record JsonText : Type 0 where
  pub dumps : Value → Text
  pub loads : Text → Option Value
  pub loads-dumps : (v : Value) → loads (dumps v) ≡ some v
  pub dumps-IsPrintable : (v : Value) → All IsPrintable (dumps v)
  pub dumps-obj : (fs : Fields) → (inner : Text) × (dumps (obj fs) ≡ b'{' ∷ (inner ++ (b'}' ∷ [])))
  -- `str(v)`, which is the text itself on a string
  pub show : Value → Text
  pub show-str : (t : Text) → show (str t) ≡ t
