-- ===== src/Tests/Wire.antt =====
-- A text form of the values that `Json.Wire` speaks of: a program of pairs (operation, argument)
-- for a stack, which builds the value. `json.dumps` has another one; the laws are the same.
use tap.Base.{
  ℕ, ◌≡◌, refl, ◌∙◌, ap, Bool, true, false, Option, none, some, List, [], ◌∷◌, ◌==◌, if◌then◌else◌,
}
use tap.Base.Int.{pos, negsuc}
use tap.Base.Text.{Text, codes}
use tap.Json.{
  Value, null, infinite, nan, bool, int, float, str, arr, obj, Items, nil, cons, Fields, end, field,
  Wire,
}

abbrev of_bool : Bool → ℕ
of_bool true = 1
of_bool false = 0

abbrev push_char : ℕ → List Value → List Value
push_char c (str s ∷ st) = str (c ∷ s) ∷ st
push_char c st = st

abbrev push_item : List Value → List Value
push_item (v ∷ arr vs ∷ st) = arr (cons v vs) ∷ st
push_item st = st

abbrev push_field : List Value → List Value
push_field (v ∷ str k ∷ obj fs ∷ st) = obj (field k v fs) ∷ st
push_field st = st

abbrev step : ℕ → ℕ → List Value → List Value
step o a st =
    if o == 0
    then null ∷ st
    else if o == 1
    then infinite ∷ st
    else if o == 2
    then nan ∷ st
    else if o == 3
    then bool (a == 1) ∷ st
    else if o == 4
    then int (pos a) ∷ st
    else if o == 5
    then int (negsuc a) ∷ st
    else if o == 6
    then float (pos a) ∷ st
    else if o == 7
    then float (negsuc a) ∷ st
    else if o == 8
    then str [] ∷ st
    else if o == 9
    then push_char a st
    else if o == 10
    then arr nil ∷ st
    else if o == 11
    then push_item st
    else if o == 12
    then obj end ∷ st
    else push_field st

abbrev pub run : Text → List Value → List Value
run (o ∷ a ∷ t) st = run t (step o a st)
run (o ∷ []) st = []
run [] st = st

abbrev put_text : Text → Text → Text
put_text [] t = 8 ∷ 0 ∷ t
put_text (c ∷ s) t = put_text s (9 ∷ c ∷ t)

abbrev mutual
  pub put_value : Value → Text → Text
  put_value null t = 0 ∷ 0 ∷ t
  put_value infinite t = 1 ∷ 0 ∷ t
  put_value nan t = 2 ∷ 0 ∷ t
  put_value (bool b) t = 3 ∷ of_bool b ∷ t
  put_value (int (pos n)) t = 4 ∷ n ∷ t
  put_value (int (negsuc n)) t = 5 ∷ n ∷ t
  put_value (float (pos n)) t = 6 ∷ n ∷ t
  put_value (float (negsuc n)) t = 7 ∷ n ∷ t
  put_value (str s) t = put_text s t
  put_value (arr vs) t = put_items vs t
  put_value (obj fs) t = put_fields fs t

  put_items : Items → Text → Text
  put_items nil t = 10 ∷ 0 ∷ t
  put_items (cons v vs) t = put_items vs (put_value v (11 ∷ 0 ∷ t))

  put_fields : Fields → Text → Text
  put_fields end t = 12 ∷ 0 ∷ t
  put_fields (field k v fs) t = put_fields fs (put_text k (put_value v (13 ∷ 0 ∷ t)))

run-put_text : (s t : Text) (st : List Value) → run (put_text s t) st ≡ run t (str s ∷ st)
run-put_text [] t st = refl
run-put_text (c ∷ s) t st = run-put_text s (9 ∷ c ∷ t) st

mutual
  run-put : (v : Value) (t : Text) (st : List Value) → run (put_value v t) st ≡ run t (v ∷ st)
  run-put null t st = refl
  run-put infinite t st = refl
  run-put nan t st = refl
  run-put (bool true) t st = refl
  run-put (bool false) t st = refl
  run-put (int (pos n)) t st = refl
  run-put (int (negsuc n)) t st = refl
  run-put (float (pos n)) t st = refl
  run-put (float (negsuc n)) t st = refl
  run-put (str s) t st = run-put_text s t st
  run-put (arr vs) t st = run-put_items vs t st
  run-put (obj fs) t st = run-put_fields fs t st

  run-put_items :
      (vs : Items) (t : Text) (st : List Value) → run (put_items vs t) st ≡ run t (arr vs ∷ st)
  run-put_items nil t st = refl
  run-put_items (cons v vs) t st =
      run-put_items vs (put_value v (11 ∷ 0 ∷ t)) st ∙ run-put v (11 ∷ 0 ∷ t) (arr vs ∷ st)

  run-put_fields :
      (fs : Fields) (t : Text) (st : List Value) → run (put_fields fs t) st ≡ run t (obj fs ∷ st)
  run-put_fields end t st = refl
  run-put_fields (field k v fs) t st =
      run-put_fields fs (put_text k (put_value v (13 ∷ 0 ∷ t))) st
      ∙ (run-put_text k (put_value v (13 ∷ 0 ∷ t)) (obj fs ∷ st)
          ∙ run-put v (13 ∷ 0 ∷ t) (str k ∷ obj fs ∷ st))

abbrev pub top : List Value → Option Value
top (v ∷ []) = some v
top _ = none

pub read-write : (v : Value) → top (run (put_value v []) []) ≡ some v
read-write v = ap top (run-put v [] [])

abbrev pub shown : Value → Text
shown (str t) = t
shown v = codes "value"

abbrev pub wire : Wire
wire = record {
  write = λ v. put_value v [];
  read = λ t. top (run t []);
  read-write = read-write;
  b64 = λ b. b;
  unb64 = some;
  unb64-b64 = λ _. refl;
  show = shown;
  show-str = λ _. refl;
}
