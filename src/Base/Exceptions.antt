-- ===== src/Base/Exceptions.antt =====
-- sdk/python/tap/exceptions.py, and the built-in exceptions that the SDK raises, catches or lets
-- through. A call that may raise returns a `Result`; a message keeps the fixed part of its text.
use tap.Base.{ℕ, String, ◌≡◌, refl, Bool, true, false, Option, none, some}

pub data Exception : Type 0 where
  protocol_error commitment_error halt_error settlement_error x402_error : String → Exception
  channel_state_error : String → Exception
  value_error key_error overflow_error type_error attribute_error : Exception
  runtime_error : String → Exception
  -- `fastapi.HTTPException(status, detail)`
  http_exception : ℕ → String → Exception
  -- what a collaborator outside the SDK raised
  external : String → Exception

pub data Result {ℓ} (A : Type ℓ) : Type ℓ where
  ok : A → Result A
  err : Exception → Result A

-- `except (KeyError, ValueError, TypeError)`; `json.JSONDecodeError` is a `ValueError`.
abbrev pub is_field_error : Exception → Bool
is_field_error value_error = true
is_field_error key_error = true
is_field_error type_error = true
is_field_error _ = false

infixl 5 ◌>>=◌ ◌>>◌
abbrev pub ◌>>=◌ {ℓ κ} : {X : Type ℓ} {Y : Type κ} → Result X → (X → Result Y) → Result Y
err e >>= k = err e
ok x >>= k = k x

abbrev pub or_raise {ℓ} : {A : Type ℓ} → Option A → Exception → Result A
or_raise none e = err e
or_raise (some a) e = ok a

abbrev pub ◌>>◌ {ℓ} : {B : Type ℓ} → Result (Unit {0}) → Result B → Result B
m >> k = m >>= λ _. k

-- `if test: raise e`
abbrev pub raise_if : Bool → Exception → Result (Unit {0})
raise_if true e = err e
raise_if false e = ok tt

-- `except <test> as exc: raise e from exc`
abbrev pub catch_as {ℓ} : {A : Type ℓ} → (Exception → Bool) → Exception → Result A → Result A
catch_as test e (ok a) = ok a
catch_as test e (err x) = elim (test x) [ true ↦ err e | false ↦ err x ]

-- What a bind that returned tells of its two parts.
pub >>=-eq-ok {ℓ κ} :
    {X : Type ℓ} {Y : Type κ} (first : Result X) (rest : X → Result Y) {y : Y}
    → (first >>= rest) ≡ ok y
    → (x : X) × (first ≡ ok x) × (rest x ≡ ok y)
>>=-eq-ok (err e) rest returned = cc
>>=-eq-ok (ok x) rest returned = (x, refl, returned)

-- A bind whose first part returned goes on with the second.
pub bind_returned {ℓ κ} :
    {X : Type ℓ} {Y : Type κ} (first : Result X) (rest : X → Result Y) {x : X} {r : Result Y}
    → first ≡ ok x
    → rest x ≡ r
    → (first >>= rest) ≡ r
bind_returned first rest returned after = rw returned after

pub ok-injective {ℓ} : {A : Type ℓ} {a b : A} → ok a ≡ ok b → a ≡ b
ok-injective h = cc

pub or_raise-ok {ℓ} :
    {A : Type ℓ} (o : Option A) (e : Exception) {a : A} → or_raise o e ≡ ok a → o ≡ some a
or_raise-ok none e h = cc
or_raise-ok (some a) e h = cc
