-- ===== src/Base/Bytes.antt =====
-- `int.to_bytes(n, "little")` and `int.from_bytes(b, "little")`, and their round trip. Bytes are
-- lists of numbers below 256.
use Prim.Native.Nat.{◌^◌}
use native.Mathlib.Nat.{pow-suc}
use tap.Base.{
  ℕ, zero, suc, ◌+◌, ◌-◌, ◌*◌, ◌/◌, ◌%◌, ◌<◌, ◌≡◌, refl, sym, ap, ◌∙◌, List, [], ◌∷◌, arith, All,
  length, ltb, if◌then◌else◌,
}
use tap.Base.Int.{ℤ, pos, negsuc}
use tap.Base.Exceptions.{Result, ok, err, overflow_error}

abbrev pub IsByte : ℕ → Type 0
IsByte b = b < 256

-- The `n` lowest bytes of a number, lowest first.
unfoldable pub le_bytes : ℕ → ℕ → List ℕ
le_bytes zero v = []
le_bytes (suc n) v = v % 256 ∷ le_bytes n (v / 256)

-- `int.from_bytes(b, "little")`
unfoldable pub from_bytes : List ℕ → ℕ
from_bytes [] = 0
from_bytes (b ∷ bs) = b + 256 * from_bytes bs

-- `int.from_bytes(b, "little", signed=True)`
unfoldable pub from_bytes_signed : List ℕ → ℤ
from_bytes_signed bs =
    let m = 256 ^ length bs in
    let v = from_bytes bs in if ltb (v + v) m then pos v else negsuc (m - v - 1)

-- `i.to_bytes(n, "little")`: a negative number, or one that needs more bytes, raises.
unfoldable pub to_bytes : ℕ → ℤ → Result (List ℕ)
to_bytes n (pos v) = if ltb v (256 ^ n) then ok (le_bytes n v) else err overflow_error
to_bytes n (negsuc _) = err overflow_error

pub length-le_bytes : (n v : ℕ) → length (le_bytes n v) ≡ n
unfolding le_bytes
length-le_bytes zero v = refl
length-le_bytes (suc n) v = ap suc (length-le_bytes n (v / 256))

pub le_bytes-IsByte : (n v : ℕ) → All IsByte (le_bytes n v)
unfolding le_bytes
le_bytes-IsByte zero v = tt
le_bytes-IsByte (suc n) v = (omega arith, le_bytes-IsByte n (v / 256))

pub from_bytes-le_bytes : (n v : ℕ) → v < 256 ^ n → from_bytes (le_bytes n v) ≡ v
unfolding le_bytes from_bytes
from_bytes-le_bytes zero v h = omega arith
from_bytes-le_bytes (suc n) v h = omega (arith, from_bytes-le_bytes n (v / 256) (below n v h))
  where
    below : (n v : ℕ) → v < 256 ^ suc n → v / 256 < 256 ^ n
    below n v h = omega (arith, pow-suc 256 n)

pub from_bytes-lt : (bs : List ℕ) → All IsByte bs → from_bytes bs < 256 ^ length bs
unfolding from_bytes
from_bytes-lt [] h = omega arith
from_bytes-lt (b ∷ bs) h = omega (arith, pow-suc 256 (length bs), from_bytes-lt bs h.1)

-- What `to_bytes` returns has the width asked for and reads back as the number.
pub to_bytes_ok :
    (n : ℕ) (i : ℤ) {bs : List ℕ}
    → to_bytes n i ≡ ok bs
    → (v : ℕ) × (i ≡ pos v) × (v < 256 ^ n) × (bs ≡ le_bytes n v)
unfolding to_bytes
to_bytes_ok n (pos v) h = (v, refl, ground arith, ground arith)
to_bytes_ok n (negsuc _) h = cc

pub length-to_bytes : (n : ℕ) (i : ℤ) {bs : List ℕ} → to_bytes n i ≡ ok bs → length bs ≡ n
length-to_bytes n i h = let (v, _, _, e) = to_bytes_ok n i h in ap length e ∙ length-le_bytes n v

pub from_bytes-to_bytes :
    (n : ℕ) (i : ℤ) {bs : List ℕ} → to_bytes n i ≡ ok bs → pos (from_bytes bs) ≡ i
from_bytes-to_bytes n i h =
    let (v, e, lt, eb) = to_bytes_ok n i h in
    ap pos (ap from_bytes eb ∙ from_bytes-le_bytes n v lt) ∙ sym e

pub to_bytes_fits : (n v : ℕ) → v < 256 ^ n → to_bytes n (pos v) ≡ ok (le_bytes n v)
unfolding to_bytes
to_bytes_fits n v h = ground arith
