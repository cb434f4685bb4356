-- ===== src/Chain/Ed25519Ix/Sibling.antt =====
-- The data of the verify instruction, as the program reads it (`verify_ed25519_sibling` of
-- programs/tap/src/instructions/settle.rs): offsets first, then the slices that they point to.
use tap.Base.{
  ℕ, ◌%◌, ◌/◌, sym, zero, suc, ◌+◌, ◌≤◌, length-append, ◌≡◌, refl, ◌∙◌, ap, not, List, [], ◌∷◌,
  ◌++◌, length, take, drop, take-append, drop-append, ◌==◌, arith,
}
use mathlib.Core.Path.{subst}
use tap.Base.Int.{pos}
use tap.Base.Bytes.{from_bytes, to_bytes, le_bytes, to_bytes_ok, from_bytes-le_bytes}
use tap.Base.Exceptions.{ok, value_error, raise_if, >>=-eq-ok, ok-injective}
use tap.Chain.Account.{slice}
use tap.Chain.Ed25519Ix.{verify_data}

-- `u16::from_le_bytes([data[o], data[o + 1]])`
abbrev pub u16_at : ℕ → List ℕ → ℕ
u16_at o bytes = from_bytes (slice o 2 bytes)

-- What the program compares for one instruction.
pub record IsSigned (bytes public_key signature message : List ℕ) : Type 0 where
  pub header : 16 ≤ length bytes
  pub one_signature : slice 0 1 bytes ≡ 1 ∷ []
  pub key_within : u16_at 6 bytes + 32 ≤ length bytes
  pub signed_within : u16_at 2 bytes + 64 ≤ length bytes
  pub text_within : u16_at 10 bytes + u16_at 12 bytes ≤ length bytes
  pub key : slice (u16_at 6 bytes) 32 bytes ≡ public_key
  pub signed : slice (u16_at 2 bytes) 64 bytes ≡ signature
  pub text : slice (u16_at 10 bytes) (u16_at 12 bytes) bytes ≡ message

take_all : (xs : List ℕ) → take (length xs) xs ≡ xs
take_all [] = refl
take_all (x ∷ xs) = ap (λ t. x ∷ t) (take_all xs)

drop_both : (n : ℕ) (xs ys zs : List ℕ) → length xs + length ys ≡ n → drop n (xs ++ (ys ++ zs)) ≡ zs
drop_both n [] ys zs h = drop-append n ys zs (omega (arith, h))
drop_both zero (x ∷ xs) ys zs h = grind arith
drop_both (suc n) (x ∷ xs) ys zs h = drop_both n xs ys zs (omega (arith, h))

-- The three fields that name the instructions to read from, by their bytes.
pub record Indexes : Type 0 where
  pub signature : ℕ × ℕ
  pub key : ℕ × ℕ
  pub message : ℕ × ℕ

abbrev this_instruction : Indexes
this_instruction = record { signature = (255, 255); key = (255, 255); message = (255, 255) }

unfoldable pub layout : Indexes → ℕ → ℕ → List ℕ → List ℕ
layout i a b rest =
    1 ∷ 0 ∷ 48 ∷ 0 ∷ i.signature.0 ∷ i.signature.1 ∷ 16 ∷ 0 ∷ i.key.0 ∷ i.key.1 ∷ 112 ∷ 0 ∷ a ∷ b
    ∷ i.message.0 ∷ i.message.1 ∷ rest

body-length :
    (public_key signature message : List ℕ)
    → length public_key ≡ 32
    → length signature ≡ 64
    → length (public_key ++ (signature ++ message)) ≡ 96 + length message
body-length public_key signature message k s =
    omega (arith, length-append public_key (signature ++ message), length-append signature message)

-- The slices do not depend on the three fields.
pub layout-IsSigned :
    (i : Indexes) (a b : ℕ) (public_key signature message : List ℕ)
    → length public_key ≡ 32
    → length signature ≡ 64
    → from_bytes (a ∷ b ∷ []) ≡ length message
    → IsSigned (layout i a b (public_key ++ (signature ++ message))) public_key signature message
unfolding layout from_bytes
layout-IsSigned i a b public_key signature message k s m = record {
  header = omega arith;
  key_within = omega (arith, body-length public_key signature message k s);
  signed_within = omega (arith, body-length public_key signature message k s);
  text_within = omega (arith, m, body-length public_key signature message k s);
  one_signature = refl;
  key = take-append 32 public_key (signature ++ message) k;
  signed =
      ap (take 64) (drop-append 32 public_key (signature ++ message) k)
      ∙ take-append 64 signature message s;
  text =
      ap (take (from_bytes (a ∷ b ∷ [])))
        (drop_both 96 public_key signature message (omega (arith, k, s)))
      ∙ (ap (λ n. take n message) m ∙ take_all message);
}

assemble : List ℕ → List ℕ → List ℕ
assemble len rest =
    1 ∷ 0 ∷ 48 ∷ 0 ∷ 255 ∷ 255 ∷ 16 ∷ 0 ∷ 255 ∷ 255 ∷ 112 ∷ 0 ∷ (len ++ (255 ∷ 255 ∷ rest))

checked_length :
    (xs : List ℕ) (n : ℕ) → raise_if (not (length xs == n)) value_error ≡ ok tt → length xs ≡ n
checked_length xs n h = ground arith

pos-injective : {m n : ℕ} → pos m ≡ pos n → m ≡ n
pos-injective h = cc

-- The data that the builder makes for a key, a signature and a message holds just these, where the
-- program looks for them.
pub verify_data-IsSigned :
    (public_key signature message : List ℕ) {bytes : List ℕ}
    → verify_data public_key signature message ≡ ok bytes
    → IsSigned bytes public_key signature message
unfolding verify_data le_bytes layout assemble
verify_data-IsSigned public_key signature message h =
    let (_, k, h1) = >>=-eq-ok (raise_if (not (length public_key == 32)) value_error) _ h in
    let (_, s, h2) = >>=-eq-ok (raise_if (not (length signature == 64)) value_error) _ h1 in
    let (len, made, h3) = >>=-eq-ok (to_bytes 2 (pos (length message))) _ h2 in
    let (v, e, lt, le) = to_bytes_ok 2 (pos (length message)) made in
    let rest = public_key ++ (signature ++ message) in
    subst (λ bytes. IsSigned bytes public_key signature message)
      (ap (λ l. assemble l rest) (sym le) ∙ ok-injective h3)
      (layout-IsSigned this_instruction (v % 256) (v / 256 % 256) public_key signature message
        (checked_length public_key 32 k) (checked_length signature 64 s)
        (from_bytes-le_bytes 2 v lt ∙ pos-injective (sym e)))
