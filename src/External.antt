-- ===== src/External.antt =====
-- What the SDK relies on from packages outside the repository: `solders` public keys and PyNaCl
-- signatures. Each is a record of operations with their documented behaviour, given as an instance.
use mathlib.Core.Logic.{◌↔◌}
use tap.Base.{ℕ, ◌≡◌, Bool, true, List, Option, some, All, length}
use tap.Base.Bytes.{IsByte}
use tap.Base.Text.{Text}

-- `solders.pubkey.Pubkey`: 32 bytes, compared by value, with a base58 text.
pub record Keys (K : Type 0) : Type 0 where
  pub beq : K → K → Bool
  pub beq_iff : (a b : K) → (beq a b ≡ true) ↔ (a ≡ b)
  -- `bytes(key)` and `Pubkey.from_bytes`
  pub key_bytes : K → List ℕ
  pub length-key_bytes : (k : K) → length (key_bytes k) ≡ 32
  pub key_bytes-IsByte : (k : K) → All IsByte (key_bytes k)
  pub from_key_bytes : List ℕ → Option K
  pub from_key_bytes_lem : (k : K) → from_key_bytes (key_bytes k) ≡ some k
  -- `str(key)` and `Pubkey.from_string`
  pub key_str : K → Text
  pub from_string : Text → Option K
  pub from_string_lem : (k : K) → from_string (key_str k) ≡ some k

infix 50 ◌==ₖ◌
abbrev pub ◌==ₖ◌ : {K : Type 0} ⦃keys : Keys K⦄ → K → K → Bool
◌==ₖ◌ ⦃keys⦄ = keys.beq

-- `nacl.signing`: deterministic Ed25519 over byte strings. `verify` takes the bytes of the public
-- key, the message and the signature; `false` stands for `BadSignatureError`.
pub record Ed25519 (SK : Type 0) : Type 0 where
  pub verify_key : SK → List ℕ
  pub sign : SK → List ℕ → List ℕ
  pub verify : List ℕ → List ℕ → List ℕ → Bool
  pub length-sign : (sk : SK) (m : List ℕ) → length (sign sk m) ≡ 64
  pub verify-sign : (sk : SK) (m : List ℕ) → verify (verify_key sk) m (sign sk m) ≡ true
