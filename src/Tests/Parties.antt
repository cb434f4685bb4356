-- ===== src/Tests/Parties.antt =====
-- Four named keys, and signatures that repeat the tag of their key: concrete stand-ins for solders
-- and PyNaCl, with the laws that the theorems rely on.
use tap.Base.{
  ℕ, ◌≡◌, refl, ◌↔◌, Bool, true, false, Option, none, some, List, [], ◌∷◌, ◌++◌, ◌==◌, arith, All,
  length, if◌then◌else◌,
}
use tap.Base.Bytes.{IsByte}
use tap.External.{Keys, Ed25519}

pub data Party : Type 0 where
  channel producer consumer session : Party

abbrev pub tag : Party → ℕ
tag channel = 1
tag producer = 2
tag consumer = 3
tag session = 4

abbrev pub party : ℕ → Option Party
party n =
    if n == 1
    then some channel
    else if n == 2
    then some producer
    else if n == 3
    then some consumer
    else if n == 4
    then some session
    else none

abbrev pub first : List ℕ → Option Party
first [] = none
first (n ∷ _) = party n

abbrev pub zeros_31 : List ℕ
zeros_31 =
    0 ∷ 0 ∷ 0 ∷ 0 ∷ 0 ∷ 0 ∷ 0 ∷ 0 ∷ 0 ∷ 0 ∷ 0 ∷ 0 ∷ 0 ∷ 0 ∷ 0 ∷ 0 ∷ 0 ∷ 0 ∷ 0 ∷ 0 ∷ 0 ∷ 0 ∷ 0 ∷ 0
    ∷ 0 ∷ 0 ∷ 0 ∷ 0 ∷ 0 ∷ 0 ∷ 0 ∷ []

abbrev pub bytes_of : Party → List ℕ
bytes_of p = tag p ∷ zeros_31

abbrev pub same : Party → Party → Bool
same p q = tag p == tag q

pub same_iff : (p q : Party) → (same p q ≡ true) ↔ (p ≡ q)
same_iff p q = ground arith

pub length-bytes_of : (p : Party) → length (bytes_of p) ≡ 32
length-bytes_of p = refl

pub bytes_of-IsByte : (p : Party) → All IsByte (bytes_of p)
bytes_of-IsByte channel = ground arith
bytes_of-IsByte producer = ground arith
bytes_of-IsByte consumer = ground arith
bytes_of-IsByte session = ground arith

pub first-bytes_of : (p : Party) → first (bytes_of p) ≡ some p
first-bytes_of channel = refl
first-bytes_of producer = refl
first-bytes_of consumer = refl
first-bytes_of session = refl

instance abbrev pub parties : Keys Party
parties = record {
  beq = same;
  beq_iff = same_iff;
  key_bytes = bytes_of;
  length-key_bytes = length-bytes_of;
  key_bytes-IsByte = bytes_of-IsByte;
  from_key_bytes = first;
  from_key_bytes_lem = first-bytes_of;
  key_str = bytes_of;
  from_string = first;
  from_string_lem = first-bytes_of;
}

abbrev pub signature_of : Party → List ℕ
signature_of p = tag p ∷ 0 ∷ (zeros_31 ++ zeros_31)

abbrev pub heads_agree : List ℕ → List ℕ → Bool
heads_agree (a ∷ _) (b ∷ _) = a == b
heads_agree _ _ = false

pub heads_agree_signature : (p : Party) → heads_agree (bytes_of p) (signature_of p) ≡ true
heads_agree_signature p = ground arith

abbrev pub signer : Ed25519 Party
signer = record {
  verify_key = bytes_of;
  sign = λ p _. signature_of p;
  verify = λ key _ signature. heads_agree key signature;
  length-sign = λ _ _. refl;
  verify-sign = λ p _. heads_agree_signature p;
}
