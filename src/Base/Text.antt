-- ===== src/Base/Text.antt =====
-- Python's `str` as its code points, with the tests and cuts that the SDK makes.
use Prim.Native.Char.{code}
use tap.Base.{
  ℕ, suc, ◌≡◌, refl, ap, ◌↔◌, String, Bool, true, false, ◌&&◌, ◌||◌, List, [], ◌∷◌, ◌++◌, Option,
  none, some, arith, ◌==◌, leb, if◌then◌else◌, any,
}

abbrev pub Text : Type 0
Text = List ℕ

-- The code points of an ASCII literal.
abbrev pub codes : String → Text
codes String.[] = []
codes (String.◌∷◌ c s) = code c ∷ codes s

-- `s == t`
unfoldable pub text_eq : Text → Text → Bool
text_eq [] [] = true
text_eq [] (y ∷ ys) = false
text_eq (x ∷ xs) [] = false
text_eq (x ∷ xs) (y ∷ ys) = x == y && text_eq xs ys

pub text_eq_iff : (s t : Text) → (text_eq s t ≡ true) ↔ (s ≡ t)
unfolding text_eq
text_eq_iff [] [] = ground arith
text_eq_iff [] (y ∷ ys) = ground arith
text_eq_iff (x ∷ xs) [] = ground arith
text_eq_iff (x ∷ xs) (y ∷ ys) = ground (arith, text_eq_iff xs ys)

pub text_eq_refl : (s : Text) → text_eq s s ≡ true
text_eq_refl s = (text_eq_iff s s).1 refl

-- `s.startswith(prefix)`
unfoldable pub starts_with : Text → Text → Bool
starts_with s [] = true
starts_with [] (p ∷ ps) = false
starts_with (c ∷ s) (p ∷ ps) = c == p && starts_with s ps

-- `str.isspace` of one character, which `str.strip` removes.
unfoldable pub is_space : ℕ → Bool
is_space c =
    c == 32
    || (leb 9 c && leb c 13)
    || (leb 28 c && leb c 31)
    || c == 0x85
    || c == 0xa0
    || c == 0x1680
    || (leb 0x2000 c && leb c 0x200a)
    || c == 0x2028
    || c == 0x2029
    || c == 0x202f
    || c == 0x205f
    || c == 0x3000

-- `s.lstrip()`
unfoldable pub lstrip : Text → Text
unfolding is_space
lstrip [] = []
lstrip (c ∷ s) = let rest = lstrip s in if is_space c then rest else c ∷ s

-- `s.rstrip()`
unfoldable pub rstrip : Text → Text
unfolding is_space
rstrip [] = []
rstrip (c ∷ s) = elim (rstrip s) [ [] ↦ if is_space c then [] else c ∷ [] | d ∷ t ↦ c ∷ d ∷ t ]

-- `s.strip()`
unfoldable pub strip : Text → Text
unfolding lstrip rstrip
strip s = rstrip (lstrip s)

rstrip_keeps : (c d : ℕ) (s t : Text) → rstrip s ≡ d ∷ t → rstrip (c ∷ s) ≡ c ∷ d ∷ t
unfolding rstrip
rstrip_keeps c d s t h =
    ap (λ r. elim r [ [] ↦ if is_space c then [] else c ∷ [] | d ∷ t ↦ c ∷ d ∷ t ]) h

-- A text that ends in a character which is no space keeps its end.
pub rstrip-append : (c : ℕ) (s : Text) → is_space c ≡ false → rstrip (s ++ (c ∷ [])) ≡ s ++ (c ∷ [])
unfolding rstrip
rstrip-append c [] h = ground (arith, h)
rstrip-append c (d ∷ []) h = rstrip_keeps d c (c ∷ []) [] (rstrip-append c [] h)
rstrip-append c (d ∷ e ∷ s) h =
    rstrip_keeps d e (e ∷ (s ++ (c ∷ []))) (s ++ (c ∷ [])) (rstrip-append c (e ∷ s) h)

-- `needle in s`
unfoldable pub contains : Text → Text → Bool
unfolding starts_with
contains needle [] = starts_with [] needle
contains needle (c ∷ s) = starts_with (c ∷ s) needle || contains needle s

-- `s.find(c)` for one character; `none` for -1.
unfoldable pub find_char : ℕ → Text → Option ℕ
find_char c [] = none
find_char c (d ∷ s) = elim (d == c) [
  | true ↦ some 0
  | false ↦ elim (find_char c s) [ none ↦ none | some i ↦ some (suc i) ]
]

-- `s in {...}`
abbrev pub text_in : Text → List Text → Bool
text_in s = any (text_eq s)
