-- ===== src/Tokenizer.antt =====
-- sdk/python/tap/tokenizer.py. The module's registry is a dictionary that is passed along. `\w` of
-- the default tokenizer is taken at ASCII letters, digits and the underscore, and `\s` at ASCII
-- white space; what a code point beyond ASCII is, is the argument `is_word`.
pub mod Counts
use tap.Base.{
  ℕ, ◌+◌, ◌≡◌, Bool, true, false, ◌||◌, ◌&&◌, Option, none, some, List, [], ◌∷◌, ◌==◌, leb,
  if◌then◌else◌,
}
use tap.Base.Text.{Text, text_eq, is_space}
use tap.Base.Exceptions.{Result, ok, err, key_error}

abbrev pub Tokenizer : Type 0
Tokenizer = Text → ℕ

abbrev pub Registry : Type 0
Registry = List (Text × Tokenizer)

-- `_REGISTRY[name] = tokenizer`
unfoldable pub register : Text → Tokenizer → Registry → Registry
register name tokenizer [] = (name, tokenizer) ∷ []
register name tokenizer ((n, t) ∷ rest) =
    if text_eq n name then (name, tokenizer) ∷ rest else (n, t) ∷ register name tokenizer rest

unfoldable pub find : Text → Registry → Option Tokenizer
find name [] = none
find name ((n, t) ∷ rest) = if text_eq n name then some t else find name rest

unfoldable pub is_registered : Registry → Text → Bool
unfolding find
is_registered registry name = elim (find name registry) [ some _ ↦ true | none ↦ false ]

unfoldable pub count : Registry → Text → Text → Result ℕ
unfolding find
count registry name text = elim (find name registry) [ some t ↦ ok (t text) | none ↦ err key_error ]

module _ (is_word : ℕ → Bool) where
  -- `len(re.findall(r"\w+|[^\w\s]", text))`; `in_word` while inside a run of `\w+`.
  unfoldable pub count_tokens : Bool → Text → ℕ
  unfolding is_space
  count_tokens in_word [] = 0
  count_tokens in_word (c ∷ s) =
      (if is_word c then (if in_word then 0 else 1) else (if is_space c then 0 else 1))
      + count_tokens (is_word c) s

  unfoldable pub tap_v1 : Tokenizer
  unfolding count_tokens
  tap_v1 [] = 0
  tap_v1 (c ∷ s) = count_tokens false (c ∷ s)
