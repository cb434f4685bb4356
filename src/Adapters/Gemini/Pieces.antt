-- ===== src/Adapters/Gemini/Pieces.antt =====
-- What the pieces of a chunk are together: `_split_chunk` of sdk/python/tap/adapters/gemini.py.
use tap.Base.{
  ℕ, suc, ◌≤◌, ◌≡◌, refl, ◌∙◌, ap, true, false, List, [], ◌∷◌, ◌++◌, ◌==◌, All, ltb, leb, length,
  arith, if-cases, ◌&&◌,
}
use tap.Base.Text.{Text}
use tap.Adapters.Gemini.Chunks.{split_spaces, pieces_of, split_chunk, onto_first, is_empty}

-- `"".join(pieces)`
abbrev pub concat : List Text → Text
concat [] = []
concat (p ∷ pieces) = p ++ concat pieces

-- The words, each after a space.
abbrev spaced : List Text → Text
spaced [] = []
spaced (w ∷ words) = b' ' ∷ (w ++ spaced words)

append_assoc : (s t u : Text) → (s ++ t) ++ u ≡ s ++ (t ++ u)
append_assoc [] t u = refl
append_assoc (c ∷ s) t u = ap (λ r. c ∷ r) (append_assoc s t u)

append_none : (s : Text) → s ++ [] ≡ s
append_none [] = refl
append_none (c ∷ s) = ap (λ r. c ∷ r) (append_none s)

-- From a current piece that is not empty, over words that are not.
concat-pieces_of :
    (n : ℕ) (c : ℕ) (current : Text) (words : List Text)
    → All (λ w. is_empty w ≡ false) words
    → concat (pieces_of n (c ∷ current) words) ≡ (c ∷ current) ++ spaced words
unfolding pieces_of
concat-pieces_of n c current [] h = refl
concat-pieces_of n c current ([] ∷ words) h = cc
concat-pieces_of n c current ((d ∷ w) ∷ words) h =
    if-cases (λ r. concat r ≡ (c ∷ current) ++ spaced ((d ∷ w) ∷ words))
      (ltb n (length ((c ∷ current) ++ (b' ' ∷ d ∷ w))) && true)
      (λ _.
        ap (λ r. ((c ∷ current) ++ (b' ' ∷ [])) ++ r) (concat-pieces_of n d w words h.1)
        ∙ append_assoc (c ∷ current) (b' ' ∷ []) ((d ∷ w) ++ spaced words))
      (λ _.
        concat-pieces_of n c (current ++ (b' ' ∷ d ∷ w)) words h.1
        ∙ append_assoc (c ∷ current) (b' ' ∷ d ∷ w) (spaced words))

spaced-onto_first :
    (c : ℕ) (words : List Text) (t : Text)
    → spaced words ≡ b' ' ∷ t
    → spaced (onto_first c words) ≡ b' ' ∷ c ∷ t
spaced-onto_first c [] t h = cc
spaced-onto_first c (w ∷ words) t h = cc

spaced-split_spaces : (t : Text) → spaced (split_spaces t) ≡ b' ' ∷ t
unfolding split_spaces
spaced-split_spaces [] = refl
spaced-split_spaces (c ∷ t) =
    if-cases (λ r. spaced r ≡ b' ' ∷ c ∷ t) (c == b' ')
      (λ e. ap (λ r. b' ' ∷ r) (spaced-split_spaces t) ∙ ap (λ d. b' ' ∷ d ∷ t) (ground (arith, e)))
      (λ _. spaced-onto_first c (split_spaces t) t (spaced-split_spaces t))

-- A piece that is empty takes the next word as it is.
pieces_of-first :
    (n : ℕ) (word : Text) (words : List Text)
    → pieces_of n [] (word ∷ words) ≡ pieces_of n word words
unfolding pieces_of
pieces_of-first n word words =
    if-cases (λ r. r ≡ pieces_of n word words) (ltb n (length word) && false)
      (λ h. ground (arith, h)) (λ _. refl)

concat-words :
    (n : ℕ) (t : Text) (words : List Text)
    → All (λ w. is_empty w ≡ false) words
    → spaced words ≡ b' ' ∷ t
    → concat (pieces_of n [] words) ≡ t
concat-words n t [] h e = cc
concat-words n t ([] ∷ words) h e = cc
concat-words n t ((d ∷ w) ∷ words) h e =
    ap concat (pieces_of-first n (d ∷ w) words) ∙ (concat-pieces_of n d w words h.1 ∙ cc)

-- The pieces of a text are together the text, if no two spaces stand side by side and none at
-- either end.
pub concat-split_chunk :
    (n : ℕ) (t : Text)
    → All (λ w. is_empty w ≡ false) (split_spaces t)
    → concat (split_chunk n t) ≡ t
unfolding split_chunk
concat-split_chunk n t h =
    if-cases (λ r. concat r ≡ t) (leb (length t) n) (λ _. append_none t)
      (λ _. concat-words n t (split_spaces t) h (spaced-split_spaces t))

-- A space in front of such a text is lost, unless the whole is within the limit: the pieces are
-- together the text without it.
pub concat-split_chunk_lead :
    (n : ℕ) (t : Text)
    → All (λ w. is_empty w ≡ false) (split_spaces t)
    → n ≤ length t
    → concat (split_chunk n (b' ' ∷ t)) ≡ t
unfolding split_chunk split_spaces
concat-split_chunk_lead n t h long =
    if-cases (λ r. concat r ≡ t) (leb (suc (length t)) n) (λ e. ground (arith, e, long))
      (λ _.
        ap concat (pieces_of-first n [] (split_spaces t))
        ∙ concat-words n t (split_spaces t) h (spaced-split_spaces t))
