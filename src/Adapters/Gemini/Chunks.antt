-- ===== src/Adapters/Gemini/Chunks.antt =====
-- `_split_chunk` of sdk/python/tap/adapters/gemini.py.
use tap.Base.{
  ℕ, Bool, true, false, ◌&&◌, not, List, [], ◌∷◌, ◌++◌, ◌==◌, ltb, leb, length, if◌then◌else◌,
}
use tap.Base.Text.{Text}

-- A letter in front of the first of the words.
abbrev pub onto_first : ℕ → List Text → List Text
onto_first c [] = (c ∷ []) ∷ []
onto_first c (w ∷ ws) = (c ∷ w) ∷ ws

-- `text.split(" ")`
unfoldable pub split_spaces : Text → List Text
split_spaces [] = [] ∷ []
split_spaces (c ∷ t) =
    let words = split_spaces t in if c == b' ' then [] ∷ words else onto_first c words

abbrev pub is_empty : Text → Bool
is_empty [] = true
is_empty (_ ∷ _) = false

-- `(current + " " + word) if current else word`
abbrev pub joined : Text → Text → Text
joined [] word = word
joined (c ∷ current) word = (c ∷ current) ++ (b' ' ∷ word)

-- The loop over the words, with the last piece.
unfoldable pub pieces_of : ℕ → Text → List Text → List Text
pieces_of max_chunk_chars current [] = if is_empty current then [] else current ∷ []
pieces_of max_chunk_chars current (word ∷ words) =
    let split = pieces_of max_chunk_chars word words in
    let grown = pieces_of max_chunk_chars (joined current word) words in
    if ltb max_chunk_chars (length (joined current word)) && not (is_empty current)
    then (current ++ (b' ' ∷ [])) ∷ split
    else grown

unfoldable pub split_chunk : ℕ → Text → List Text
unfolding split_spaces pieces_of
split_chunk max_chunk_chars text =
    if leb (length text) max_chunk_chars
    then text ∷ []
    else pieces_of max_chunk_chars [] (split_spaces text)
