-- ===== src/Chain/Account/Layout.antt =====
-- The bytes of a channel's account as the program writes them (programs/tap/src/state/channel.rs),
-- read back by sdk/python/tap/chain/channel_account.py.
use tap.Base.{
  ℕ, zero, suc, ◌+◌, ◌-◌, ◌<◌, ◌^◌, ◌≡◌, refl, ◌∙◌, ap, List, [], ◌∷◌, ◌++◌, length, take, drop,
  length-append, take-append, arith,
}
use tap.Base.Int.{ℤ, pos, negsuc}
use tap.Base.Bytes.{le_bytes}
use tap.External.{Keys}
use tap.Chain.Account.{ChannelStatus, active, settling, closed, ChannelAccount, slice}

-- An `i64` by its eight bytes.
unfoldable pub le_bytes_i64 : ℤ → List ℕ
le_bytes_i64 (pos n) = le_bytes 8 n
le_bytes_i64 (negsuc n) = le_bytes 8 (2 ^ 64 - 1 - n)

abbrev pub status_byte : ChannelStatus → ℕ
status_byte active = 0
status_byte settling = 1
status_byte closed = 2

abbrev pub flat : List (List ℕ) → List ℕ
flat [] = []
flat (c ∷ chunks) = c ++ flat chunks

module _ {K : Type 0} ⦃keys : Keys K⦄ where
  open keys use {key_bytes}

  -- The fields in their order, after the discriminator.
  abbrev pub chunks : List ℕ → ChannelAccount K → List (List ℕ)
  chunks discriminator a =
      discriminator
      ∷ le_bytes 1 a.bump
      ∷ le_bytes 1 a.vault_bump
      ∷ le_bytes 8 a.nonce
      ∷ key_bytes a.consumer
      ∷ key_bytes a.producer
      ∷ key_bytes a.session_key
      ∷ le_bytes 8 a.deposit_micro
      ∷ le_bytes 8 a.input_price_micro
      ∷ le_bytes 8 a.output_price_micro
      ∷ le_bytes 8 a.prepaid_input_micro
      ∷ le_bytes 8 a.trailing_buffer_micro
      ∷ le_bytes 8 a.last_sequence
      ∷ le_bytes 8 a.last_cumulative_paid
      ∷ le_bytes_i64 a.expires_at
      ∷ le_bytes_i64 a.settled_at
      ∷ le_bytes 4 a.dispute_secs
      ∷ le_bytes 1 (status_byte a.status)
      ∷ []

  unfoldable pub channel_bytes : List ℕ → ChannelAccount K → List ℕ
  unfolding le_bytes_i64
  channel_bytes discriminator a = flat (chunks discriminator a)

abbrev pub IsI64 : ℤ → Type 0
IsI64 (pos n) = n < 2 ^ 63
IsI64 (negsuc n) = n < 2 ^ 63

-- The fields fit their types.
pub record IsAccount {K : Type 0} (a : ChannelAccount K) : Type 0 where
  pub bump : a.bump < 256 ^ 1
  pub vault_bump : a.vault_bump < 256 ^ 1
  pub nonce : a.nonce < 256 ^ 8
  pub deposit_micro : a.deposit_micro < 256 ^ 8
  pub input_price_micro : a.input_price_micro < 256 ^ 8
  pub output_price_micro : a.output_price_micro < 256 ^ 8
  pub prepaid_input_micro : a.prepaid_input_micro < 256 ^ 8
  pub trailing_buffer_micro : a.trailing_buffer_micro < 256 ^ 8
  pub last_sequence : a.last_sequence < 256 ^ 8
  pub last_cumulative_paid : a.last_cumulative_paid < 256 ^ 8
  pub expires_at : IsI64 a.expires_at
  pub settled_at : IsI64 a.settled_at
  pub dispute_secs : a.dispute_secs < 256 ^ 4

-- Chunks of given widths.
abbrev pub HasWidths : List ℕ → List (List ℕ) → Type 0
HasWidths [] [] = Unit
HasWidths (w ∷ ws) (c ∷ cs) = (length c ≡ w) × HasWidths ws cs
HasWidths _ _ = ⊥

abbrev pub offset : ℕ → List ℕ → ℕ
offset zero ws = 0
offset (suc k) [] = 0
offset (suc k) (w ∷ ws) = w + offset k ws

abbrev pub width : ℕ → List ℕ → ℕ
width k [] = 0
width zero (w ∷ ws) = w
width (suc k) (w ∷ ws) = width k ws

abbrev pub chunk : ℕ → List (List ℕ) → List ℕ
chunk k [] = []
chunk zero (c ∷ cs) = c
chunk (suc k) (c ∷ cs) = chunk k cs

drop_chunk : (c rest : List ℕ) (w o : ℕ) → length c ≡ w → drop (w + o) (c ++ rest) ≡ drop o rest
drop_chunk [] rest zero o h = ap (λ n. drop n rest) (omega arith)
drop_chunk [] rest (suc w) o h = absurd (omega (arith, h))
drop_chunk (x ∷ c) rest zero o h = absurd (omega (arith, h))
drop_chunk (x ∷ c) rest (suc w) o h =
    ap (λ n. drop n (x ∷ (c ++ rest))) (suc-plus w o) ∙ drop_chunk c rest w o (omega (arith, h))
  where
    suc-plus : (m n : ℕ) → suc m + n ≡ suc (m + n)
    suc-plus m n = omega arith

pub slice-chunk :
    (k : ℕ) (ws : List ℕ) (cs : List (List ℕ))
    → HasWidths ws cs
    → slice (offset k ws) (width k ws) (flat cs) ≡ chunk k cs
slice-chunk zero [] [] h = refl
slice-chunk (suc k) [] [] h = refl
slice-chunk zero [] (c ∷ cs) h = absurd h
slice-chunk zero (w ∷ ws) [] h = absurd h
slice-chunk (suc k) [] (c ∷ cs) h = absurd h
slice-chunk (suc k) (w ∷ ws) [] h = absurd h
slice-chunk zero (w ∷ ws) (c ∷ cs) h = take-append w c (flat cs) h.0
slice-chunk (suc k) (w ∷ ws) (c ∷ cs) h =
    ap (take (width k ws)) (drop_chunk c (flat cs) w (offset k ws) h.0) ∙ slice-chunk k ws cs h.1

pub length-flat :
    (ws : List ℕ) (cs : List (List ℕ)) → HasWidths ws cs → length (flat cs) ≡ offset (length ws) ws
length-flat [] [] h = refl
length-flat [] (c ∷ cs) h = absurd h
length-flat (w ∷ ws) [] h = absurd h
length-flat (w ∷ ws) (c ∷ cs) h =
    omega (arith, h.0, length-append c (flat cs), length-flat ws cs h.1)
