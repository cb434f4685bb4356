-- ===== src/Chain/Pda.antt =====
-- sdk/python/tap/chain/pda.py, discriminator.py and the constants that the builders take from
-- solders and spl: all of them are fields of `Solana`, which no law restricts but the width of a
-- hash.
use tap.Base.{ℕ, ◌≡◌, List, [], ◌∷◌, ◌++◌, String, length, take}
use tap.Base.Int.{ℤ}
use tap.Base.Text.{codes}
use tap.Base.Bytes.{to_bytes}
use tap.Base.Exceptions.{Result, ok, ◌>>=◌}
use tap.External.{Keys}

pub record Solana (K : Type 0) : Type 0 where
  -- `Pubkey.find_program_address(seeds, program)`: the address and its bump
  pub find_program_address : List (List ℕ) → K → K × ℕ
  -- `hashlib.sha256(b).digest()`
  pub sha256 : List ℕ → List ℕ
  pub length-sha256 : (b : List ℕ) → length (sha256 b) ≡ 32
  -- `PROGRAM_ID` and `USDC_MINT_DEVNET` of chain/program_id.py
  pub program_id : K
  pub usdc_mint_devnet : K
  pub system_program_id : K
  pub token_program_id : K
  pub associated_token_program_id : K
  pub rent_sysvar : K
  pub instructions_sysvar : K
  pub ed25519_program_id : K

module _ {K : Type 0} (solana : Solana K) where
  open solana use {sha256}

  -- `_disc(name)` of chain/discriminator.py
  unfoldable pub disc : String → List ℕ
  disc name = take 8 (sha256 (codes "global:" ++ codes name))

  -- `_account_disc(name)` of chain/channel_account.py
  unfoldable pub account_disc : String → List ℕ
  account_disc name = take 8 (sha256 (codes "account:" ++ codes name))

module _ {K : Type 0} ⦃keys : Keys K⦄ (solana : Solana K) where
  open keys use {key_bytes}
  open solana use {find_program_address, program_id, token_program_id, associated_token_program_id}

  -- A nonce that is negative or needs more than eight bytes raises.
  unfoldable pub derive_channel_pda : K → K → ℤ → Result (K × ℕ)
  derive_channel_pda consumer producer nonce = do
    nonce_bytes ← to_bytes 8 nonce
    ok (
        find_program_address
          (codes "tap-channel" ∷ key_bytes consumer ∷ key_bytes producer ∷ nonce_bytes ∷ [])
          program_id)

  unfoldable pub derive_vault_pda : K → K × ℕ
  derive_vault_pda channel =
      find_program_address (codes "tap-vault" ∷ key_bytes channel ∷ []) program_id

  unfoldable pub derive_ata : K → K → K
  derive_ata owner mint =
      (find_program_address (key_bytes owner ∷ key_bytes token_program_id ∷ key_bytes mint ∷ [])
        associated_token_program_id).0
