-- ===== src/Chain/Program.antt =====
-- sdk/python/tap/chain/instructions.py: the builders of the four instructions of the program.
use tap.Base.{ℕ, not, String, List, [], ◌∷◌, ◌++◌, length, ◌==◌}
use tap.Base.Int.{ℤ}
use tap.Base.Bytes.{to_bytes}
use tap.Base.Exceptions.{Result, ok, value_error, raise_if, ◌>>=◌, ◌>>◌}
use tap.External.{Keys}
use tap.Protocol.Commit.{CommitMessage}
use tap.Protocol.Codec.{encode_commitment_bytes}
use tap.Chain.Pda.{Solana, disc, derive_channel_pda, derive_vault_pda}
use tap.Chain.Instruction.{Instruction, payer, writable, readonly}

-- The keyword arguments of `open_channel_ix`.
pub record OpenTerms (K : Type 0) : Type 0 where
  pub consumer : K
  pub producer : K
  pub consumer_usdc : K
  pub usdc_mint : K
  pub session_key : K
  pub deposit_micro : ℤ
  pub input_price_micro : ℤ
  pub output_price_micro : ℤ
  pub prepaid_input_micro : ℤ
  pub duration_secs : ℤ
  pub dispute_secs : ℤ
  pub trailing_buffer : ℤ

module _ {K : Type 0} ⦃keys : Keys K⦄ (solana : Solana K) where
  open keys use {key_bytes}
  open solana use {
    program_id, system_program_id, token_program_id, associated_token_program_id, rent_sysvar,
    instructions_sysvar,
  }

  unfoldable pub open_channel_ix : OpenTerms K → ℤ → Result (Instruction K)
  open_channel_ix t nonce = do
    (channel, _) ← derive_channel_pda solana t.consumer t.producer nonce
    let vault = (derive_vault_pda solana channel).0
    nonce_bytes ← to_bytes 8 nonce
    deposit ← to_bytes 8 t.deposit_micro
    input_price ← to_bytes 8 t.input_price_micro
    output_price ← to_bytes 8 t.output_price_micro
    prepaid_input ← to_bytes 8 t.prepaid_input_micro
    duration ← to_bytes 4 t.duration_secs
    dispute ← to_bytes 4 t.dispute_secs
    trailing_buffer ← to_bytes 4 t.trailing_buffer
    ok (record {
      program_id = program_id;
      data_bytes =
          disc solana "open_channel"
          ++ (nonce_bytes
              ++ (key_bytes t.session_key
                  ++ (deposit
                      ++ (input_price
                          ++ (output_price
                              ++ (prepaid_input ++ (duration ++ (dispute ++ trailing_buffer))))))));
      accounts =
          payer t.consumer
          ∷ readonly t.producer
          ∷ writable channel
          ∷ writable vault
          ∷ readonly t.usdc_mint
          ∷ writable t.consumer_usdc
          ∷ readonly system_program_id
          ∷ readonly token_program_id
          ∷ readonly associated_token_program_id
          ∷ readonly rent_sysvar
          ∷ [];
    })

  -- `_commit_carrying_ix`; the discriminator is named.
  unfoldable pub commit_carrying_ix :
      String → K → K → K → K → CommitMessage K → List ℕ → Result (Instruction K)
  commit_carrying_ix name caller channel consumer producer commitment signature = do
    raise_if (not (length signature == 64)) value_error
    bytes ← encode_commitment_bytes commitment
    ok (record {
      program_id = program_id;
      data_bytes = disc solana name ++ (bytes ++ signature);
      accounts =
          payer caller
          ∷ writable channel
          ∷ readonly consumer
          ∷ readonly producer
          ∷ readonly instructions_sysvar
          ∷ [];
    })

  unfoldable pub settle_ix : K → K → K → K → CommitMessage K → List ℕ → Result (Instruction K)
  unfolding commit_carrying_ix
  settle_ix = commit_carrying_ix "settle"

  unfoldable pub dispute_ix : K → K → K → K → CommitMessage K → List ℕ → Result (Instruction K)
  unfolding commit_carrying_ix
  dispute_ix = commit_carrying_ix "dispute"

  unfoldable pub close_ix : K → K → K → K → K → K → Instruction K
  close_ix caller channel consumer producer consumer_usdc producer_usdc = record {
    program_id = program_id;
    data_bytes = disc solana "close";
    accounts =
        payer caller
        ∷ writable channel
        ∷ writable consumer
        ∷ readonly producer
        ∷ writable (derive_vault_pda solana channel).0
        ∷ writable producer_usdc
        ∷ writable consumer_usdc
        ∷ readonly token_program_id
        ∷ [];
  }
