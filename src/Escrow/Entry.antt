-- ===== src/Escrow/Entry.antt =====
-- programs/tap/src/lib.rs: the entry points `settle` and `close`, with the lists of accounts that
-- they take. Anchor matches the data of an instruction by its discriminator, reads the arguments in
-- their order, little-endian, and takes the accounts by position; accounts and bytes beyond those
-- are left alone. The bump of the vault, which the account keeps, is the one that its address is
-- derived with.
pub mod Reads
use tap.Base.{ℕ, String, not, Option, none, some, List, ◌∷◌, length, take, leb}
use tap.Base.Int.{ℤ}
use tap.Base.Text.{text_eq}
use tap.Base.Bytes.{from_bytes}
use tap.Base.Exceptions.{external, Result, ok, err, raise_if, or_raise, ◌>>=◌, ◌>>◌}
use tap.External.{Keys, ◌==ₖ◌}
use tap.Chain.Pda.{Solana, disc, derive_vault_pda}
use tap.Chain.Account.{ChannelAccount, slice}
use tap.Chain.Instruction.{AccountMeta, Instruction}
use tap.Escrow.Commitment.{Commitment}
use tap.Escrow.Handlers.{TokenProgram, Escrow, settle, close}

-- What the program finds at an address: a channel's account, and the balance and the owner of a
-- token account.
pub record Ledger (K : Type 0) : Type 0 where
  pub channels : K → Option (ChannelAccount K)
  pub balance : K → ℕ
  pub owner : K → Option K

-- `Settle`, less the signer and the sysvar.
pub record SettleAccounts (K : Type 0) : Type 0 where
  pub channel : K
  pub consumer : K
  pub producer : K

-- `Close`, less the signer and the token program.
pub record CloseAccounts (K : Type 0) : Type 0 where
  pub channel : K
  pub consumer : K
  pub producer : K
  pub vault : K
  pub producer_usdc : K
  pub consumer_usdc : K

module _ {K : Type 0} where
  -- `#[account(mut)] caller: Signer`, and `mut` on the others.
  abbrev pub check_caller : AccountMeta K → Result (Unit {0})
  check_caller caller = do
    raise_if (not caller.is_signer) (external "AccountNotSigner")
    raise_if (not caller.is_writable) (external "ConstraintMut")

  abbrev pub check_mut : AccountMeta K → Result (Unit {0})
  check_mut account = raise_if (not account.is_writable) (external "ConstraintMut")

module _ {K : Type 0} ⦃keys : Keys K⦄ (solana : Solana K) where
  open keys use {from_key_bytes}

  -- The instruction is for this program, and names this entry point.
  unfoldable pub check_entry : String → Instruction K → Result (Unit {0})
  check_entry name ix = do
    raise_if (not (ix.program_id ==ₖ solana.program_id)) (external "other program")
    raise_if (not (text_eq (take 8 ix.data_bytes) (disc solana name)))
        (external "InstructionFallbackNotFound")

  -- The arguments of `settle`: a `CommitMessage` and `[u8; 64]`.
  unfoldable pub commit_args : List ℕ → Result (Commitment K × List ℕ)
  commit_args bytes = do
    raise_if (not (leb 132 (length bytes))) (external "InstructionDidNotDeserialize")
    channel ← or_raise (from_key_bytes (slice 8 32 bytes)) (external "InstructionDidNotDeserialize")
    ok (
      record {
        channel = channel;
        sequence = from_bytes (slice 40 8 bytes);
        cumulative_paid = from_bytes (slice 48 8 bytes);
        tokens_received = from_bytes (slice 56 4 bytes);
        timestamp_ms = from_bytes (slice 60 8 bytes);
      },
      slice 68 64 bytes,
    )

  unfoldable pub settle_accounts : List (AccountMeta K) → Result (SettleAccounts K)
  settle_accounts (caller ∷ channel ∷ consumer ∷ producer ∷ sysvar ∷ _) = do
    check_caller caller
    check_mut channel
    raise_if (not (sysvar.pubkey ==ₖ solana.instructions_sysvar)) (external "ConstraintAddress")
    ok (record { channel = channel.pubkey; consumer = consumer.pubkey; producer = producer.pubkey })
  settle_accounts _ = err (external "AccountNotEnoughKeys")

  -- `settle` on an instruction of a transaction: the channel's address and its account after.
  unfoldable pub settle_entry :
      Ledger K → ℤ → List (Instruction K) → Instruction K → Result (K × ChannelAccount K)
  unfolding check_entry commit_args settle_accounts
  settle_entry ledger now ixs ix = do
    check_entry "settle" ix
    args ← commit_args ix.data_bytes
    accounts ← settle_accounts ix.accounts
    a ← or_raise (ledger.channels accounts.channel) (external "AccountNotInitialized")
    settled ←
        settle solana.ed25519_program_id accounts.channel now accounts.consumer accounts.producer
          ixs args.0 args.1 a
    ok (accounts.channel, settled)

  -- `producer_usdc.owner == producer.key()`, of a token account.
  abbrev pub check_owner : Option K → K → Result (Unit {0})
  check_owner none key = err (external "AccountNotInitialized")
  check_owner (some owner) key = raise_if (not (owner ==ₖ key)) (external "ConstraintRaw")

  unfoldable pub close_accounts : Ledger K → List (AccountMeta K) → Result (CloseAccounts K)
  close_accounts ledger
        (caller ∷ channel ∷ consumer ∷ producer ∷ vault ∷ producer_usdc ∷ consumer_usdc
          ∷ token_program ∷ _) =
      do
        check_caller caller
        check_mut channel
        check_mut consumer
        check_mut vault
        raise_if (not (vault.pubkey ==ₖ (derive_vault_pda solana channel.pubkey).0))
            (external "ConstraintSeeds")
        check_mut producer_usdc
        check_owner (ledger.owner producer_usdc.pubkey) producer.pubkey
        check_mut consumer_usdc
        check_owner (ledger.owner consumer_usdc.pubkey) consumer.pubkey
        raise_if (not (token_program.pubkey ==ₖ solana.token_program_id))
            (external "InvalidProgramId")
        ok (record {
          channel = channel.pubkey;
          consumer = consumer.pubkey;
          producer = producer.pubkey;
          vault = vault.pubkey;
          producer_usdc = producer_usdc.pubkey;
          consumer_usdc = consumer_usdc.pubkey;
        })
  close_accounts ledger _ = err (external "AccountNotEnoughKeys")

  -- What `close` works on, for the addresses of a channel and of the two parties' token accounts.
  abbrev pub escrow_at : Ledger K → K → K → K → Escrow K
  escrow_at ledger channel consumer_usdc producer_usdc = record {
    channel = ledger.channels channel;
    vault = ledger.balance (derive_vault_pda solana channel).0;
    consumer_usdc = ledger.balance consumer_usdc;
    producer_usdc = ledger.balance producer_usdc;
  }

  -- `close` on an instruction: the accounts that it took, and what is there after.
  unfoldable pub close_entry :
      TokenProgram → Ledger K → ℤ → Instruction K → Result (CloseAccounts K × Escrow K)
  unfolding check_entry close_accounts
  close_entry token ledger now ix = do
    check_entry "close" ix
    accounts ← close_accounts ledger ix.accounts
    closed ←
        close token now accounts.consumer accounts.producer
          (escrow_at ledger accounts.channel accounts.consumer_usdc accounts.producer_usdc)
    ok (accounts, closed)
