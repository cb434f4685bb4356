-- ===== src/Producer/Settler.antt =====
-- sdk/python/tap/producer/settler.py. The chain is reached through two arguments: the accounts that
-- the RPC returns for a list of filters, and the outcome of submitting an instruction. The clock is
-- `int(time.time())`.
pub mod Due
use tap.Base.{ℕ, ◌+◌, Bool, true, false, Option, none, some, List, [], ◌∷◌, if◌then◌else◌}
use tap.Base.Int.{ℤ, pos, ◌+ℤ◌, leb_ℤ}
use tap.Base.Text.{Text, codes}
use tap.Base.Exceptions.{Exception, value_error, Result, ok, err, ◌>>=◌}
use tap.External.{Keys}
use tap.Chain.Account.{
  ChannelStatus, settling, active, closed, ChannelAccount, decode_channel, status_offset,
  producer_offset,
}
use tap.Chain.Pda.{Solana, account_disc, derive_ata}
use tap.Chain.Instruction.{Instruction}
use tap.Chain.Program.{close_ix}

-- `MemcmpOpts`: an offset and the base58 text of the bytes there.
pub record MemcmpOpts : Type 0 where
  pub offset : ℕ
  pub base58 : Text

pub record Pending (K : Type 0) : Type 0 where
  pub address : K
  pub account : ChannelAccount K

-- `_STATUS_BYTE_BASE58`
abbrev pub status_byte_base58 : ChannelStatus → Text
status_byte_base58 active = codes "1"
status_byte_base58 settling = codes "2"
status_byte_base58 closed = codes "3"

pub record Settler (K : Type 0) : Type 0 where
  -- `self._producer.pubkey()`
  pub producer : K
  pub producer_usdc : K
  pub clock_slack : ℤ

-- The worker: whether `_task` is set, and the stop event.
pub record Worker : Type 0 where
  pub task : Bool
  pub stopping : Bool

-- `start`, and `stop` once the cancelled task has ended.
unfoldable pub start : Worker → Worker
start w = if w.task then w else record { task = true; stopping = false }

unfoldable pub stop : Worker → Worker
stop w = if w.task then record { task = false; stopping = true } else w

module _ {K : Type 0} ⦃keys : Keys K⦄ (solana : Solana K) (settler : Settler K) where
  open keys use {key_str}

  unfoldable pub filters : List MemcmpOpts
  filters =
      record { offset = status_offset; base58 = status_byte_base58 settling }
      ∷ record { offset = producer_offset; base58 = key_str settler.producer }
      ∷ []

  abbrev pub due : ℤ → ChannelAccount K → Bool
  due now account =
      let dispute_until = account.settled_at +ℤ pos account.dispute_secs in
      leb_ℤ (dispute_until +ℤ settler.clock_slack) now

  -- An account that does not decode is skipped; `decode_channel` raises nothing but `ValueError`.
  abbrev pub keep_due : ℤ → K → Result (ChannelAccount K) → List (Pending K) → List (Pending K)
  keep_due now address (err _) later = later
  keep_due now address (ok account) later =
      if due now account then record { address = address; account = account } ∷ later else later

  unfoldable pub ready : ℤ → List (K × List ℕ) → List (Pending K)
  ready now [] = []
  ready now ((address, bytes) ∷ accounts) =
      keep_due now address (decode_channel (account_disc solana "Channel") bytes)
        (ready now accounts)

  unfoldable pub close_instruction : Pending K → Instruction K
  close_instruction entry =
      close_ix solana settler.producer entry.address entry.account.consumer settler.producer
        (derive_ata solana entry.account.consumer solana.usdc_mint_devnet) settler.producer_usdc

  module _ (get_program_accounts : List MemcmpOpts → Result (List (K × List ℕ)))
      (submit : Instruction K → Result (Unit {0})) where
    unfoldable pub find_ready : ℤ → Result (List (Pending K))
    unfolding filters ready
    find_ready now = do accounts ← get_program_accounts filters; ok (ready now accounts)

    -- A close that raises is logged, and the loop goes on.
    unfoldable pub submit_all : List (Pending K) → ℕ
    unfolding close_instruction
    submit_all [] = 0
    submit_all (entry ∷ pending) =
        (elim (submit (close_instruction entry)) [ ok _ ↦ 1 | err _ ↦ 0 ]) + submit_all pending

    unfoldable pub run_once : ℤ → Result ℕ
    unfolding find_ready submit_all
    run_once now = do pending ← find_ready now; ok (submit_all pending)

    -- `_run_loop` over the rounds until the stop event is set: for each, its clock. A round that
    -- raises submits nothing and the worker goes on.
    unfoldable pub run_loop : List ℤ → ℕ
    unfolding run_once
    run_loop [] = 0
    run_loop (now ∷ rounds) = (elim (run_once now) [ ok n ↦ n | err _ ↦ 0 ]) + run_loop rounds
