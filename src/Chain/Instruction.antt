-- ===== src/Chain/Instruction.antt =====
-- `AccountMeta` and `Instruction` of solders, as the builders fill them.
use tap.Base.{ℕ, Bool, true, false, List}

pub record AccountMeta (K : Type 0) : Type 0 where
  pub pubkey : K
  pub is_signer : Bool
  pub is_writable : Bool

pub record Instruction (K : Type 0) : Type 0 where
  pub program_id : K
  pub data_bytes : List ℕ
  pub accounts : List (AccountMeta K)

module _ {K : Type 0} where
  -- The four kinds of account that the builders list.
  abbrev pub payer : K → AccountMeta K
  payer k = record { pubkey = k; is_signer = true; is_writable = true }

  abbrev pub writable : K → AccountMeta K
  writable k = record { pubkey = k; is_signer = false; is_writable = true }

  abbrev pub readonly : K → AccountMeta K
  readonly k = record { pubkey = k; is_signer = false; is_writable = false }
