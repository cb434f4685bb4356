-- ===== src/Chain/Rpc.antt =====
-- sdk/python/tap/chain/rpc.py: what `ChainClient` does around the calls of solana-py and solders,
-- which are arguments.
use tap.Base.{Option, none, some, List, [], ◌∷◌, ℕ}
use tap.Base.Int.{ℤ, pos}
use tap.Base.Text.{Text, codes}
use tap.Base.Exceptions.{Result, ok, err, value_error, ◌>>=◌}
use tap.Json.{Value, null, int, str, obj, fields, to_int}
use tap.Chain.Instruction.{Instruction}

pub record SubmitResult (S : Type 0) : Type 0 where
  pub signature : S
  pub slot : Option ℤ

-- `payer or signers[0].pubkey()`; a key is never false.
abbrev fee_payer : {K SK : Type 0} → (SK → K) → SK → Option K → K
fee_payer pubkey first none = pubkey first
fee_payer pubkey first (some payer) = payer

module _ {K SK H M T S : Type 0} (pubkey : SK → K) (latest_blockhash : Result H)
    (try_compile : K → List (Instruction K) → H → Result M) (sign : M → List SK → Result T)
    (send_transaction : T → Result S) where
  unfoldable pub submit : List (Instruction K) → List SK → Option K → Result (SubmitResult S)
  submit instructions [] payer = err value_error
  submit instructions (first ∷ signers) payer = do
    blockhash ← latest_blockhash
    message ← try_compile (fee_payer pubkey first payer) instructions blockhash
    tx ← sign message (first ∷ signers)
    signature ← send_transaction tx
    ok (record { signature = signature; slot = none })

-- The value of the balance, `none` where the account does not exist; its `amount` is a text.
abbrev amount_of : Option Text → Result ℤ
amount_of none = ok (pos 0)
amount_of (some amount) = to_int (str amount)

unfoldable pub token_balance_micro : Result (Option Text) → Result ℤ
token_balance_micro balance = balance >>= amount_of

unfoldable pub get_account : Result (Option (List ℕ)) → Result (Option (List ℕ))
get_account info = info >>= ok

-- The data of an account as solana-py gives it.
pub data AccountData : Type 0 where
  raw : List ℕ → AccountData
  encoded : Text → Text → AccountData

abbrev account_bytes : (Text → Result (List ℕ)) → AccountData → Result (List ℕ)
account_bytes b64decode (raw bytes) = ok bytes
account_bytes b64decode (encoded text encoding) = b64decode text

module _ {K : Type 0} (b64decode : Text → Result (List ℕ)) where
  abbrev normalise : List (K × AccountData) → Result (List (K × List ℕ))
  normalise [] = ok []
  normalise ((address, contents) ∷ entries) = do
    bytes ← account_bytes b64decode contents
    rest ← normalise entries
    ok ((address, bytes) ∷ rest)

  unfoldable pub get_program_accounts : Result (List (K × AccountData)) → Result (List (K × List ℕ))
  get_program_accounts response = response >>= normalise

-- One item of the RPC's answer, with the text of its signature.
pub record SignatureItem : Type 0 where
  pub signature : Text
  pub slot : ℤ
  pub block_time : Option ℤ
  pub failure : Value

abbrev time_of : Option ℤ → Value
time_of none = null
time_of (some t) = int t

-- The dictionary of one item.
abbrev pub signature_entry : SignatureItem → Value
signature_entry item = obj (
    fields (
      (codes "signature", str item.signature)
      ∷ (codes "slot", int item.slot)
      ∷ (codes "block_time", time_of item.block_time)
      ∷ (codes "err", item.failure)
      ∷ []))
