-- ===== src/Chain/Ed25519Ix.antt =====
-- sdk/python/tap/chain/ed25519_ix.py
pub mod Sibling
use tap.Base.{ℕ, ◌+◌, not, List, [], ◌++◌, length, ◌==◌}
use tap.Base.Int.{pos}
use tap.Base.Bytes.{to_bytes, le_bytes}
use tap.Base.Exceptions.{Result, ok, value_error, raise_if, ◌>>=◌, ◌>>◌}
use tap.Chain.Pda.{Solana}
use tap.Chain.Instruction.{Instruction}

abbrev pub header_len : ℕ
header_len = 16

-- The data: the header of offsets, then the key, the signature and the message. The length of the
-- message is the only field that may not fit.
unfoldable pub verify_data : List ℕ → List ℕ → List ℕ → Result (List ℕ)
verify_data public_key signature message = do
  raise_if (not (length public_key == 32)) value_error
  raise_if (not (length signature == 64)) value_error
  let pk_off = header_len
  let sig_off = pk_off + 32
  let msg_off = sig_off + 64
  msg_len ← to_bytes 2 (pos (length message))
  ok (
      le_bytes 1 1
      ++ (le_bytes 1 0
          ++ (le_bytes 2 sig_off
              ++ (le_bytes 2 0xffff
                  ++ (le_bytes 2 pk_off
                      ++ (le_bytes 2 0xffff
                          ++ (le_bytes 2 msg_off
                              ++ (msg_len
                                  ++ (le_bytes 2 0xffff
                                      ++ (public_key ++ (signature ++ message)))))))))))

module _ {K : Type 0} (solana : Solana K) where
  unfoldable pub ed25519_verify_ix : List ℕ → List ℕ → List ℕ → Result (Instruction K)
  unfolding verify_data
  ed25519_verify_ix public_key signature message = do
    bytes ← verify_data public_key signature message
    ok (record { program_id = solana.ed25519_program_id; data_bytes = bytes; accounts = [] })
