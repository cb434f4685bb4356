-- ===== src/Tests/SettleRuns.antt =====
-- The settlement of one commitment, on concrete values.
use tap.Base.{ℕ, ◌≡◌, refl, List, [], ◌∷◌}
use tap.Base.Exceptions.{Result, ok, err}
use tap.Base.Bytes.{to_bytes, le_bytes}
use tap.Protocol.Codec.{encode_commitment_bytes}
use tap.Chain.Instruction.{Instruction}
use tap.Chain.Ed25519Ix.{ed25519_verify_ix}
use tap.Chain.Ed25519Ix.Sibling.{IsSigned}
use tap.Chain.Program.{settle_ix}
use tap.Producer.Settle.{settle_instructions}
use tap.Producer.Settle.Signed.{settle_instructions-IsSigned}
use tap.Tests.Parties.{Party, producer, session, parties, bytes_of, signature_of}
use tap.Tests.Chain.{chain}
use tap.Tests.ProducerRuns.{opened, first_commitment}

abbrev returned : Result (List (Instruction Party)) → List (Instruction Party)
returned (ok instructions) = instructions
returned (err _) = []

abbrev pub submitted : List (Instruction Party)
submitted = returned (settle_instructions chain producer opened first_commitment)

pub settlement_made : settle_instructions chain producer opened first_commitment ≡ ok submitted
unfolding settle_instructions encode_commitment_bytes to_bytes ed25519_verify_ix settle_ix le_bytes
settlement_made = refl

settle_instructions-IsSigned_example :
    (verify : Instruction Party) × (settle : Instruction Party) × (message : List ℕ) × (submitted
      ≡ verify ∷ settle ∷ [])
    × (encode_commitment_bytes first_commitment.message ≡ ok message)
    × (verify.program_id ≡ chain.ed25519_program_id)
    × IsSigned verify.data_bytes (bytes_of session) (signature_of session) message
settle_instructions-IsSigned_example =
    settle_instructions-IsSigned chain producer opened first_commitment settlement_made
