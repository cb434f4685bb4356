-- ===== src/Producer/Settle.antt =====
-- sdk/python/tap/producer/settle.py. `submit` is `ChainClient.submit` with the producer as signer.
pub mod Signed
use tap.Base.{none, some, List, [], ◌∷◌}
use tap.Base.Exceptions.{Result, ok, err, settlement_error, ◌>>=◌}
use tap.External.{Keys}
use tap.Protocol.Commit.{SignedCommitment}
use tap.Protocol.Codec.{encode_commitment_bytes}
use tap.Chain.Pda.{Solana}
use tap.Chain.Instruction.{Instruction}
use tap.Chain.Ed25519Ix.{ed25519_verify_ix}
use tap.Chain.Program.{settle_ix}
use tap.Producer.Channel.{ActiveChannel}

module _ {K : Type 0} ⦃keys : Keys K⦄ (solana : Solana K) where
  open keys use {key_bytes}

  -- The two instructions for a commitment, in order.
  unfoldable pub settle_instructions :
      K → ActiveChannel K → SignedCommitment K → Result (List (Instruction K))
  settle_instructions producer channel signed = do
    message ← encode_commitment_bytes signed.message
    verify_ix ← ed25519_verify_ix solana (key_bytes channel.session_key) signed.signature message
    settle ←
        settle_ix solana producer channel.channel_id channel.consumer producer signed.message
          signed.signature
    ok (verify_ix ∷ settle ∷ [])

  module _ {R : Type 0} (submit : List (Instruction K) → Result R) where
    unfoldable pub settle_channel : K → ActiveChannel K → Result R
    unfolding settle_instructions
    settle_channel producer channel = elim channel.last_commitment [
      | none ↦ err (settlement_error "no accepted commitment for this channel; nothing to settle")
      | some signed ↦ settle_instructions producer channel signed >>= submit
    ]
