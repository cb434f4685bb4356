-- ===== src/Protocol/Signing.antt =====
-- sdk/python/tap/protocol/signing.py
use tap.Base.{not}
use tap.Base.Exceptions.{Result, ok, commitment_error, raise_if, ◌>>=◌}
use tap.External.{Keys, Ed25519}
use tap.Protocol.Commit.{CommitMessage, SignedCommitment}
use tap.Protocol.Codec.{encode_commitment_bytes}

module _ {K SK : Type 0} ⦃keys : Keys K⦄ (ed : Ed25519 SK) where
  open keys use {key_bytes}
  open ed use {sign, verify}

  unfoldable pub sign_commitment : CommitMessage K → SK → Result (SignedCommitment K)
  sign_commitment message signing_key = do
    bytes ← encode_commitment_bytes message
    ok (record { message = message; signature = sign signing_key bytes })

  unfoldable pub verify_commitment : SignedCommitment K → K → Result (Unit {0})
  verify_commitment signed session_key = do
    bytes ← encode_commitment_bytes signed.message
    raise_if (not (verify (key_bytes session_key) bytes signed.signature))
        (commitment_error "commitment signature failed verification")
