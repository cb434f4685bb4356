-- ===== src/Producer/Verifier/Accepts.antt =====
-- What `accept_commitment` accepts, said without the code, and what it changes.
use tap.Base.{ℕ, ◌≡◌, ◌↔◌, List, Option, none, some, true, arith}
use tap.Base.Int.{ℤ, ◌≤ℤ◌, ◌<ℤ◌}
use tap.Base.Exceptions.{ok, >>=-eq-ok}
use tap.External.{Keys, Ed25519}
use tap.Protocol.Commit.{SignedCommitment}
use tap.Protocol.Codec.{encode_commitment_bytes}
use tap.Protocol.Signing.{verify_commitment}
use tap.Producer.Channel.{ActiveChannel, note_commit}
use tap.Producer.Verifier.{check_last, accept_commitment}

module _ {K : Type 0} where
  -- A later sequence number, and no less money, than the last accepted commitment.
  abbrev pub Supersedes : Option (SignedCommitment K) → SignedCommitment K → Type 0
  Supersedes none s = Unit
  Supersedes (some last) s =
      (last.message.sequence <ℤ s.message.sequence)
      × (last.message.cumulative_paid ≤ℤ s.message.cumulative_paid)

  check_last_iff :
      (l : Option (SignedCommitment K)) (s : SignedCommitment K)
      → (check_last l s ≡ ok tt) ↔ Supersedes l s
  unfolding check_last
  check_last_iff none s = ground arith
  check_last_iff (some last) s = ground arith

module _ {K SK : Type 0} ⦃keys : Keys K⦄ (ed : Ed25519 SK) where
  open keys use {key_bytes, beq_iff}
  open ed use {verify}

  -- The signature is the key's, over the message's byte form.
  abbrev pub IsAuthentic : K → SignedCommitment K → Type 0
  IsAuthentic key s =
      (bytes : List ℕ) × (encode_commitment_bytes s.message ≡ ok bytes)
      × (verify (key_bytes key) bytes s.signature ≡ true)

  pub record Accepts (c : ActiveChannel K) (s : SignedCommitment K) : Type 0 where
    pub same_channel : s.message.channel ≡ c.channel_id
    pub fresh : Supersedes c.last_commitment s
    pub floor : c.prepaid_input_micro ≤ℤ s.message.cumulative_paid
    pub ceiling : s.message.cumulative_paid ≤ℤ c.deposit_micro
    pub authentic : IsAuthentic c.session_key s

  verify_commitment_iff :
      (s : SignedCommitment K) (key : K) → (verify_commitment ed s key ≡ ok tt) ↔ IsAuthentic key s
  unfolding verify_commitment
  verify_commitment_iff s key = (
    λ h.
        let (bytes, e, r) = >>=-eq-ok (encode_commitment_bytes s.message) _ h in
        (bytes, e, ground arith),
    λ (bytes, e, v). ground (arith, e, v),
  )

  pub accept_commitment_sound :
      (now : ℤ) (c : ActiveChannel K) (s : SignedCommitment K) {c' : ActiveChannel K}
      → accept_commitment ed now c s ≡ ok c'
      → Accepts c s × (c' ≡ note_commit now s c)
  unfolding accept_commitment
  accept_commitment_sound now c s h = ground (
    arith,
    beq_iff s.message.channel c.channel_id,
    check_last_iff c.last_commitment s,
    verify_commitment_iff s c.session_key,
  )

  pub accept_commitment_complete :
      (now : ℤ) (c : ActiveChannel K) (s : SignedCommitment K)
      → Accepts c s
      → accept_commitment ed now c s ≡ ok (note_commit now s c)
  unfolding accept_commitment
  accept_commitment_complete now c s a = ground (
    arith,
    beq_iff s.message.channel c.channel_id,
    (check_last_iff c.last_commitment s).1 a.fresh,
    (verify_commitment_iff s c.session_key).1 a.authentic,
  )

  -- The verifier accepts a commitment exactly when it is for this channel, later and no lower than
  -- the last accepted one, between the prepaid input and the deposit, and signed by the session
  -- key; it then changes the last commitment and the time of it, and nothing else.
  pub accept_commitment_iff :
      (now : ℤ) (c c' : ActiveChannel K) (s : SignedCommitment K)
      → (accept_commitment ed now c s ≡ ok c') ↔ (Accepts c s × (c' ≡ note_commit now s c))
  accept_commitment_iff now c c' s =
      (accept_commitment_sound now c s, λ (a, e). rw e (accept_commitment_complete now c s a))
