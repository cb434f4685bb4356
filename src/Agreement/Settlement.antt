-- ===== src/Agreement/Settlement.antt =====
-- What the producer submits to settle (sdk/python/tap/producer/settle.py), run by the program
-- (programs/tap/src/instructions/settle.rs).
use tap.Base.{ℕ, ◌<◌, ◌≡◌, refl, sym, ◌∙◌, false, List, [], ◌∷◌, arith}
use mathlib.Core.Path.{subst}
use tap.Base.Int.{ℤ, pos, ◌≤ℤ◌, ltb_ℤ}
use tap.Base.Exceptions.{ok, ok-injective}
use tap.Protocol.Commit.{SignedCommitment}
use tap.External.{Keys, Ed25519}
use tap.Chain.Pda.{Solana}
use tap.Chain.Account.{ChannelAccount, active, settling}
use tap.Chain.Instruction.{Instruction}
use tap.Producer.Channel.{ActiveChannel}
use tap.Producer.Verifier.{accept_commitment}
use tap.Producer.Verifier.Accepts.{Accepts, accept_commitment_sound}
use tap.Producer.Settle.{settle_instructions}
use tap.Producer.Settle.Signed.{settle_instructions-IsSigned}
use tap.Escrow.Commitment.{
  Commitment, IsCommitment, to_python, message_bytes, encode_commitment_bytes-to_python,
}
use tap.Escrow.Sibling.{verify_ed25519_sibling-IsSigned}
use tap.Escrow.Handlers.{settle, check_parties, check_commitment, check_signature}

module _ {K : Type 0} where
  -- The producer's channel is a view of the account, on which nothing is settled yet.
  pub record IsViewOf (producer : K) (a : ChannelAccount K) (channel : ActiveChannel K)
      : Type 0 where
    pub same_consumer : channel.consumer ≡ a.consumer
    pub same_producer : producer ≡ a.producer
    pub session_key : channel.session_key ≡ a.session_key
    pub deposit_micro : channel.deposit_micro ≡ pos a.deposit_micro
    pub prepaid_input_micro : channel.prepaid_input_micro ≡ pos a.prepaid_input_micro
    pub unsettled : a.status ≡ active
    pub no_sequence : a.last_sequence ≡ 0
    pub nothing_paid : a.last_cumulative_paid ≡ 0

abbrev pub signed_of : {K : Type 0} → Commitment K → List ℕ → SignedCommitment K
signed_of c signature = record { message = to_python c; signature = signature }

-- What the program asks of a commitment, as the verifier has checked it.
pub record IsBacked {K : Type 0} (channel : ActiveChannel K) (s : SignedCommitment K) : Type 0 where
  pub same_channel : s.message.channel ≡ channel.channel_id
  pub floor : channel.prepaid_input_micro ≤ℤ s.message.cumulative_paid
  pub ceiling : s.message.cumulative_paid ≤ℤ channel.deposit_micro

module _ {K SK : Type 0} ⦃keys : Keys K⦄ (ed : Ed25519 SK) where
  pub Accepts-IsBacked :
      (channel : ActiveChannel K) (s : SignedCommitment K)
      → Accepts ed channel s
      → IsBacked channel s
  Accepts-IsBacked channel s acc = record {
    same_channel = acc.same_channel;
    floor = acc.floor;
    ceiling = acc.ceiling;
  }

module _ {K : Type 0} ⦃keys : Keys K⦄ (solana : Solana K) where
  check_commitment-view :
      (producer : K) (a : ChannelAccount K) (channel : ActiveChannel K) (c : Commitment K)
      (signature : List ℕ)
      → IsViewOf producer a channel
      → IsBacked channel (signed_of c signature)
      → 0 < c.sequence
      → check_commitment channel.channel_id a c ≡ ok tt
  unfolding check_commitment
  check_commitment-view producer a channel c signature v acc first =
      let same : c.channel ≡ channel.channel_id = acc.same_channel in
      let floor : pos a.prepaid_input_micro ≤ℤ pos c.cumulative_paid =
        subst (λ z. z ≤ℤ pos c.cumulative_paid) v.prepaid_input_micro acc.floor in
      let ceiling : pos c.cumulative_paid ≤ℤ pos a.deposit_micro =
        subst (λ z. pos c.cumulative_paid ≤ℤ z) v.deposit_micro acc.ceiling in
      rw ((keys.beq_iff c.channel channel.channel_id).1 same)
        (ground (arith, v.no_sequence, v.nothing_paid, floor, ceiling, first))

  check_parties-view :
      (producer : K) (a : ChannelAccount K) (channel : ActiveChannel K)
      → IsViewOf producer a channel
      → check_parties channel.consumer producer a ≡ ok tt
  unfolding check_parties
  check_parties-view producer a channel v =
      rw
        (
          (keys.beq_iff a.consumer channel.consumer).1 (sym v.same_consumer),
          (keys.beq_iff a.producer producer).1 (sym v.same_producer),
        )
        refl

  check_signature-view :
      (producer : K) (a : ChannelAccount K) (channel : ActiveChannel K) (c : Commitment K)
      (signature : List ℕ) {ixs : List (Instruction K)}
      → IsViewOf producer a channel
      → IsCommitment c
      → settle_instructions solana producer channel (signed_of c signature) ≡ ok ixs
      → check_signature solana.ed25519_program_id ixs a c signature ≡ ok tt
  unfolding check_signature
  check_signature-view producer a channel c signature {ixs} v fits h =
      let (verify, other, message, shape, encoded, program, signed) =
        settle_instructions-IsSigned solana producer channel (signed_of c signature) h in
      let text : message ≡ message_bytes c =
        ok-injective (sym encoded ∙ encode_commitment_bytes-to_python c fits) in
      rw
        (
          shape,
          sym text,
          sym v.session_key,
          verify_ed25519_sibling-IsSigned solana.ed25519_program_id verify (other ∷ [])
              (keys.key_bytes channel.session_key) message signature program signed,
        )
        refl

  -- On the account that the producer's channel is a view of.
  pub settle-backed :
      (now : ℤ) (producer : K) (a : ChannelAccount K) (channel : ActiveChannel K) (c : Commitment K)
      (signature : List ℕ) {ixs : List (Instruction K)}
      → IsViewOf producer a channel
      → IsCommitment c
      → IsBacked channel (signed_of c signature)
      → 0 < c.sequence
      → settle_instructions solana producer channel (signed_of c signature) ≡ ok ixs
      → ltb_ℤ a.expires_at now ≡ false
      → settle solana.ed25519_program_id channel.channel_id now channel.consumer producer ixs c
          signature a
        ≡ ok (record a {
          last_sequence = c.sequence;
          last_cumulative_paid = c.cumulative_paid;
          settled_at = now;
          status = settling;
        })
  unfolding settle
  settle-backed now producer a channel c signature v fits backed first built alive =
      rw
        (
          check_parties-view producer a channel v,
          v.unsettled,
          check_commitment-view producer a channel c signature v backed first,
          check_signature-view producer a channel c signature v fits built,
          alive,
        )
        refl

module _ {K SK : Type 0} ⦃keys : Keys K⦄ (ed : Ed25519 SK) (solana : Solana K) where
  -- The handler returns on a commitment that the verifier accepted, given the arguments and
  -- accounts that the producer means.
  pub settle-settle_instructions :
      (now_ms now : ℤ) (producer : K) (a : ChannelAccount K) (channel : ActiveChannel K)
      {channel' : ActiveChannel K} (c : Commitment K) (signature : List ℕ)
      {ixs : List (Instruction K)}
      → IsViewOf producer a channel
      → IsCommitment c
      → accept_commitment ed now_ms channel (signed_of c signature) ≡ ok channel'
      → 0 < c.sequence
      → settle_instructions solana producer channel (signed_of c signature) ≡ ok ixs
      → ltb_ℤ a.expires_at now ≡ false
      → settle solana.ed25519_program_id channel.channel_id now channel.consumer producer ixs c
          signature a
        ≡ ok (record a {
          last_sequence = c.sequence;
          last_cumulative_paid = c.cumulative_paid;
          settled_at = now;
          status = settling;
        })
  settle-settle_instructions now_ms now producer a channel c signature v fits h first built alive =
      let signed = signed_of c signature in
      let (acc, _) = accept_commitment_sound ed now_ms channel signed h in
      settle-backed solana now producer a channel c signature v fits
        (Accepts-IsBacked ed channel signed acc) first built alive
