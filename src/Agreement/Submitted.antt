-- ===== src/Agreement/Submitted.antt =====
-- The instructions that the producer submits to settle (sdk/python/tap/producer/settle.py), read by
-- the program's entry point (programs/tap/src/lib.rs).
use tap.Base.{ℕ, ◌<◌, ◌≡◌, refl, sym, false, some, List, [], ◌∷◌}
use tap.Base.Int.{ℤ, ltb_ℤ}
use tap.Base.Exceptions.{ok, >>=-eq-ok, ok-injective}
use tap.Protocol.Commit.{SignedCommitment}
use tap.Protocol.Codec.{encode_commitment_bytes}
use tap.External.{Keys, Ed25519}
use tap.Chain.Pda.{Solana}
use tap.Chain.Account.{ChannelAccount, settling}
use tap.Chain.Instruction.{Instruction}
use tap.Chain.Ed25519Ix.{ed25519_verify_ix}
use tap.Chain.Program.{settle_ix}
use tap.Producer.Channel.{ActiveChannel}
use tap.Producer.Verifier.{accept_commitment}
use tap.Producer.Verifier.Accepts.{accept_commitment_sound}
use tap.Producer.Settle.{settle_instructions}
use tap.Escrow.Commitment.{Commitment, IsCommitment}
use tap.Escrow.Entry.{Ledger, settle_entry}
use tap.Escrow.Entry.Reads.{settle_ix-Reads}
use tap.Agreement.Settlement.{IsViewOf, IsBacked, Accepts-IsBacked, signed_of, settle-backed}

module _ {K : Type 0} ⦃keys : Keys K⦄ (solana : Solana K) where
  open keys use {key_bytes}

  -- The second instruction is the one that the builder makes for the channel's parties.
  settle_instructions-settle_ix :
      (producer : K) (channel : ActiveChannel K) (signed : SignedCommitment K)
      {ixs : List (Instruction K)}
      → settle_instructions solana producer channel signed ≡ ok ixs
      → (verify ix : Instruction K) × (ixs ≡ verify ∷ ix ∷ [])
        × (settle_ix solana producer channel.channel_id channel.consumer producer signed.message
              signed.signature
            ≡ ok ix)
  unfolding settle_instructions
  settle_instructions-settle_ix producer channel signed h =
      let (message, _, h1) = >>=-eq-ok (encode_commitment_bytes signed.message) _ h in
      let (verify, _, h2) =
        >>=-eq-ok
          (ed25519_verify_ix solana (key_bytes channel.session_key) signed.signature message) _
          h1 in
      let (ix, made, h3) =
        >>=-eq-ok
          (settle_ix solana producer channel.channel_id channel.consumer producer signed.message
            signed.signature)
          _ h2 in
      (verify, ix, sym (ok-injective h3), made)

  -- The second of the submitted instructions, at the program's entry point.
  pub settle_entry-backed :
      (ledger : Ledger K) (now : ℤ) (producer : K) (a : ChannelAccount K)
      (channel : ActiveChannel K) (c : Commitment K) (signature : List ℕ)
      {ixs : List (Instruction K)}
      → ledger.channels channel.channel_id ≡ some a
      → IsViewOf producer a channel
      → IsCommitment c
      → IsBacked channel (signed_of c signature)
      → 0 < c.sequence
      → settle_instructions solana producer channel (signed_of c signature) ≡ ok ixs
      → ltb_ℤ a.expires_at now ≡ false
      → (verify ix : Instruction K) × (ixs ≡ verify ∷ ix ∷ [])
        × (settle_entry solana ledger now ixs ix
            ≡ ok (
              channel.channel_id,
              record a {
                last_sequence = c.sequence;
                last_cumulative_paid = c.cumulative_paid;
                settled_at = now;
                status = settling;
              },
            ))
  unfolding settle_entry
  settle_entry-backed ledger now producer a channel c signature held v fits backed first built
        alive =
      let (verify, ix, shape, made) =
        settle_instructions-settle_ix producer channel (signed_of c signature) built in
      let entry =
        settle_ix-Reads solana producer channel.channel_id channel.consumer producer c signature
          fits made in
      (
        verify,
        ix,
        shape,
        rw
            (
              entry.named,
              entry.args,
              entry.accounts,
              held,
              settle-backed solana now producer a channel c signature v fits backed first built
                  alive,
            )
            refl,
      )

module _ {K SK : Type 0} ⦃keys : Keys K⦄ (ed : Ed25519 SK) (solana : Solana K) where
  -- A commitment that the producer's verifier accepts, with a sequence number above 0, settles on
  -- chain. The ledger holds the account that the producer's channel is a view of, with nothing
  -- settled yet and not expired, the commitment's fields fit the program's types, and the
  -- producer's instructions are built. Then there are two, and the second, read by the program's
  -- entry point within that transaction, names this channel and makes `settle` return on its
  -- account, with the commitment's payment recorded and the dispute window open from now.
  pub settle_entry-settle_instructions :
      (ledger : Ledger K) (now_ms now : ℤ) (producer : K) (a : ChannelAccount K)
      (channel : ActiveChannel K) {channel' : ActiveChannel K} (c : Commitment K)
      (signature : List ℕ) {ixs : List (Instruction K)}
      → ledger.channels channel.channel_id ≡ some a
      → IsViewOf producer a channel
      → IsCommitment c
      → accept_commitment ed now_ms channel (signed_of c signature) ≡ ok channel'
      → 0 < c.sequence
      → settle_instructions solana producer channel (signed_of c signature) ≡ ok ixs
      → ltb_ℤ a.expires_at now ≡ false
      → (verify ix : Instruction K) × (ixs ≡ verify ∷ ix ∷ [])
        × (settle_entry solana ledger now ixs ix
            ≡ ok (
              channel.channel_id,
              record a {
                last_sequence = c.sequence;
                last_cumulative_paid = c.cumulative_paid;
                settled_at = now;
                status = settling;
              },
            ))
  settle_entry-settle_instructions ledger now_ms now producer a channel c signature held v fits h
        first built alive =
      let signed = signed_of c signature in
      let (acc, _) = accept_commitment_sound ed now_ms channel signed h in
      settle_entry-backed solana ledger now producer a channel c signature held v fits
        (Accepts-IsBacked ed channel signed acc) first built alive
