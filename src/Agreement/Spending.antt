-- ===== src/Agreement/Spending.antt =====
-- What the consumer (sdk/python/tap/consumer/session.py) pays on chain (programs/tap/src) at most,
-- whatever the producer and others submit.
use tap.Base.{ℕ, ◌+◌, ◌≤◌, ◌≡◌, Option, none, some, List, [], ◌∷◌, ◌⊎◌, inl, inr, arith}
use mathlib.Core.Path.{subst}
use tap.Base.Int.{ℤ, pos, ◌+ℤ◌, ◌*ℤ◌, ◌≤ℤ◌, +ℤ_parts, *ℤ_nonneg}
use tap.Base.Exceptions.{Result, ok, external, or_raise, >>=-eq-ok, ok-injective}
use tap.External.{Keys, Ed25519}
use tap.Protocol.Commit.{CommitMessage, SignedCommitment}
use tap.Chain.Account.{ChannelAccount}
use tap.Escrow.Commitment.{to_python}
use tap.Escrow.Handlers.{
  TokenProgram, Escrow, open_channel, settle, dispute, close, opened_account, check_open, check_new,
  paid, refund,
}
use tap.Escrow.Lifecycle.{
  IsSound, SoundChannel, Step, opens, settles, disputes, closes, donates, Reach, here, next,
  close-empties, Reach-IsSolvent,
}
use tap.Escrow.Lifecycle.Payout.{close-IsPaidOut}
use tap.Consumer.Session.{ConsumerSession, Arrival, commit_message}
use tap.Consumer.Session.Metering.{IsMetered, stream-IsMetered}
use tap.Consumer.Session.Posted.{AllBelow, IsBelow, stream-IsBelow}
use tap.Consumer.Session.Stream.{stream}

module _ {K : Type 0} where
  abbrev IsPosted : CommitMessage K → List (SignedCommitment K) → Type 0
  IsPosted m [] = ⊥
  IsPosted m (signed ∷ older) = (signed.message ≡ m) ⊎ IsPosted m older

  IsPosted-below :
      (m : CommitMessage K) (top : ℤ) (posted : List (SignedCommitment K))
      → AllBelow top posted
      → IsPosted m posted
      → m.cumulative_paid ≤ℤ top
  IsPosted-below m top [] b p = absurd p
  IsPosted-below m top (signed ∷ older) (b, later) (inl e) =
      subst (λ (x : CommitMessage K). x.cumulative_paid ≤ℤ top) e b
  IsPosted-below m top (signed ∷ older) (b, later) (inr p) = IsPosted-below m top older later p

module _ {K SK : Type 0} where
  -- What the session key has signed: the commitments that were posted, and the one whose POST
  -- raised, after which the session does nothing more.
  abbrev pub IsSigned : ConsumerSession K SK → CommitMessage K → Type 0
  IsSigned s m =
      IsPosted m s.posted ⊎ ((channel : K) × (wall_ms : ℤ) × (m ≡ commit_message channel wall_ms s))

  IsSigned-below :
      (s : ConsumerSession K SK) (m : CommitMessage K)
      → IsBelow s
      → IsSigned s m
      → m.cumulative_paid ≤ℤ s.state.cumulative_paid
  unfolding commit_message
  IsSigned-below s m b (inl p) = IsPosted-below m s.state.cumulative_paid s.posted b.below p
  IsSigned-below s m b (inr (channel, wall_ms, e)) = rw e (ground arith)

abbrev SpentBelow : {K : Type 0} → ℤ → Option (ChannelAccount K) → Type 0
SpentBelow top none = Unit
SpentBelow top (some a) = pos a.last_cumulative_paid ≤ℤ top

module _ {K SK : Type 0} ⦃keys : Keys K⦄ (token : TokenProgram) (ed25519_program_id channel_key : K)
    (s : ConsumerSession K SK) where
  -- What a transaction settles, the session has signed.
  abbrev IsSignedStep :
      {n : ℕ} {e e' : Escrow K} → Step token ed25519_program_id channel_key n e e' → Type 0
  IsSignedStep (settles now consumer producer ixs c signature at h) = IsSigned s (to_python c)
  IsSignedStep (disputes now consumer producer ixs c signature at h) = IsSigned s (to_python c)
  IsSignedStep _ = Unit

  abbrev pub IsSignedReach :
      {start e : Escrow K} {n : ℕ} → Reach token ed25519_program_id channel_key start n e → Type 0
  IsSignedReach here = Unit
  IsSignedReach (next r t) = IsSignedReach r × IsSignedStep t

  Step-SpentBelow :
      {n : ℕ} {e e' : Escrow K} (t : Step token ed25519_program_id channel_key n e e')
      → IsBelow s
      → pos 0 ≤ℤ s.state.cumulative_paid
      → IsSignedStep t
      → SpentBelow s.state.cumulative_paid e.channel
      → SpentBelow s.state.cumulative_paid e'.channel
  unfolding settle dispute open_channel opened_account
  Step-SpentBelow (opens {e} now args h) b z q p =
      let (_, _, h1) = >>=-eq-ok (check_new e.channel) _ h in
      let (_, _, h2) = >>=-eq-ok (check_open args) _ h1 in
      let (_, _, h3) =
        >>=-eq-ok
          (or_raise (token.transfer args.deposit_micro e.consumer_usdc e.vault)
            (external "insufficient funds"))
          _ h2 in
      subst (λ (x : Escrow K). SpentBelow s.state.cumulative_paid x.channel) (ok-injective h3) z
  Step-SpentBelow (settles {e} {a} {a'} now consumer producer ixs c signature at h) b z q p =
      let settled : a'.last_cumulative_paid ≡ c.cumulative_paid = ground arith in
      rw settled (IsSigned-below s (to_python c) b q)
  Step-SpentBelow (disputes {e} {a} {a'} now consumer producer ixs c signature at h) b z q p =
      let settled : a'.last_cumulative_paid ≡ c.cumulative_paid = ground arith in
      rw settled (IsSigned-below s (to_python c) b q)
  Step-SpentBelow (closes {e} now consumer producer h) b z q p =
      let (gone, _) = close-empties token now consumer producer e h in rw gone tt
  Step-SpentBelow (donates e n) b z q p = p

  Reach-SpentBelow :
      {start e : Escrow K} {n : ℕ} (r : Reach token ed25519_program_id channel_key start n e)
      → IsBelow s
      → pos 0 ≤ℤ s.state.cumulative_paid
      → start.channel ≡ none
      → IsSignedReach r
      → SpentBelow s.state.cumulative_paid e.channel
  Reach-SpentBelow here b z n q = rw n tt
  Reach-SpentBelow (next r t) b z n (q, last) =
      Step-SpentBelow t b z last (Reach-SpentBelow r b z n q)

paid_ceiling :
    {K : Type 0} {vault : ℕ} (a : ChannelAccount K) → IsSound vault a → paid a ≤ a.deposit_micro
unfolding paid
paid_ceiling a s = omega (arith, s.floor, s.ceiling)

-- The account was opened on the session's terms.
pub record IsOpenedFor {K SK : Type 0} (a : ChannelAccount K) (s : ConsumerSession K SK)
    : Type 0 where
  pub deposit_micro : s.deposit_micro ≡ pos a.deposit_micro
  pub prepaid_input_micro : s.prepaid_input_micro ≡ pos a.prepaid_input_micro

module _ {K SK : Type 0} where
  -- The prepaid input, and one price for each token that arrived.
  abbrev pub received_value : ConsumerSession K SK → ℤ
  received_value s = s.prepaid_input_micro +ℤ pos s.state.tokens_received *ℤ s.output_price_micro

  metered_bounds :
      (s : ConsumerSession K SK) (a : ChannelAccount K)
      → IsMetered s
      → IsOpenedFor a s
      → a.prepaid_input_micro ≤ a.deposit_micro
      → (pos a.prepaid_input_micro ≤ℤ s.state.cumulative_paid)
        × (s.state.cumulative_paid ≤ℤ received_value s)
  metered_bounds s a m o h =
      let value = pos s.state.tokens_received *ℤ s.output_price_micro in
      let nonneg = *ℤ_nonneg s.state.tokens_received s.output_price_micro m.price_nonneg in
      let parts = +ℤ_parts s.prepaid_input_micro value in
      (
        rw m.exact (ground (arith, nonneg, parts, o.deposit_micro, o.prepaid_input_micro, h)),
        rw m.exact (ground (arith, nonneg, parts)),
      )

module _ {K SK : Type 0} ⦃keys : Keys K⦄ (token : TokenProgram)
    (ed25519_program_id channel_key : K) where
  paid-received_value :
      (s : ConsumerSession K SK) {start e : Escrow K} {n : ℕ} (a : ChannelAccount K)
      (r : Reach token ed25519_program_id channel_key start n e)
      → IsMetered s
      → IsBelow s
      → start.channel ≡ none
      → IsSignedReach token ed25519_program_id channel_key s r
      → e.channel ≡ some a
      → IsOpenedFor a s
      → pos (paid a) ≤ℤ received_value s
  unfolding paid
  paid-received_value s {e} a r m b n q held o =
      let sound : IsSound e.vault a =
        subst (SoundChannel e.vault) held
          (Reach-IsSolvent token ed25519_program_id channel_key n r) in
      let (low, high) = metered_bounds s a m o sound.floor in
      let z : pos 0 ≤ℤ s.state.cumulative_paid = omega (arith, low) in
      let spent : pos a.last_cumulative_paid ≤ℤ s.state.cumulative_paid =
        subst (SpentBelow s.state.cumulative_paid) held
          (Reach-SpentBelow token ed25519_program_id channel_key s r b z n q) in
      omega (arith, low, high, spent)

  -- The consumer never pays for more than it received. A session streams, however the stream goes;
  -- on chain, any transactions are made and anything is sent to the vault, with only commitments of
  -- the session settled or disputed. If the channel was opened on the session's terms, then a
  -- `close` that returns moves to the producer at most the prepaid input and one output price for
  -- each token that the session received, and all else of the deposit back to the consumer.
  pub close-stream :
      (ed : Ed25519 SK) (response : Result (Unit {0})) (arrivals : List Arrival)
      (before session : ConsumerSession K SK) (now : ℤ) (consumer producer : K)
      {start e e' : Escrow K} {n : ℕ} (a : ChannelAccount K)
      (r : Reach token ed25519_program_id channel_key start n e)
      → IsMetered before
      → IsBelow before
      → (stream ed response arrivals before).1 ≡ session
      → start.channel ≡ none
      → IsSignedReach token ed25519_program_id channel_key session r
      → e.channel ≡ some a
      → IsOpenedFor a session
      → close token now consumer producer e ≡ ok e'
      → (k : ℕ) × (e'.producer_usdc ≡ e.producer_usdc + k)
        × (pos k ≤ℤ received_value session)
        × (e'.consumer_usdc + k ≡ e.consumer_usdc + a.deposit_micro)
  unfolding refund
  close-stream ed response arrivals before session now consumer producer {e} a r m b ran n q held o
        h =
      let same : IsMetered session =
        subst IsMetered ran (stream-IsMetered ed response arrivals before m) in
      let below : IsBelow session =
        subst IsBelow ran (stream-IsBelow ed response arrivals before b) in
      let bound = paid-received_value session a r same below n q held o in
      let out = close-IsPaidOut token now consumer producer e held h in
      let sound : IsSound e.vault a =
        subst (SoundChannel e.vault) held
          (Reach-IsSolvent token ed25519_program_id channel_key n r) in
      (paid a, out.to_producer, bound, omega (arith, out.to_consumer, paid_ceiling a sound))
