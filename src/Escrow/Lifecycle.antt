-- ===== src/Escrow/Lifecycle.antt =====
-- The life of a channel under the program: the transactions that succeed, the deposits that others
-- make into the vault, and what every state that they reach satisfies.
pub mod Payout
pub mod Outcome
use tap.Base.{
  ℕ, ◌+◌, ◌-◌, ◌≤◌, ◌<◌, ◌≡◌, ◌≢◌, refl, sym, ap, not, Option, none, some, List, arith,
  Option-cases, inl, inr, max,
}
use mathlib.Core.Path.{subst}
use tap.Base.Int.{ℤ, pos}
use tap.Base.Exceptions.{
  Result, ok, err, external, or_raise, raise_if, or_raise-ok, >>=-eq-ok, ok-injective,
}
use tap.External.{Keys}
use tap.Chain.Account.{ChannelStatus, active, settling, closed, ChannelAccount}
use tap.Chain.Instruction.{Instruction}
use tap.Escrow.Commitment.{Commitment}
use tap.Escrow.Funds.{transfer_moves}
use tap.Escrow.Handlers.{
  TokenProgram, Escrow, OpenArgs, open_channel, settle, dispute, close, check_open, check_new,
  opened_account, check_parties, check_commitment, check_signature, check_close, pay_out, paid,
  refund,
}

module _ {K : Type 0} ⦃keys : Keys K⦄ (token : TokenProgram)
    (ed25519_program_id channel_key : K) where
  -- One transaction that succeeds, or a transfer from elsewhere into the vault; the number is what
  -- comes from elsewhere.
  pub data Step : ℕ → Escrow K → Escrow K → Type 0 where
    opens :
        {e e' : Escrow K} (now : ℤ) (args : OpenArgs K)
        → open_channel token now args e ≡ ok e'
        → Step 0 e e'
    settles :
        {e : Escrow K} {a a' : ChannelAccount K} (now : ℤ) (consumer producer : K)
        (ixs : List (Instruction K)) (c : Commitment K) (signature : List ℕ)
        → e.channel ≡ some a
        → settle ed25519_program_id channel_key now consumer producer ixs c signature a ≡ ok a'
        → Step 0 e (record e { channel = some a' })
    disputes :
        {e : Escrow K} {a a' : ChannelAccount K} (now : ℤ) (consumer producer : K)
        (ixs : List (Instruction K)) (c : Commitment K) (signature : List ℕ)
        → e.channel ≡ some a
        → dispute ed25519_program_id channel_key now consumer producer ixs c signature a ≡ ok a'
        → Step 0 e (record e { channel = some a' })
    closes :
        {e e' : Escrow K} (now : ℤ) (consumer producer : K)
        → close token now consumer producer e ≡ ok e'
        → Step 0 e e'
    donates : (e : Escrow K) (n : ℕ) → Step n e (record e { vault = e.vault + n })

  pub data Reach (s : Escrow K) : ℕ → Escrow K → Type 0 where
    here : Reach s 0 s
    next : {m n : ℕ} {t u : Escrow K} → Reach s m t → Step n t u → Reach s (m + n) u

-- What holds of an open channel.
pub record IsSound {K : Type 0} (vault : ℕ) (a : ChannelAccount K) : Type 0 where
  pub funded : a.deposit_micro ≤ vault
  pub floor : a.prepaid_input_micro ≤ a.deposit_micro
  pub ceiling : a.last_cumulative_paid ≤ a.deposit_micro
  pub settled_floor : a.status ≡ settling → a.prepaid_input_micro ≤ a.last_cumulative_paid
  pub not_closed : a.status ≢ closed

abbrev pub SoundChannel : {K : Type 0} → ℕ → Option (ChannelAccount K) → Type 0
SoundChannel vault none = Unit
SoundChannel vault (some a) = IsSound vault a

abbrev pub IsSolvent : {K : Type 0} → Escrow K → Type 0
IsSolvent e = SoundChannel e.vault e.channel

module _ {K : Type 0} ⦃keys : Keys K⦄ (ed25519_program_id channel_key : K) where
  settle-IsSound :
      (vault : ℕ) (now : ℤ) (consumer producer : K) (ixs : List (Instruction K)) (c : Commitment K)
      (signature : List ℕ) (a : ChannelAccount K) {a' : ChannelAccount K}
      → settle ed25519_program_id channel_key now consumer producer ixs c signature a ≡ ok a'
      → IsSound vault a
      → IsSound vault a'
  unfolding settle check_commitment
  settle-IsSound vault now consumer producer ixs c signature a h s =
      ground (arith, s.funded, s.floor)

  dispute-IsSound :
      (vault : ℕ) (now : ℤ) (consumer producer : K) (ixs : List (Instruction K)) (c : Commitment K)
      (signature : List ℕ) (a : ChannelAccount K) {a' : ChannelAccount K}
      → dispute ed25519_program_id channel_key now consumer producer ixs c signature a ≡ ok a'
      → IsSound vault a
      → IsSound vault a'
  unfolding dispute check_commitment
  dispute-IsSound vault now consumer producer ixs c signature a h s =
      ground (arith, s.funded, s.floor, s.not_closed)

module _ {K : Type 0} ⦃keys : Keys K⦄ (token : TokenProgram) where
  open_channel-IsSolvent :
      (now : ℤ) (args : OpenArgs K) (e : Escrow K) {e' : Escrow K}
      → open_channel token now args e ≡ ok e'
      → IsSolvent e'
  unfolding open_channel check_open opened_account
  open_channel-IsSolvent now args e h =
      let (_, _, h1) = >>=-eq-ok (check_new e.channel) _ h in
      let (_, checked, h2) = >>=-eq-ok (check_open args) _ h1 in
      let (moved, out, h3) =
        >>=-eq-ok
          (or_raise (token.transfer args.deposit_micro e.consumer_usdc e.vault)
            (external "insufficient funds"))
          _ h2 in
      let (_, _, arrived) =
        transfer_moves token args.deposit_micro e.consumer_usdc e.vault moved
          (or_raise-ok _ _ out) in
      subst IsSolvent (ok-injective h3) (record {
        funded = omega (arith, arrived);
        floor = ground (arith, checked);
        ceiling = omega arith;
        settled_floor = λ s. cc;
        not_closed = λ s. cc;
      })

  donated :
      (vault n : ℕ) (o : Option (ChannelAccount K))
      → SoundChannel vault o
      → SoundChannel (vault + n) o
  donated vault n none s = tt
  donated vault n (some a) s = record {
    funded = omega (arith, s.funded);
    floor = s.floor;
    ceiling = s.ceiling;
    settled_floor = s.settled_floor;
    not_closed = s.not_closed;
  }

  pub close-empties :
      (now : ℤ) (consumer producer : K) (e : Escrow K) {e' : Escrow K}
      → close token now consumer producer e ≡ ok e'
      → (e'.channel ≡ none) × (e'.vault ≡ 0)
  unfolding close
  close-empties now consumer producer e h =
      let (a, _, h1) = >>=-eq-ok (or_raise e.channel (external "AccountNotInitialized")) _ h in
      let (_, _, h2) = >>=-eq-ok (check_parties consumer producer a) _ h1 in
      let (_, _, h3) = >>=-eq-ok (check_close now a) _ h2 in
      let (first, _, h4) = >>=-eq-ok (pay_out token (paid a) e.vault e.producer_usdc) _ h3 in
      let (second, _, h5) = >>=-eq-ok (pay_out token (refund a) first.0 e.consumer_usdc) _ h4 in
      let (_, _, h6) =
        >>=-eq-ok (raise_if (not (token.close_account second.0)) (external "NonNativeHasBalance")) _
          h5 in
      (ap Escrow.channel (sym (ok-injective h6)), ap Escrow.vault (sym (ok-injective h6)))

module _ {K : Type 0} ⦃keys : Keys K⦄ (token : TokenProgram)
    (ed25519_program_id channel_key : K) where
  Step-IsSolvent :
      {n : ℕ} {e e' : Escrow K}
      → Step token ed25519_program_id channel_key n e e'
      → IsSolvent e
      → IsSolvent e'
  Step-IsSolvent (opens {e} now args h) s = open_channel-IsSolvent token now args e h
  Step-IsSolvent (settles {e} {a} now consumer producer ixs c signature at h) s =
      settle-IsSound ed25519_program_id channel_key e.vault now consumer producer ixs c signature a
        h (rw at at s)
  Step-IsSolvent (disputes {e} {a} now consumer producer ixs c signature at h) s =
      dispute-IsSound ed25519_program_id channel_key e.vault now consumer producer ixs c signature a
        h (rw at at s)
  Step-IsSolvent (closes {e} {e'} now consumer producer h) s =
      let (gone, _) = close-empties token now consumer producer e h in rw gone tt
  Step-IsSolvent (donates e n) s = donated token e.vault n e.channel s

  -- Whatever order of transactions succeeds from a state without a channel, and whatever others
  -- send to the vault in between: while the channel is open its vault holds at least the deposit,
  -- what is settled is at most the deposit and, once settling, at least the prepaid input.
  pub Reach-IsSolvent :
      {s e : Escrow K} {n : ℕ}
      → s.channel ≡ none
      → Reach token ed25519_program_id channel_key s n e
      → IsSolvent e
  Reach-IsSolvent n here = rw n tt
  Reach-IsSolvent n (next r t) = Step-IsSolvent t (Reach-IsSolvent n r)
