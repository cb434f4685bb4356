-- ===== src/Escrow/Lifecycle/Payout.antt =====
-- What `close` pays out, when it can, and where the money is in between.
use tap.Base.{ℕ, ◌+◌, ◌-◌, ◌≤◌, ◌≡◌, refl, sym, ◌∙◌, ap, not, false, none, some, arith, zero, suc}
use mathlib.Core.Path.{subst}
use tap.Base.Int.{ℤ, leb_ℤ}
use tap.Base.Exceptions.{ok, external, or_raise, raise_if, or_raise-ok, >>=-eq-ok, ok-injective}
use tap.External.{Keys}
use tap.Chain.Account.{ChannelAccount}
use tap.Escrow.Funds.{pay_moves, pay_succeeds}
use tap.Escrow.Handlers.{
  TokenProgram, Escrow, close, check_parties, check_close, dispute_until, pay_out, paid, refund,
}
use tap.Escrow.Lifecycle.{IsSound}

module _ (token : TokenProgram) where
  empty_closes :
      (n : ℕ)
      → raise_if (not (token.close_account n)) (external "NonNativeHasBalance") ≡ ok tt
      → n ≡ 0
  empty_closes zero h = refl
  empty_closes (suc n) h = let f = token.close_account_funded (suc n) (omega arith) in cc

module _ {K : Type 0} ⦃keys : Keys K⦄ (token : TokenProgram) where
  -- What a `close` that returns did.
  pub record IsPaidOut (a : ChannelAccount K) (e e' : Escrow K) : Type 0 where
    pub emptied : e.vault ≡ paid a + refund a
    pub no_channel : e'.channel ≡ none
    pub no_vault : e'.vault ≡ 0
    pub to_producer : e'.producer_usdc ≡ e.producer_usdc + paid a
    pub to_consumer : e'.consumer_usdc ≡ e.consumer_usdc + refund a

  -- On a channel with the account `a`, a `close` that returns found the vault to hold just what it
  -- owes: the larger of the settled amount and the prepaid input goes to the producer, the rest of
  -- the deposit to the consumer, and the channel and the vault are gone.
  pub close-IsPaidOut :
      (now : ℤ) (consumer producer : K) (e : Escrow K) {a : ChannelAccount K} {e' : Escrow K}
      → e.channel ≡ some a
      → close token now consumer producer e ≡ ok e'
      → IsPaidOut a e e'
  unfolding close
  close-IsPaidOut now consumer producer e {a} {e'} held h =
      let (b, out, h1) = >>=-eq-ok (or_raise e.channel (external "AccountNotInitialized")) _ h in
      let there = or_raise-ok _ _ out in
      let same : b ≡ a = cc in
      let (_, _, h2) = >>=-eq-ok (check_parties consumer producer b) _ h1 in
      let (_, _, h3) = >>=-eq-ok (check_close now b) _ h2 in
      let (first, one, h4) = >>=-eq-ok (pay_out token (paid b) e.vault e.producer_usdc) _ h3 in
      let (second, two, h5) = >>=-eq-ok (pay_out token (refund b) first.0 e.consumer_usdc) _ h4 in
      let (u, shut, h6) =
        >>=-eq-ok (raise_if (not (token.close_account second.0)) (external "NonNativeHasBalance")) _
          h5 in
      let (le1, from1, to1) = pay_moves token (paid b) e.vault e.producer_usdc first one in
      let (le2, from2, to2) = pay_moves token (refund b) first.0 e.consumer_usdc second two in
      let z = empty_closes token second.0 shut in
      let done = sym (ok-injective h6) in
      subst (λ c. IsPaidOut c e e') same
        (record {
          emptied = omega (arith, le1, from1, le2, from2, z);
          no_channel = ap Escrow.channel done;
          no_vault = ap Escrow.vault done;
          to_producer = ap Escrow.producer_usdc done ∙ to1;
          to_consumer = ap Escrow.consumer_usdc done ∙ to2;
        })

  -- A sound channel's account that holds just its deposit, closed by its parties once the clock is
  -- past the deadline of its state, is paid out: `close` returns, with the producer's and the
  -- consumer's shares moved, the vault empty and the channel gone.
  pub close_lem :
      (now : ℤ) (e : Escrow K) {a : ChannelAccount K}
      → e.channel ≡ some a
      → IsSound e.vault a
      → e.vault ≡ a.deposit_micro
      → check_close now a ≡ ok tt
      → close token now a.consumer a.producer e
        ≡ ok (record {
          channel = none;
          vault = 0;
          consumer_usdc = e.consumer_usdc + refund a;
          producer_usdc = e.producer_usdc + paid a;
        })
  unfolding close
  close_lem now e {a} held s full late =
      let enough : paid a ≤ e.vault = omega (arith, s.floor, s.ceiling, full) in
      let rest : refund a ≤ e.vault - paid a = omega (arith, full) in
      let left : e.vault - paid a - refund a ≡ 0 = omega (arith, full) in
      rw
        (
          held,
          (keys.beq_iff a.consumer a.consumer).1 refl,
          (keys.beq_iff a.producer a.producer).1 refl,
          late,
          pay_succeeds token (paid a) e.vault e.producer_usdc enough,
          pay_succeeds token (refund a) (e.vault - paid a) e.consumer_usdc rest,
          left,
          token.close_account_empty,
        )
        refl

module _ {K : Type 0} where
  -- The deadline that `close` waits for, by the account's status.
  pub check_close-late :
      (vault : ℕ) (now : ℤ) (a : ChannelAccount K)
      → IsSound vault a
      → leb_ℤ now (dispute_until a) ≡ false
      → leb_ℤ now a.expires_at ≡ false
      → check_close now a ≡ ok tt
  unfolding check_close
  check_close-late vault now a s d x = ground (arith, s.not_closed)
