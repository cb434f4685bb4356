-- ===== src/Escrow/Lifecycle/Outcome.antt =====
-- What closes a channel in the states of its life, and what keeps it from closing.
use tap.Base.{ℕ, ◌+◌, ◌-◌, ◌<◌, ◌≡◌, ◌≢◌, false, none, some, arith, max}
use mathlib.Core.Path.{subst}
use tap.Base.Int.{ℤ, leb_ℤ}
use tap.Base.Exceptions.{ok}
use tap.External.{Keys}
use tap.Chain.Account.{ChannelAccount}
use tap.Escrow.Handlers.{TokenProgram, Escrow, close, dispute_until, paid, refund}
use tap.Escrow.Lifecycle.{IsSound, SoundChannel, Reach, Reach-IsSolvent}
use tap.Escrow.Lifecycle.Payout.{close-IsPaidOut, close_lem, check_close-late}

module _ {K : Type 0} ⦃keys : Keys K⦄ (token : TokenProgram) where
  -- A `close` of a channel whose vault holds more than its deposit never returns.
  pub close-excess :
      (now : ℤ) (consumer producer : K) (e e' : Escrow K) {a : ChannelAccount K}
      → e.channel ≡ some a
      → IsSound e.vault a
      → a.deposit_micro < e.vault
      → close token now consumer producer e ≢ ok e'
  unfolding paid refund
  close-excess now consumer producer e e' held s more h =
      let p = close-IsPaidOut token now consumer producer e held h in
      omega (arith, p.emptied, s.floor, s.ceiling, more)

module _ {K : Type 0} ⦃keys : Keys K⦄ (token : TokenProgram)
    (ed25519_program_id channel_key : K) where
  -- From a state without a channel, and with nothing sent to the vault beyond the deposit, an open
  -- channel is never stuck: once the clock is past its expiry and its dispute window, its parties'
  -- `close` returns, with the larger of the settled amount and the prepaid input moved to the
  -- producer and the rest of the deposit to the consumer.
  pub Reach-close :
      {s e : Escrow K} {n : ℕ} {a : ChannelAccount K} (now : ℤ)
      → s.channel ≡ none
      → Reach token ed25519_program_id channel_key s n e
      → e.channel ≡ some a
      → e.vault ≡ a.deposit_micro
      → leb_ℤ now (dispute_until a) ≡ false
      → leb_ℤ now a.expires_at ≡ false
      → close token now a.consumer a.producer e
        ≡ ok (record {
          channel = none;
          vault = 0;
          consumer_usdc =
              e.consumer_usdc
              + (a.deposit_micro - max a.last_cumulative_paid a.prepaid_input_micro);
          producer_usdc = e.producer_usdc + max a.last_cumulative_paid a.prepaid_input_micro;
        })
  unfolding paid refund
  Reach-close {e} {a} now start r held full d x =
      let sound : IsSound e.vault a =
        subst (SoundChannel e.vault) held
          (Reach-IsSolvent token ed25519_program_id channel_key start r) in
      close_lem token now e held sound full (check_close-late e.vault now a sound d x)
