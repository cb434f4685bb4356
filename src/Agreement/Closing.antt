-- ===== src/Agreement/Closing.antt =====
-- The settler's rounds (sdk/python/tap/producer/settler.py) and what they do on chain
-- (programs/tap/src/instructions/close.rs).
use tap.Base.{
  ap, ℕ, ◌+◌, ◌≡◌, refl, true, false, none, some, List, [], ◌∷◌, ◌++◌, length, length-take, arith,
}
use mathlib.Core.Path.{subst}
use tap.Base.Int.{ℤ, pos, ◌+ℤ◌, ◌<ℤ◌, leb_ℤ, +ℤ_parts}
use tap.Base.Text.{codes}
use tap.Base.Exceptions.{Result, ok, err}
use tap.External.{Keys}
use tap.Chain.Pda.{Solana, account_disc, derive_vault_pda, derive_ata}
use tap.Chain.Instruction.{Instruction}
use tap.Chain.Account.{ChannelAccount, settling, decode_channel}
use tap.Chain.Account.Layout.{IsI64, IsAccount, channel_bytes}
use tap.Chain.Account.RoundTrip.{decode_channel-channel_bytes}
use tap.Producer.Settler.{
  MemcmpOpts, Settler, Pending, due, keep_due, ready, filters, close_instruction, submit_all,
  run_once,
}
use tap.Escrow.Entry.{Ledger, escrow_at, close_entry}
use tap.Escrow.Entry.Reads.{close_ix-named, close_ix-accounts}
use tap.Producer.Settler.Due.{due-IsClosable, IsClosable}
use tap.Escrow.Handlers.{
  TokenProgram, Escrow, close, check_close, dispute_until, saturating_add, paid, refund,
}
use tap.Escrow.Lifecycle.{Reach, IsSound, SoundChannel, Reach-IsSolvent}
use tap.Escrow.Lifecycle.Payout.{close_lem}

-- The end of the dispute window does not overflow upward.
dispute_until-le :
    {K : Type 0} (clock : ℤ) (a : ChannelAccount K)
    → IsI64 a.settled_at
    → IsClosable clock a
    → leb_ℤ clock (dispute_until a) ≡ false
unfolding saturating_add
dispute_until-le clock a fits h =
    ground (arith, fits, h, +ℤ_parts a.settled_at (pos a.dispute_secs))

check_close-settling :
    {K : Type 0} (clock : ℤ) (a : ChannelAccount K)
    → a.status ≡ settling
    → IsI64 a.settled_at
    → IsClosable clock a
    → check_close clock a ≡ ok tt
unfolding check_close
check_close-settling clock a s fits h = rw (s, dispute_until-le clock a fits h) refl

module _ {K : Type 0} ⦃keys : Keys K⦄ (solana : Solana K) (settler : Settler K) where
  length-account_disc : length (account_disc solana "Channel") ≡ 8
  unfolding account_disc
  length-account_disc =
      let named = codes "account:" ++ codes "Channel" in
      omega (arith, length-take 8 (solana.sha256 named), solana.length-sha256 named)

  -- The account is picked where it stands among the accounts.
  ready-due :
      (now : ℤ) (address : K) (a : ChannelAccount K) (before after : List (K × List ℕ))
      → IsAccount a
      → due solana settler now a ≡ true
      → ready solana settler now
          (before ++ ((address, channel_bytes (account_disc solana "Channel") a) ∷ after))
        ≡ ready solana settler now before
          ++ (record { address = address; account = a } ∷ ready solana settler now after)
  unfolding ready
  ready-due now address a [] after fits d =
      rw
        (decode_channel-channel_bytes (account_disc solana "Channel") a length-account_disc fits, d)
        refl
  ready-due now address a ((other, bytes) ∷ before) after fits d =
      rw (ready-due now address a before after fits d)
        (keep_due-append now other (decode_channel (account_disc solana "Channel") bytes) _ _)
    where
      keep_due-append :
          (now : ℤ) (other : K) (r : Result (ChannelAccount K)) (xs ys : List (Pending K))
          → keep_due solana settler now other r (xs ++ ys)
            ≡ keep_due solana settler now other r xs ++ ys
      keep_due-append now other (err e) xs ys = refl
      keep_due-append now other (ok b) xs ys = ground arith

  module _ (get_program_accounts : List MemcmpOpts → Result (List (K × List ℕ)))
      (submit : Instruction K → Result (Unit {0})) where
    submit_all-append :
        (xs ys : List (Pending K))
        → submit_all solana settler get_program_accounts submit (xs ++ ys)
          ≡ submit_all solana settler get_program_accounts submit xs
            + submit_all solana settler get_program_accounts submit ys
    unfolding submit_all
    submit_all-append [] ys = omega arith
    submit_all-append (x ∷ xs) ys = omega (arith, submit_all-append xs ys)

    -- The round submits the close of a channel that is due, between those of the others.
    run_once-due :
        (now : ℤ) (address : K) (a : ChannelAccount K) (before after : List (K × List ℕ))
        → IsAccount a
        → due solana settler now a ≡ true
        → get_program_accounts (filters solana settler)
          ≡ ok (before ++ ((address, channel_bytes (account_disc solana "Channel") a) ∷ after))
        → run_once solana settler get_program_accounts submit now
          ≡ ok (
              submit_all solana settler get_program_accounts submit
                (ready solana settler now before)
              + ((elim (submit (
                    close_instruction solana settler (record { address = address; account = a }))) [
                      | ok _ ↦ 1
                      | err _ ↦ 0
                    ])
                  + submit_all solana settler get_program_accounts submit
                      (ready solana settler now after)))
    unfolding run_once
    run_once-due now address a before after fits d got =
        rw (got, ready-due now address a before after fits d)
          (ap ok (submit_all-append (ready solana settler now before) _))

    module _ (token : TokenProgram) (ledger : Ledger K) where
      -- A settled channel is paid out by the settler's next round. The RPC returns, among other
      -- accounts, the account of a channel that is settling with this producer, with fields that
      -- fit their types, as any transactions left it that began without a channel, and with its
      -- vault at the deposit; its dispute window has passed by the slack at the settler's clock,
      -- which is ahead of the chain's by less than the slack. The settler's token account is the
      -- producer's, and the consumer holds its associated account for the devnet's USDC, the one
      -- mint that the settler names and that the token program here knows. Then the round submits
      -- the close of this channel besides those of the others, and the program's entry point,
      -- reading that instruction at the chain's clock, takes the parties' own token accounts and
      -- closes: the larger of the settled amount and the prepaid input has moved to the producer,
      -- the rest of the deposit to the consumer.
      pub run_once-close_entry :
          {start : Escrow K} {n : ℕ} (a : ChannelAccount K) (now clock : ℤ) (address : K)
          (before after : List (K × List ℕ))
          → start.channel ≡ none
          → Reach token solana.ed25519_program_id address start n (
              escrow_at solana ledger address
                (derive_ata solana a.consumer solana.usdc_mint_devnet)
                settler.producer_usdc)
          → ledger.channels address ≡ some a
          → ledger.balance (derive_vault_pda solana address).0 ≡ a.deposit_micro
          → a.status ≡ settling
          → a.producer ≡ settler.producer
          → ledger.owner settler.producer_usdc ≡ some settler.producer
          → ledger.owner (derive_ata solana a.consumer solana.usdc_mint_devnet) ≡ some a.consumer
          → IsAccount a
          → due solana settler now a ≡ true
          → now <ℤ clock +ℤ settler.clock_slack
          → get_program_accounts (filters solana settler)
            ≡ ok (before ++ ((address, channel_bytes (account_disc solana "Channel") a) ∷ after))
          → (run_once solana settler get_program_accounts submit now
              ≡ ok (
                  submit_all solana settler get_program_accounts submit
                    (ready solana settler now before)
                  + ((elim (submit (
                        close_instruction solana settler
                          (record { address = address; account = a }))) [ ok _ ↦ 1 | err _ ↦ 0 ])
                      + submit_all solana settler get_program_accounts submit
                          (ready solana settler now after))))
            × (close_entry solana token ledger clock
                  (close_instruction solana settler (record { address = address; account = a }))
                ≡ ok (
                  record {
                    channel = address;
                    consumer = a.consumer;
                    producer = settler.producer;
                    vault = (derive_vault_pda solana address).0;
                    producer_usdc = settler.producer_usdc;
                    consumer_usdc = derive_ata solana a.consumer solana.usdc_mint_devnet;
                  },
                  record {
                    channel = none;
                    vault = 0;
                    consumer_usdc =
                        ledger.balance (derive_ata solana a.consumer solana.usdc_mint_devnet)
                        + refund a;
                    producer_usdc = ledger.balance settler.producer_usdc + paid a;
                  },
                ))
      unfolding close_entry close_instruction
      run_once-close_entry a now clock address before after none_yet r held full s mine theirs ours
            fits d ahead got =
          let consumer_usdc = derive_ata solana a.consumer solana.usdc_mint_devnet in
          let e = escrow_at solana ledger address consumer_usdc settler.producer_usdc in
          let sound : IsSound e.vault a =
            subst (SoundChannel e.vault) held
              (Reach-IsSolvent token solana.ed25519_program_id address none_yet r) in
          let late = due-IsClosable solana settler now clock a ahead d in
          let open_now = check_close-settling clock a s fits.settled_at late in
          let closes =
            subst
              (λ p.
                close token clock a.consumer p e
                ≡ ok (record {
                  channel = none;
                  vault = 0;
                  consumer_usdc = e.consumer_usdc + refund a;
                  producer_usdc = e.producer_usdc + paid a;
                }))
              mine (close_lem token clock e held sound full open_now) in
          (
            run_once-due now address a before after fits d got,
            rw
                (
                  close_ix-named solana settler.producer address a.consumer settler.producer
                      consumer_usdc settler.producer_usdc,
                  close_ix-accounts solana ledger settler.producer address a.consumer
                      settler.producer consumer_usdc settler.producer_usdc theirs ours,
                  closes,
                )
                refl,
          )
