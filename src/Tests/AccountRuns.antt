-- ===== src/Tests/AccountRuns.antt =====
-- The account of a channel as bytes, and the settler's round over it, on concrete values.
use tap.Base.{◌≡◌, refl, Option, some, List, [], ◌∷◌, none, ℕ, arith}
use tap.Base.Exceptions.{ok}
use tap.Base.Int.{pos, ◌+ℤ◌}
use tap.Chain.Pda.{Solana, account_disc, derive_ata, derive_vault_pda}
use tap.Producer.Settler.{Settler, ready, close_instruction, submit_all, run_once}
use tap.Escrow.Handlers.{refund, paid}
use tap.Escrow.Entry.{Ledger, close_entry}
use tap.Agreement.Closing.{run_once-close_entry}
use tap.Chain.Account.{ChannelAccount, decode_channel}
use tap.Chain.Account.Layout.{IsAccount, channel_bytes}
use tap.Chain.Account.RoundTrip.{decode_channel-channel_bytes}
use tap.Tests.Parties.{Party, channel, producer, consumer, session, parties}
use tap.Tests.Chain.{chain}
use tap.Tests.EscrowRuns.{account, paid_25, lived, token}

abbrev discriminator : List ℕ
discriminator = 1 ∷ 2 ∷ 3 ∷ 4 ∷ 5 ∷ 6 ∷ 7 ∷ 8 ∷ []

paid_25-IsAccount : IsAccount paid_25
paid_25-IsAccount = record {
  bump = omega arith;
  vault_bump = omega arith;
  nonce = omega arith;
  deposit_micro = omega arith;
  input_price_micro = omega arith;
  output_price_micro = omega arith;
  prepaid_input_micro = omega arith;
  trailing_buffer_micro = omega arith;
  last_sequence = omega arith;
  last_cumulative_paid = omega arith;
  expires_at = omega arith;
  settled_at = omega arith;
  dispute_secs = omega arith;
}

account_fits : IsAccount account
account_fits = record {
  bump = omega arith;
  vault_bump = omega arith;
  nonce = omega arith;
  deposit_micro = omega arith;
  input_price_micro = omega arith;
  output_price_micro = omega arith;
  prepaid_input_micro = omega arith;
  trailing_buffer_micro = omega arith;
  last_sequence = omega arith;
  last_cumulative_paid = omega arith;
  expires_at = omega arith;
  settled_at = omega arith;
  dispute_secs = omega arith;
}

decode_channel-channel_bytes_example :
    decode_channel discriminator (channel_bytes discriminator account) ≡ ok account
decode_channel-channel_bytes_example =
    decode_channel-channel_bytes discriminator account refl account_fits

abbrev closer : Settler Party
closer = record { producer = producer; producer_usdc = producer; clock_slack = pos 5 }

-- Derived addresses by the number of their seeds: the vault has two, an associated account three.
abbrev place : List (List ℕ) → Party × ℕ
place (a ∷ b ∷ []) = (session, 254)
place (a ∷ b ∷ c ∷ []) = (consumer, 254)
place _ = (channel, 255)

abbrev spread : Solana Party
spread = record chain { find_program_address = λ seeds program. place seeds }

abbrev balance_of : Party → ℕ
balance_of session = 1000
balance_of consumer = 500
balance_of _ = 0

abbrev account_at : Party → Option (ChannelAccount Party)
account_at channel = some paid_25
account_at _ = none

abbrev ledger : Ledger Party
ledger = record { channels = account_at; balance = balance_of; owner = λ p. some p }

-- Besides the account, one that does not decode.
abbrev returned : List (Party × List ℕ)
returned = (consumer, []) ∷ (channel, channel_bytes (account_disc spread "Channel") paid_25) ∷ []

run_once-close_entry_example :
    (run_once spread closer (λ fs. ok returned) (λ ix. ok tt) (pos 55) ≡ ok 1)
    × (close_entry spread token ledger
          (pos 51)
          (close_instruction spread closer (record { address = channel; account = paid_25 }))
        ≡ ok (
          record {
            channel = channel;
            consumer = consumer;
            producer = producer;
            vault = session;
            producer_usdc = producer;
            consumer_usdc = consumer;
          },
          record { channel = none; vault = 0; consumer_usdc = 1475; producer_usdc = 25 },
        ))
unfolding ◌+ℤ◌ refund paid derive_ata derive_vault_pda submit_all ready decode_channel
run_once-close_entry_example =
    run_once-close_entry spread closer (λ fs. ok returned) (λ ix. ok tt) token ledger paid_25
      (pos 55) (pos 51) channel ((consumer, []) ∷ []) [] refl lived refl refl refl refl refl refl
      paid_25-IsAccount refl (omega arith) refl
