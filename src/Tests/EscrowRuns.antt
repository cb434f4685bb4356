-- ===== src/Tests/EscrowRuns.antt =====
-- A channel's life on chain, on concrete values.
use tap.Base.{
  ℕ, ◌+◌, ◌-◌, ◌≤◌, ◌<◌, ◌≡◌, ◌≢◌, refl, true, false, Option, none, some, [], ◌∷◌, ◌++◌, ◌==◌, leb,
  arith, if◌then◌else◌,
}
use tap.Base.Int.{pos, ◌+ℤ◌}
use tap.Base.Bytes.{to_bytes, from_bytes}
use tap.Base.Exceptions.{ok}
use tap.Protocol.Codec.{encode_commitment_bytes}
use tap.Protocol.Signing.{verify_commitment}
use tap.Chain.Account.{ChannelAccount, active, settling}
use tap.Producer.Channel.{note_commit}
use tap.Producer.Verifier.{accept_commitment}
use tap.Agreement.Settlement.{IsViewOf, settle-settle_instructions}
use tap.Agreement.Submitted.{settle_entry-settle_instructions}
use tap.Chain.Instruction.{Instruction}
use tap.Escrow.Entry.{Ledger, settle_entry}
use tap.Escrow.Commitment.{
  Commitment, IsCommitment, to_python, message_bytes, encode_commitment_bytes-to_python,
}
use tap.Escrow.Sibling.{verify_ed25519_sibling, verify_ed25519_sibling-layout}
use tap.Chain.Ed25519Ix.Sibling.{Indexes, layout}
use tap.Escrow.Handlers.{
  TokenProgram, Escrow, OpenArgs, open_channel, opened_account, settle, close, saturating_add,
  saturating_mul, check_open,
}
use tap.Escrow.Lifecycle.{Reach, IsSolvent, opens, settles, donates, here, next, Reach-IsSolvent}
use tap.Escrow.Lifecycle.Outcome.{Reach-close, close-excess}
use tap.Tests.Parties.{
  Party, channel, producer, consumer, session, parties, signer, signature_of, bytes_of,
}
use tap.Tests.Chain.{chain}
use tap.Tests.ProducerRuns.{opened, first_commitment}
use tap.Tests.SettleRuns.{submitted, settlement_made}

abbrev move : ℕ → ℕ → ℕ → Option (ℕ × ℕ)
move n from to = if leb n from then some (from - n, to + n) else none

pub move_ok : (n from to : ℕ) → n ≤ from → move n from to ≡ some (from - n, to + n)
move_ok n from to h = ground arith

pub move_short : (n from to : ℕ) → from < n → move n from to ≡ none
move_short n from to h = ground arith

pub funded_stays : (n : ℕ) → 0 < n → (n == 0) ≡ false
funded_stays n h = ground arith

abbrev pub token : TokenProgram
token = record {
  transfer = move;
  transfer_ok = move_ok;
  transfer_short = move_short;
  close_account = λ n. n == 0;
  close_account_empty = refl;
  close_account_funded = funded_stays;
}

abbrev args : OpenArgs Party
args = record {
  consumer = consumer;
  producer = producer;
  bump = 255;
  vault_bump = 255;
  channel_nonce = 3;
  session_key = session;
  deposit_micro = 1000;
  input_price_micro = 5;
  output_price_micro = 10;
  prepaid_input_micro = 15;
  duration_secs = 60;
  dispute_secs = 20;
  trailing_buffer = 4;
}

abbrev pub account : ChannelAccount Party
account = record {
  bump = 255;
  vault_bump = 255;
  nonce = 3;
  consumer = consumer;
  producer = producer;
  session_key = session;
  deposit_micro = 1000;
  input_price_micro = 5;
  output_price_micro = 10;
  prepaid_input_micro = 15;
  trailing_buffer_micro = 40;
  last_sequence = 0;
  last_cumulative_paid = 0;
  expires_at = pos 60;
  settled_at = pos 0;
  dispute_secs = 20;
  status = active;
}

abbrev pub before : Escrow Party
before = record { channel = none; vault = 0; consumer_usdc = 1500; producer_usdc = 0 }

abbrev funded : Escrow Party
funded = record { channel = some account; vault = 1000; consumer_usdc = 500; producer_usdc = 0 }

pub funded_by_open : open_channel token (pos 0) args before ≡ ok funded
unfolding open_channel check_open opened_account saturating_add saturating_mul ◌+ℤ◌
funded_by_open = refl

abbrev pub commitment : Commitment Party
commitment = record {
  channel = channel;
  sequence = 1;
  cumulative_paid = 25;
  tokens_received = 1;
  timestamp_ms = 7;
}

pub commitment_fits : IsCommitment commitment
commitment_fits = record {
  sequence = omega arith;
  cumulative_paid = omega arith;
  tokens_received = omega arith;
  timestamp_ms = omega arith;
}

encode_commitment_bytes-to_python_example :
    encode_commitment_bytes (to_python commitment) ≡ ok (message_bytes commitment)
encode_commitment_bytes-to_python_example =
    encode_commitment_bytes-to_python commitment commitment_fits

abbrev pub paid_25 : ChannelAccount Party
paid_25 = record account {
  last_sequence = 1;
  last_cumulative_paid = 25;
  settled_at = pos 30;
  status = settling;
}

pub opened_view : IsViewOf producer account opened
opened_view = record {
  same_consumer = refl;
  same_producer = refl;
  session_key = refl;
  deposit_micro = refl;
  prepaid_input_micro = refl;
  unsettled = refl;
  no_sequence = refl;
  nothing_paid = refl;
}

first_accepted :
    accept_commitment signer (pos 8) opened first_commitment
    ≡ ok (note_commit (pos 8) first_commitment opened)
unfolding accept_commitment tap.Producer.Verifier.check_last verify_commitment
    encode_commitment_bytes to_bytes
first_accepted = refl

pub commitment_settles :
    settle channel channel
      (pos 30)
      consumer
      producer
      submitted
      commitment
      (signature_of session)
      account
    ≡ ok paid_25
commitment_settles =
    settle-settle_instructions signer chain (pos 8) (pos 30) producer account opened commitment
      (signature_of session) opened_view commitment_fits first_accepted (omega arith)
      settlement_made refl

abbrev account_at : Party → Option (ChannelAccount Party)
account_at channel = some account
account_at _ = none

abbrev pub opened_ledger : Ledger Party
opened_ledger = record { channels = account_at; balance = λ _. 0; owner = λ _. none }

settle_entry-settle_instructions_example :
    (verify ix : Instruction Party) × (submitted ≡ verify ∷ ix ∷ [])
    × (settle_entry chain opened_ledger (pos 30) submitted ix ≡ ok (channel, paid_25))
settle_entry-settle_instructions_example =
    settle_entry-settle_instructions signer chain opened_ledger (pos 8) (pos 30) producer account
      opened commitment (signature_of session) refl opened_view commitment_fits first_accepted
      (omega arith) settlement_made refl

abbrev pub settled : Escrow Party
settled = record funded { channel = some paid_25 }

abbrev pub lived : Reach token channel channel before 0 settled
lived = next (next here (opens (pos 0) args funded_by_open)) (
    settles (pos 30) consumer producer submitted commitment (signature_of session) refl
      commitment_settles)

Reach-IsSolvent_example : IsSolvent settled
Reach-IsSolvent_example = Reach-IsSolvent token channel channel refl lived

abbrev gifted : Escrow Party
gifted = record settled { vault = 1007 }

Reach-close_example :
    close token (pos 61) consumer producer settled
    ≡ ok (record { channel = none; vault = 0; consumer_usdc = 1475; producer_usdc = 25 })
unfolding saturating_add ◌+ℤ◌
Reach-close_example = Reach-close token channel channel (pos 61) refl lived refl refl refl refl

close-excess_example :
    close token (pos 61) consumer producer gifted
    ≢ ok (record { channel = none; vault = 0; consumer_usdc = 1475; producer_usdc = 25 })
close-excess_example =
    close-excess token (pos 61) consumer producer gifted
      (record { channel = none; vault = 0; consumer_usdc = 1475; producer_usdc = 25 }) refl
      (Reach-IsSolvent token channel channel refl (next lived (donates settled 7))) (omega arith)

abbrev elsewhere : Indexes
elsewhere = record { signature = (1, 0); key = (1, 0); message = (1, 0) }

verify_ed25519_sibling-layout_example :
    verify_ed25519_sibling channel
      (record {
        program_id = channel;
        data_bytes =
            layout elsewhere 2 0 (bytes_of session ++ (signature_of consumer ++ (7 ∷ 7 ∷ [])));
        accounts = [];
      }
        ∷ [])
      (bytes_of session)
      (7 ∷ 7 ∷ [])
      (signature_of consumer)
    ≡ true
unfolding from_bytes
verify_ed25519_sibling-layout_example =
    verify_ed25519_sibling-layout channel elsewhere 2 0 [] (bytes_of session) (7 ∷ 7 ∷ [])
      (signature_of consumer) refl refl refl
