-- ===== src/Tests/SpendingRuns.antt =====
-- A session of one token, its commitment settled, and the channel closed.
use tap.Base.{ℕ, ◌+◌, ◌≡◌, refl, true, none, some, List, [], ◌∷◌, inl, arith}
use tap.Base.Int.{pos, ◌≤ℤ◌}
use tap.Base.Text.{codes}
use tap.Base.Exceptions.{ok}
use tap.Escrow.Commitment.{to_python}
use tap.Escrow.Handlers.{Escrow, close, saturating_add}
use tap.Escrow.Lifecycle.Outcome.{Reach-close}
use tap.Consumer.Session.{ConsumerSession, Arrival}
use tap.Consumer.Session.Stream.{stream}
use tap.Consumer.Session.Posted.{IsBelow}
use tap.Agreement.Spending.{IsSigned, IsOpenedFor, received_value, close-stream}
use tap.Tests.Parties.{Party, channel, producer, consumer, parties, signer}
use tap.Tests.ProducerRuns.{first_commitment}
use tap.Tests.ConsumerRuns.{fresh, fresh-IsMetered, arrival}
use tap.Tests.EscrowRuns.{token, settled, paid_25, commitment, lived}

fresh-IsBelow : IsBelow fresh
fresh-IsBelow = record { price_nonneg = omega arith; capped = omega arith; below = tt }

-- One token, then the end.
abbrev brief : List Arrival
brief =
    arrival (codes "a") 1
    ∷ record (arrival [] 7) {
      event = ok (record { text = []; ack_sequence = none; finished = true });
    }
    ∷ []

abbrev after : ConsumerSession Party Party
after = (stream signer (ok tt) brief fresh).1

posted_once :
    (after.posted ≡ first_commitment ∷ [])
    × (after.deposit_micro ≡ pos 1000)
    × (after.prepaid_input_micro ≡ pos 15)
unfolding stream tap.Base.Action.◌>>=◌ tap.Base.Action.◌>>◌ tap.Consumer.Session.yield_chunk
    tap.Consumer.Session.Stream.note_arrival tap.Consumer.Session.absorb_token
    tap.Consumer.Session.Stream.run_detector tap.Consumer.Halt.evaluate tap.Consumer.Halt.note_token
    tap.Consumer.Halt.halt_detector tap.Base.Int.◌-ℤ◌ tap.Consumer.Batching.should_commit
    tap.Consumer.Session.send_commit tap.Consumer.Session.post_commit
    tap.Protocol.Signing.sign_commitment tap.Protocol.Codec.encode_commitment_bytes
    tap.Base.Bytes.to_bytes tap.Consumer.Session.commit_message tap.Base.Int.◌+ℤ◌
    tap.Consumer.Session.Stream.update_batcher tap.Consumer.Batching.update
    tap.Consumer.Session.after_post tap.Consumer.Session.next_sequence
    tap.Consumer.Session.note_posted tap.Consumer.Session.unpaid_value tap.Base.Bytes.le_bytes
    tap.Base.Int.◌*ℤ◌
posted_once = (refl, refl, refl)

commitment-IsSigned : IsSigned after (to_python commitment)
commitment-IsSigned = rw (posted_once.0) (inl (inl refl))

opened_for : IsOpenedFor paid_25 after
opened_for = record { deposit_micro = posted_once.1; prepaid_input_micro = posted_once.2 }

abbrev paid_out : Escrow Party
paid_out = record { channel = none; vault = 0; consumer_usdc = 1475; producer_usdc = 25 }

closes_well : close token (pos 61) consumer producer settled ≡ ok paid_out
unfolding saturating_add tap.Base.Int.◌+ℤ◌
closes_well = Reach-close token channel channel (pos 61) refl lived refl refl refl refl

close-stream_example :
    (k : ℕ) × (25 ≡ 0 + k) × (pos k ≤ℤ received_value after) × (1475 + k ≡ 500 + 1000)
close-stream_example =
    close-stream token channel channel signer (ok tt) brief fresh after (pos 61) consumer producer
      paid_25 lived fresh-IsMetered fresh-IsBelow refl refl ((tt, tt), commitment-IsSigned) refl
      opened_for closes_well
