-- ===== src/Tests/ProceedsRuns.antt =====
-- A stream of three tokens and its settlement, on concrete values.
use tap.Base.{◌<◌, ◌≡◌, refl, some, [], ◌∷◌, arith}
use tap.Base.Int.{pos, ◌+ℤ◌, ◌<ℤ◌, ◌-ℤ◌, ◌*ℤ◌}
use tap.Base.Exceptions.{ok}
use tap.Timing.{default_timing}
use tap.Chain.Account.{ChannelAccount}
use tap.Producer.Channel.{ActiveChannel, output_value_delivered_micro}
use tap.Producer.WrapStream.{wrap_stream}
use tap.Producer.Settle.{settle_instructions}
use tap.Chain.Instruction.{Instruction}
use tap.Escrow.Handlers.{paid}
use tap.Escrow.Entry.{settle_entry}
use tap.Agreement.Settlement.{signed_of}
use tap.Agreement.Proceeds.{settle-wrap_stream}
use tap.Tests.Parties.{Party, channel, producer, session, parties, signer, signature_of}
use tap.Tests.Chain.{chain}
use tap.Tests.ProducerRuns.{opened, opened-IsBounded, prices, run, first_commitment}
use tap.Tests.SettleRuns.{submitted, settlement_made}
use tap.Tests.EscrowRuns.{account, opened_ledger, opened_view, commitment, commitment_fits}

abbrev streamed : ActiveChannel Party
streamed = record opened {
  tokens_delivered = 3;
  last_commitment = some first_commitment;
  last_commit_at_ms = pos 16;
}

stream_ran : (wrap_stream signer prices default_timing (pos 0) run opened).channel ≡ streamed
unfolding wrap_stream tap.Producer.Halt.should_pause tap.Producer.Channel.unpaid_value_micro ◌-ℤ◌
    ◌*ℤ◌ tap.Producer.Halt.should_halt tap.Producer.Channel.note_token
    tap.Producer.Verifier.accept_commitment tap.Producer.Verifier.check_last
    tap.Protocol.Signing.verify_commitment tap.Protocol.Codec.encode_commitment_bytes
    tap.Base.Bytes.to_bytes tap.Producer.Channel.note_commit
stream_ran = refl

streamed_settles :
    settle_instructions chain producer streamed (signed_of commitment (signature_of session))
    ≡ ok submitted
unfolding settle_instructions
streamed_settles = settlement_made

settle-wrap_stream_example :
    (verify ix : Instruction Party) × (a' : ChannelAccount Party) × (submitted ≡ verify ∷ ix ∷ [])
    × (settle_entry chain opened_ledger (pos 30) submitted ix ≡ ok (channel, a'))
    × (pos 15 +ℤ output_value_delivered_micro streamed <ℤ pos (paid a') +ℤ (pos 20 +ℤ pos 10))
settle-wrap_stream_example =
    settle-wrap_stream signer chain prices default_timing opened_ledger (pos 0) (pos 30) run
      producer account opened streamed commitment (signature_of session) refl opened_view refl
      opened-IsBounded stream_ran refl commitment_fits (omega arith) streamed_settles refl
