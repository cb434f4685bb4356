-- ===== src/Tests/SilenceRuns.antt =====
-- A consumer that falls silent, on concrete values: two tokens out, nothing paid, a grace of 20 ms.
use tap.Base.{ℕ, ◌≡◌, refl, false, [], ◌∷◌, arith}
use tap.Base.Int.{pos, ◌*ℤ◌, ◌-ℤ◌}
use tap.Base.Text.{codes}
use tap.Timing.{TimingParameters}
use tap.Producer.Channel.{ActiveChannel, unpaid_value_micro}
use tap.Producer.Halt.{should_pause}
use tap.Producer.WrapStream.{Gap, halted, lapsed, receive, turn}
use tap.Producer.WrapStream.Silence.{turn-halts}
use tap.Tests.Parties.{Party, parties, signer}
use tap.Tests.ProducerRuns.{opened, prices}

abbrev brief : TimingParameters
brief = record { grace_ms = pos 20; pause_timeout_ms = pos 50; total_session_ms = pos 1000 }

abbrev unpaid : ActiveChannel Party
unpaid = record opened { tokens_delivered = 2 }

abbrev quiet : ℕ → Gap Party
quiet n = record { posts = []; now = pos n }

turn-halts_example :
    turn signer prices brief false
      (record {
        token = codes "c";
        arrive = quiet 1;
        waits = quiet 11 ∷ quiet 55 ∷ quiet 65 ∷ [];
        pace = quiet 66;
        sent = quiet 67;
      })
      unpaid
    ≡ record { channel = lapsed unpaid; emitted = []; status = halted }
unfolding receive should_pause unpaid_value_micro ◌-ℤ◌ ◌*ℤ◌
turn-halts_example =
    turn-halts signer prices brief unpaid false (codes "c") (quiet 1) (quiet 11 ∷ [])
      (quiet 55 ∷ quiet 65 ∷ []) (quiet 66) (quiet 67) refl refl (refl, tt)
      ((refl, omega arith), ((refl, omega arith), tt)) (omega arith) (omega arith)
