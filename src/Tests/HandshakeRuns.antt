-- ===== src/Tests/HandshakeRuns.antt =====
-- A session that opens at the producer of the other tests, on concrete values.
use tap.Base.{◌≡◌, refl, Option, none, some, List, [], ◌∷◌, ◌++◌, arith}
use tap.Base.Int.{pos, ◌*ℤ◌}
use tap.Base.Text.{Text, codes}
use tap.Base.Exceptions.{Result, ok, err}
use tap.Json.{Value}
use tap.Timing.{default_timing}
use tap.Consumer.Halt.{halt_detector}
use tap.X402.Payment.{encode_payment}
use tap.Producer.Channel.{ActiveChannel}
use tap.Producer.Server.{terms}
use tap.Producer.Server.Host.{Host, find_channel}
use tap.Producer.Server.Routes.{Response}
use tap.Consumer.Session.{ConsumerSession}
use tap.Consumer.Session.Stream.{stream}
use tap.Consumer.Policy.Sound.{Allows}
use tap.Consumer.Opening.{HttpResponse, payment_for}
use tap.Agreement.{deliver}
use tap.Agreement.Handshake.{received}
use tap.Agreement.Handshake.Opens.{open_at, answer_payment}
use tap.Agreement.Handshake.Accepted.{open_session-deliver}
use tap.Tests.Wire.{wire}
use tap.Tests.Parties.{Party, channel, session, parties, signer, bytes_of}
use tap.Tests.Chain.{chain}
use tap.Tests.ConsumerRuns.{tokens}
use tap.Tests.EndpointRuns.{host, config, tokenizers}
use tap.Tests.OpeningRuns.{opening, opened_session, prompt, compile, sign, dumps}

abbrev carried : Result Response → Result HttpResponse
carried (ok r) = ok (received r)
carried (err e) = err e

abbrev parse : Text → Option Text
parse t = some t

abbrev send : Text → Result (Unit {0})
send tx = ok tt

abbrev answering : Value → Result (Unit {0})
answering body = ok tt

terms_allowed : Allows opening.policy (terms config (codes "/v1") 1)
unfolding terms ◌*ℤ◌ tap.Base.Text.text_eq
terms_allowed = record {
  network = refl;
  input_price = omega arith;
  output_price = omega arith;
  trailing_buffer = omega arith;
  pause_timeout = omega arith;
  dispute = omega arith;
  prepaid = refl;
}

abbrev begun : ConsumerSession Party Party
begun = record opened_session {
  timing = default_timing;
  unpaid_cap_micro = pos 20;
  detector = halt_detector default_timing (pos 7);
}

open_session-deliver_example :
    (served : Host Party) × (open_at signer chain wire tokenizers config
        (codes "/v1")
        dumps
        compile
        sign
        parse
        send
        answering
        carried
        carried
        (pos 1)
        (pos 6)
        (pos 7)
        host
        host
        opening
        prompt
        session
        (pos 9)
      ≡ ok begun)
    × ((answer_payment signer chain wire tokenizers config
          (codes "/v1")
          dumps
          compile
          sign
          parse
          send
          answering
          (pos 6)
          host
          (encode_payment wire
            (payment_for opening (terms config (codes "/v1") 1) session (pos 9) (sign 1)))).1
        ≡ served)
    × (find_channel (bytes_of channel) served ≡ (ok 1, served))
    × ((c : ActiveChannel Party) × (deliver signer
            (pos 9)
            (served.heap 1)
            (stream signer (ok tt) tokens begun).1.posted
          ≡ ok c))
unfolding terms ◌*ℤ◌ tap.Tokenizer.count tap.Base.Text.text_eq tap.Tokenizer.tap_v1
    tap.Protocol.Prompt.extract_prompt_text tap.Timing.timing_parameters
    tap.Chain.Pda.derive_channel_pda tap.Base.Bytes.to_bytes tap.Chain.Program.open_channel_ix
    tap.Consumer.Opening.open_terms tap.Consumer.Session.consumer_session
    tap.Consumer.Batching.adaptive_batcher
open_session-deliver_example =
    open_session-deliver signer chain wire tokenizers config (codes "/v1") dumps compile sign parse
      send answering carried carried (pos 1) (pos 6) (pos 7) (pos 9) host host opening prompt
      session (pos 9) 1 session channel 255 _ 1 (1 ∷ []) default_timing begun (ok tt) tokens
      (λ r. refl) (λ r h. refl) refl (omega arith) refl terms_allowed (omega arith) refl refl refl
      refl refl refl refl refl
