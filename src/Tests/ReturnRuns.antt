-- ===== src/Tests/ReturnRuns.antt =====
-- A stream that ends, on concrete values.
use tap.Base.{ℕ, ◌≡◌, refl, none, true, List, [], ◌∷◌}
use tap.Base.Text.{codes}
use tap.Base.Exceptions.{ok}
use tap.Consumer.Session.{Arrival, returned}
use tap.Consumer.Session.Stream.{stream}
use tap.Consumer.Session.Covered.{IsCovered, stream-IsCovered}
use tap.Tests.Parties.{parties, signer}
use tap.Tests.ConsumerRuns.{fresh, arrival}

abbrev last : Arrival
last = record (arrival [] 4) {
  event = ok (record { text = []; ack_sequence = none; finished = true });
}

-- Two tokens, then the end.
abbrev whole : List Arrival
whole = arrival (codes "a") 1 ∷ arrival (codes "b") 2 ∷ last ∷ []

whole_returns : (stream signer (ok tt) whole fresh).0 ≡ ok returned
unfolding stream tap.Base.Action.◌>>=◌ tap.Base.Action.◌>>◌ tap.Consumer.Session.yield_chunk
    tap.Consumer.Session.Stream.note_arrival tap.Consumer.Session.absorb_token
    tap.Consumer.Session.Stream.run_detector tap.Consumer.Halt.evaluate tap.Consumer.Halt.note_token
    tap.Consumer.Halt.halt_detector tap.Base.Int.◌-ℤ◌ tap.Consumer.Batching.should_commit
    tap.Consumer.Session.send_commit tap.Consumer.Session.post_commit
    tap.Protocol.Signing.sign_commitment tap.Protocol.Codec.encode_commitment_bytes
    tap.Base.Bytes.to_bytes tap.Consumer.Session.commit_message tap.Base.Int.◌+ℤ◌
    tap.Consumer.Session.Stream.update_batcher tap.Consumer.Batching.update
    tap.Consumer.Session.after_post tap.Consumer.Session.next_sequence
    tap.Consumer.Session.note_posted tap.Consumer.Session.unpaid_value tap.Base.Bytes.le_bytes
    tap.Base.Int.◌*ℤ◌
whole_returns = refl

stream-IsCovered_example : IsCovered (stream signer (ok tt) whole fresh).1
stream-IsCovered_example = stream-IsCovered signer (ok tt) whole fresh whole_returns
