-- ===== src/Consumer/Session/Induction.antt =====
-- An invariant of the handling of every event is an invariant of the stream.
use tap.Base.{Option, none, some, List, [], ◌∷◌}
use tap.Base.Exceptions.{Result, value_error, or_raise}
use tap.Base.Action.{pure, lift, gets}
use tap.Base.Action.Keeps.{Keeps, Keeps-pure, Keeps-lift, Keeps-gets, Keeps-bind, Keeps-then}
use tap.External.{Keys, Ed25519}
use tap.Consumer.Session.{ConsumerSession, Arrival, StreamEvent, StreamEnd, exhausted}
use tap.Consumer.Session.Stream.{on_event, stream_loop, stream}

module _ {K SK : Type 0} ⦃keys : Keys K⦄ (ed : Ed25519 SK) {P : ConsumerSession K SK → Type 0} where
  open keys use {from_string}

  pub stream_loop-Keeps :
      (channel_pk : K)
      → ((a : Arrival) (event : StreamEvent) → Keeps P (on_event ed channel_pk a event))
      → (arrivals : List Arrival) → Keeps P (stream_loop ed channel_pk arrivals)
  unfolding stream_loop
  stream_loop-Keeps channel_pk step [] = Keeps-pure exhausted
  stream_loop-Keeps channel_pk step (a ∷ arrivals) =
      Keeps-bind (lift a.event) _ (Keeps-lift a.event) λ event.
        Keeps-bind (on_event ed channel_pk a event) _ (step a event)
          (ended (stream_loop-Keeps channel_pk step arrivals))
    where
      ended :
          Keeps P (stream_loop ed channel_pk arrivals)
          → (end : Option StreamEnd)
          → Keeps P (elim end [ some e ↦ pure e | none ↦ stream_loop ed channel_pk arrivals ])
      ended later (some e) = Keeps-pure e
      ended later none = later

  pub stream-Keeps :
      ((channel_pk : K) (a : Arrival) (event : StreamEvent)
        → Keeps P (on_event ed channel_pk a event))
      → (response : Result (Unit {0})) (arrivals : List Arrival)
      → Keeps P (stream ed response arrivals)
  unfolding stream
  stream-Keeps step response arrivals =
      Keeps-bind (gets (λ s. s.channel_id)) _ (Keeps-gets _) λ session.
        Keeps-bind (lift (or_raise (from_string session) value_error)) _ (Keeps-lift _)
          λ channel_pk.
            Keeps-then (lift response) _ (Keeps-lift response)
              (stream_loop-Keeps channel_pk (step channel_pk) arrivals)
