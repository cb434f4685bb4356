-- ===== src/Consumer/Session/Covered.antt =====
-- What a session has posted when its stream ended at a `return` statement.
use tap.Base.{◌≡◌, true, Option, none, some, List, [], ◌∷◌, arith}
use mathlib.Core.Path.{subst}
use tap.Base.Int.{pos}
use tap.Base.Exceptions.{Result, ok, value_error, or_raise, ok-injective}
use tap.Base.Action.{Action, pure, lift, gets, ◌>>=◌, ◌>>◌}
use tap.Base.Action.Returns.{
  Returns, Returns-pure, Returns-if, Returns-chain, Returns-bind, Returns-then,
}
use tap.External.{Keys, Ed25519}
use tap.Protocol.Commit.{SignedCommitment}
use tap.Protocol.Signing.{sign_commitment}
use tap.Consumer.Session.{
  ConsumerSession, SessionState, Arrival, StreamEvent, StreamEnd, exhausted, returned,
  next_sequence, commit_message, note_posted, notify, after_post, post_commit, send_commit,
}
use tap.Consumer.Session.Stream.{
  after_token, stop_by_evaluator, on_token, on_event, stream_loop, stream,
}

module _ {K : Type 0} where
  -- The newest commitment is for everything that the state counts.
  abbrev CoversAll : List (SignedCommitment K) → SessionState → Type 0
  CoversAll [] state = ⊥
  CoversAll (signed ∷ older) state =
      (signed.message.cumulative_paid ≡ state.cumulative_paid)
      × (signed.message.tokens_received ≡ pos state.tokens_received)
      × (signed.message.sequence ≡ pos state.sequence)
      × (state.tokens_since_last_commit ≡ 0)

module _ {K SK : Type 0} where
  abbrev pub IsCovered : ConsumerSession K SK → Type 0
  IsCovered s = CoversAll s.posted s.state

  -- What the end of the generator says of its session.
  abbrev AtEnd : StreamEnd → ConsumerSession K SK → Type 0
  AtEnd exhausted s = Unit
  AtEnd returned s = IsCovered s

  abbrev AtEvent : Option StreamEnd → ConsumerSession K SK → Type 0
  AtEvent none s = Unit
  AtEvent (some e) s = AtEnd e s

module _ {K SK : Type 0} ⦃keys : Keys K⦄ (ed : Ed25519 SK) where
  post_commit-IsCovered :
      (channel_pk : K) (a : Arrival)
      → Returns (λ _ (s : ConsumerSession K SK). IsCovered s) (post_commit ed channel_pk a)
  unfolding post_commit after_post sign_commitment note_posted notify next_sequence commit_message
      ◌>>=◌ ◌>>◌
  post_commit-IsCovered channel_pk a = record { at = λ s u h. ground (arith, h) }

  -- A commitment that is forced is posted whatever the session counts.
  send_commit-IsCovered :
      (channel_pk : K) (a : Arrival)
      → Returns (λ _ (s : ConsumerSession K SK). IsCovered s) (send_commit ed true channel_pk a)
  unfolding send_commit ◌>>=◌
  send_commit-IsCovered channel_pk a = record {
    at = λ s u h. (post_commit-IsCovered channel_pk a).at s u h;
  }

  final_commit :
      (channel_pk : K) (a : Arrival)
      → Returns AtEvent (send_commit ed true channel_pk a >> pure (some returned))
  unfolding ◌>>◌ pure
  final_commit channel_pk a =
      Returns-chain (send_commit ed true channel_pk a) (λ _. pure (some returned))
        (send_commit-IsCovered channel_pk a)
        (λ u s covered e h. subst (λ x. AtEvent x s) (ok-injective h) covered)

  on_event-AtEvent :
      (channel_pk : K) (a : Arrival) (event : StreamEvent)
      → Returns AtEvent (on_event ed channel_pk a event)
  unfolding on_event on_token stop_by_evaluator after_token
  on_event-AtEvent channel_pk a event = Returns-if event.finished _ _ (final_commit channel_pk a) (
      Returns-then _ _ (
        Returns-then _ _ (
          Returns-then _ _ (
            Returns-bind _ _ (λ stop.
              Returns-if stop _ _ (Returns-then _ _ (final_commit channel_pk a)) (
                Returns-then _ _ (
                  Returns-bind _ _ (λ state. Returns-then _ _ (
                    Returns-bind _ _
                      (λ due. Returns-then _ _ (Returns-pure none (λ s. tt))))))))))))

  ended :
      (rest : Action (ConsumerSession K SK) StreamEnd)
      → Returns AtEnd rest
      → (end : Option StreamEnd) (s : ConsumerSession K SK) → AtEvent end s
      → (b : StreamEnd)
      → ((elim end as (λ _. Action (ConsumerSession K SK) StreamEnd) [
        | some e ↦ pure e
        | none ↦ rest
      ])
          s).0
        ≡ ok b
      → AtEnd b
          ((elim end as (λ _. Action (ConsumerSession K SK) StreamEnd) [
            | some e ↦ pure e
            | none ↦ rest
          ])
            s).1
  unfolding pure
  ended rest later (some e) s q b h = subst (λ x. AtEnd x s) (ok-injective h) q
  ended rest later none s q b h = later.at s b h

  stream_loop-AtEnd :
      (channel_pk : K) (arrivals : List Arrival)
      → Returns AtEnd (stream_loop ed channel_pk arrivals)
  unfolding stream_loop
  stream_loop-AtEnd channel_pk [] = Returns-pure exhausted (λ s. tt)
  stream_loop-AtEnd channel_pk (a ∷ arrivals) = Returns-bind (lift a.event) _ (λ event.
      Returns-chain (on_event ed channel_pk a event) _ (on_event-AtEvent channel_pk a event)
        (ended (stream_loop ed channel_pk arrivals) (stream_loop-AtEnd channel_pk arrivals)))

  -- A stream that ends at a `return` statement, at the event that says the stream is finished or by
  -- the evaluator, has posted a commitment for all that the session counts: its newest commitment
  -- carries the session's payment, its tokens and its sequence number, and no token is left
  -- uncommitted.
  pub stream-IsCovered :
      (response : Result (Unit {0})) (arrivals : List Arrival) (s : ConsumerSession K SK)
      → (stream ed response arrivals s).0 ≡ ok returned
      → IsCovered (stream ed response arrivals s).1
  unfolding stream
  stream-IsCovered response arrivals s h =
      let whole : Returns AtEnd (stream ed response arrivals) =
        Returns-bind (gets (λ (s : ConsumerSession K SK). s.channel_id)) _ (λ session.
          Returns-bind (lift (or_raise (keys.from_string session) value_error)) _ (λ channel_pk.
            Returns-then (lift response) _ (stream_loop-AtEnd channel_pk arrivals))) in
      whole.at s returned h
