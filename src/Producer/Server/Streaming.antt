-- ===== src/Producer/Server/Streaming.antt =====
-- sdk/python/tap/producer/server.py: a stream of the producer from its first token to the end of
-- its settlement task: `_stream_response` from the call of `wrap_stream`, `_spawn_settle_task` and
-- `_settle_and_cleanup`. What other requests do meanwhile to other channels is left out.
use mathlib.Core.Path.{subst}
use tap.Base.{ℕ, true, ◌≡◌, refl, sym, ◌∙◌, Option, none, some, List, arith, if◌then◌else◌}
use tap.Base.Int.{ℤ}
use tap.Base.Text.{Text}
use tap.Base.Exceptions.{http_exception, Result, ok, err}
use tap.Base.Action.{◌>>=◌}
use tap.External.{Keys, Ed25519, ◌==ₖ◌}
use tap.Json.{Wire}
use tap.Protocol.Commit.{SignedCommitment}
use tap.Protocol.Header.{decode_commitment}
use tap.Chain.Pda.{Solana}
use tap.Chain.Instruction.{Instruction}
use tap.Producer.Channel.{ActiveChannel, note_token, note_commit, mark_halted}
use tap.Producer.Verifier.{accept_commitment}
use tap.Producer.Verifier.Accepts.{accept_commitment_sound}
use tap.Producer.WrapStream.{
  Turn, Status, waiting, halted, streaming, receive_one, receive, wrap_stream,
}
use tap.Producer.WrapStream.Keeps.{IsKept, keep_receive, wrap_stream_keeps}
use tap.Producer.Sse.{Frame, token_frames}
use tap.Producer.Registry.{get}
use tap.Producer.Server.{Config}
use tap.Producer.Server.Host.{Host, store, find_channel, commit_endpoint, settle_and_cleanup}
use tap.Producer.Server.Cleanup.{settle_and_cleanup_forgets}
use tap.Producer.Server.Routes.{event_source}

-- How a stream ends that the guard does not: the model's iterator is exhausted or raises, or the
-- server closes the generator, as it does when the client is gone.
pub data IteratorEnd : Type 0 where
  exhausted closed : IteratorEnd
  raised : Text → IteratorEnd

-- After a halt the guard returns and the frames end as usual. A guard that waits for room asks the
-- model for nothing, so it ends only by being closed, which writes no frame.
unfoldable pub frames_of : Status → IteratorEnd → List (Text × ℤ) → List Frame
frames_of halted ending chunks = event_source chunks none
frames_of waiting ending chunks = token_frames chunks
frames_of streaming exhausted chunks = event_source chunks none
frames_of streaming (raised text) chunks = event_source chunks (some text)
frames_of streaming closed chunks = token_frames chunks

module _ {K SK : Type 0} ⦃keys : Keys K⦄ (ed : Ed25519 SK) where
  open keys use {from_string}

  module _ {R : Type 0} (solana : Solana K) (wire : Wire) (config : Config K)
      (submit : List (Instruction K) → Result R) where
    -- What is written, what the settlement came to, and the host after it. The settlement is a task
    -- of its own: the commitments `late` arrive before it starts.
    unfoldable pub stream_task :
        ℤ
        → List (Turn K)
        → IteratorEnd
        → List (SignedCommitment K × ℤ)
        → ℕ
        → Host K
        → List Frame × Option (Result R) × Host K
    unfolding frames_of
    stream_task now tokens ending late ref h =
        let r = wrap_stream ed config.pricing config.timing now tokens (h.heap ref) in
        let c = receive ed r.channel late in
        let (settled, h') = settle_and_cleanup solana wire config submit ref (store ref c h) in
        (frames_of r.status ending r.emitted, settled, h')

  module _ (id : K) where
    abbrev HasId : ActiveChannel K → Type 0
    HasId c = c.channel_id ≡ id

    receive_one-HasId :
        (c : ActiveChannel K) (s : SignedCommitment K) (at : ℤ)
        → HasId c
        → HasId (receive_one ed c s at)
    unfolding receive_one note_commit
    receive_one-HasId c s at h = go (accept_commitment ed at c s) refl
      where
        go :
            (r : Result (ActiveChannel K))
            → accept_commitment ed at c s ≡ r
            → HasId (elim r [ ok c' ↦ c' | err _ ↦ c ])
        go (ok c') e = rw (accept_commitment_sound ed at c s e).1 h
        go (err _) e = h

    HasId-IsKept : IsKept ed HasId
    unfolding note_token mark_halted
    HasId-IsKept = record {
      on_post = receive_one-HasId;
      on_token = λ c h. h;
      on_clock = λ now c h. h;
      on_lapse = λ c h. h;
    }

  module _ {R : Type 0} (solana : Solana K) (wire : Wire) (config : Config K)
      (submit : List (Instruction K) → Result R) where
    -- The id that the task removes is the one that its channel had at the start.
    pub get-stream_task :
        (now : ℤ) (tokens : List (Turn K)) (ending : IteratorEnd)
        (late : List (SignedCommitment K × ℤ)) (ref : ℕ) (h : Host K) (k : K)
        → get k (stream_task solana wire config submit now tokens ending late ref h).2.registry
          ≡ (if (h.heap ref).channel_id ==ₖ k then none else get k h.registry)
    unfolding stream_task store
    get-stream_task now tokens ending late ref h k =
        let id = (h.heap ref).channel_id in
        let r = wrap_stream ed config.pricing config.timing now tokens (h.heap ref) in
        let c = receive ed r.channel late in
        let kept = HasId-IsKept id in
        let same : HasId id c = keep_receive ed (HasId id) kept r.channel late (
          wrap_stream_keeps ed (HasId id) kept config.pricing config.timing now tokens (h.heap ref)
            refl) in
        let at_ref : (store ref c h).heap ref ≡ c = ground arith in
        let is_id : ((store ref c h).heap ref).channel_id ≡ id =
          subst (λ x. x.channel_id ≡ id) (sym at_ref) same in
        settle_and_cleanup_forgets solana wire config submit ref (store ref c h) k
        ∙ subst
            (λ x.
              (if x ==ₖ k then none else get k h.registry)
              ≡ (if id ==ₖ k then none else get k h.registry))
            (sym is_id) refl

    -- However a stream ends and its settlement goes, its channel takes no commitment afterwards: a
    -- post for it that decodes is answered by 404 and changes nothing.
    pub commit_endpoint-stream_task :
        (now at : ℤ) (tokens : List (Turn K)) (ending : IteratorEnd)
        (late : List (SignedCommitment K × ℤ)) (ref : ℕ) (h : Host K)
        (x_tap_commit x_tap_channel : Text) (signed : SignedCommitment K)
        → decode_commitment wire x_tap_commit ≡ ok signed
        → from_string x_tap_channel ≡ some (h.heap ref).channel_id
        → commit_endpoint ed wire at x_tap_commit x_tap_channel
            (stream_task solana wire config submit now tokens ending late ref h).2
          ≡ (
            err (http_exception 404 "unknown channel"),
            (stream_task solana wire config submit now tokens ending late ref h).2,
          )
    unfolding commit_endpoint find_channel ◌>>=◌
    commit_endpoint-stream_task now at tokens ending late ref h x_tap_commit x_tap_channel signed d
          k =
        let id = (h.heap ref).channel_id in
        let mine : (id ==ₖ id) ≡ true = (keys.beq_iff id id).1 refl in
        let gone : get id
              (stream_task solana wire config submit now tokens ending late ref h).2.registry
            ≡ none =
          get-stream_task now tokens ending late ref h id ∙ rw mine refl in
        simp (d, k, gone)
