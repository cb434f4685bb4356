-- ===== src/Agreement/Proceeds.antt =====
-- From the first token to the payout: a stream of the producer
-- (sdk/python/tap/producer/wrap_stream.py), its settlement (sdk/python/tap/producer/settle.py) and
-- what the program (programs/tap/src) pays for it.
use mathlib.Core.Path.{subst}
use tap.Base.{ℕ, ◌≤◌, ◌<◌, ◌≡◌, refl, sym, ◌∙◌, false, Option, none, some, List, [], ◌∷◌, arith}
use tap.Base.Int.{ℤ, pos, ◌+ℤ◌, ◌-ℤ◌, ◌≤ℤ◌, ◌<ℤ◌, max_ℤ, ltb_ℤ, -ℤ_parts, +ℤ_parts}
use tap.Base.Exceptions.{Result, ok, err}
use tap.External.{Keys, Ed25519}
use tap.Timing.{TimingParameters}
use tap.Protocol.Commit.{SignedCommitment}
use tap.Chain.Pda.{Solana}
use tap.Chain.Account.{ChannelAccount, settling}
use tap.Chain.Instruction.{Instruction}
use tap.Producer.Channel.{
  ActiveChannel, note_token, note_commit, mark_halted, unpaid_value_micro, cumulative_paid_micro,
  output_value_delivered_micro,
}
use tap.Producer.Pricing.{Pricing}
use tap.Producer.Verifier.{accept_commitment}
use tap.Producer.Verifier.Accepts.{accept_commitment_sound}
use tap.Producer.WrapStream.{Turn, set_clock, lapsed, receive_one, wrap_stream}
use tap.Producer.WrapStream.Exposure.{IsBounded, wrap_stream_exposure}
use tap.Producer.WrapStream.Keeps.{IsKept, wrap_stream_keeps}
use tap.Producer.Settle.{settle_instructions}
use tap.Escrow.Commitment.{Commitment, IsCommitment}
use tap.Escrow.Handlers.{paid}
use tap.Escrow.Entry.{Ledger, settle_entry}
use tap.Agreement.Settlement.{IsViewOf, IsBacked, Accepts-IsBacked, signed_of}
use tap.Agreement.Submitted.{settle_entry-backed}

module _ {K : Type 0} (producer : K) (a : ChannelAccount K) where
  abbrev LastBacked : ActiveChannel K → Option (SignedCommitment K) → Type 0
  LastBacked c none = Unit
  LastBacked c (some s) = IsBacked c s

  -- The producer's channel while the account stands as it was opened.
  pub record IsCurrent (c : ActiveChannel K) : Type 0 where
    pub view : IsViewOf producer a c
    pub backed : LastBacked c c.last_commitment

  carry_view :
      (c c' : ActiveChannel K)
      → c'.consumer ≡ c.consumer
      → c'.session_key ≡ c.session_key
      → c'.deposit_micro ≡ c.deposit_micro
      → c'.prepaid_input_micro ≡ c.prepaid_input_micro
      → IsViewOf producer a c
      → IsViewOf producer a c'
  carry_view c c' e1 e2 e3 e4 v = record {
    same_consumer = e1 ∙ v.same_consumer;
    same_producer = v.same_producer;
    session_key = e2 ∙ v.session_key;
    deposit_micro = e3 ∙ v.deposit_micro;
    prepaid_input_micro = e4 ∙ v.prepaid_input_micro;
    unsettled = v.unsettled;
    no_sequence = v.no_sequence;
    nothing_paid = v.nothing_paid;
  }

  carry_backed :
      (c c' : ActiveChannel K) (l : Option (SignedCommitment K))
      → c'.channel_id ≡ c.channel_id
      → c'.deposit_micro ≡ c.deposit_micro
      → c'.prepaid_input_micro ≡ c.prepaid_input_micro
      → LastBacked c l
      → LastBacked c' l
  carry_backed c c' none e1 e2 e3 b = tt
  carry_backed c c' (some s) e1 e2 e3 b = record {
    same_channel = b.same_channel ∙ sym e1;
    floor = subst (λ z. z ≤ℤ s.message.cumulative_paid) (sym e3) b.floor;
    ceiling = subst (λ z. s.message.cumulative_paid ≤ℤ z) (sym e2) b.ceiling;
  }

  note_token-IsCurrent : (c : ActiveChannel K) → IsCurrent c → IsCurrent (note_token c)
  unfolding note_token
  note_token-IsCurrent c h = record {
    view = carry_view c (note_token c) refl refl refl refl h.view;
    backed = carry_backed c (note_token c) c.last_commitment refl refl refl h.backed;
  }

  set_clock-IsCurrent : (now : ℤ) (c : ActiveChannel K) → IsCurrent c → IsCurrent (set_clock now c)
  set_clock-IsCurrent now c h = record {
    view = carry_view c (set_clock now c) refl refl refl refl h.view;
    backed = carry_backed c (set_clock now c) c.last_commitment refl refl refl h.backed;
  }

  lapsed-IsCurrent : (c : ActiveChannel K) → IsCurrent c → IsCurrent (lapsed c)
  unfolding mark_halted
  lapsed-IsCurrent c h = record {
    view = carry_view c (lapsed c) refl refl refl refl h.view;
    backed = carry_backed c (lapsed c) c.last_commitment refl refl refl h.backed;
  }

  note_commit-IsCurrent :
      (at : ℤ) (s : SignedCommitment K) (c : ActiveChannel K)
      → IsBacked c s
      → IsCurrent c
      → IsCurrent (note_commit at s c)
  unfolding note_commit
  note_commit-IsCurrent at s c b h = record {
    view = carry_view c (note_commit at s c) refl refl refl refl h.view;
    backed = carry_backed c (note_commit at s c) (some s) refl refl refl b;
  }

module _ {K SK : Type 0} ⦃keys : Keys K⦄ (ed : Ed25519 SK) (producer : K)
    (a : ChannelAccount K) where
  receive_one-IsCurrent :
      (c : ActiveChannel K) (s : SignedCommitment K) (at : ℤ)
      → IsCurrent producer a c
      → IsCurrent producer a (receive_one ed c s at)
  unfolding receive_one
  receive_one-IsCurrent c s at h = go (accept_commitment ed at c s) refl
    where
      go :
          (r : Result (ActiveChannel K))
          → accept_commitment ed at c s ≡ r
          → IsCurrent producer a (elim r [ ok c' ↦ c' | err _ ↦ c ])
      go (ok c') e =
          let (acc, eq) = accept_commitment_sound ed at c s e in
          rw eq (note_commit-IsCurrent producer a at s c (Accepts-IsBacked ed c s acc) h)
      go (err _) e = h

  stream-IsKept : IsKept ed (IsCurrent producer a)
  stream-IsKept = record {
    on_post = receive_one-IsCurrent;
    on_token = note_token-IsCurrent producer a;
    on_clock = set_clock-IsCurrent producer a;
    on_lapse = lapsed-IsCurrent producer a;
  }

-- What is delivered, in the terms of what is paid.
covered :
    (v bound prepaid cumulative : ℤ)
    → prepaid ≤ℤ cumulative
    → v -ℤ max_ℤ (pos 0) (cumulative -ℤ prepaid) <ℤ bound
    → prepaid +ℤ v <ℤ cumulative +ℤ bound
covered v bound prepaid cumulative h e =
    let m = max_ℤ (pos 0) (cumulative -ℤ prepaid) in
    let nonneg : pos 0 ≤ℤ cumulative -ℤ prepaid = omega (arith, h, -ℤ_parts cumulative prepaid) in
    let top : m ≤ℤ cumulative -ℤ prepaid = ground (arith, nonneg) in
    omega (
      arith,
      e,
      top,
      -ℤ_parts cumulative prepaid,
      -ℤ_parts v m,
      +ℤ_parts prepaid v,
      +ℤ_parts cumulative bound,
    )

at_least : (m n : ℕ) (bound v : ℤ) → m ≤ n → v <ℤ pos m +ℤ bound → v <ℤ pos n +ℤ bound
at_least m n bound v h e = omega (arith, h, e, +ℤ_parts (pos m) bound, +ℤ_parts (pos n) bound)

module _ {K : Type 0} where
  unpaid_covered :
      (end : ActiveChannel K) (s : SignedCommitment K) (bound : ℤ)
      → end.last_commitment ≡ some s
      → IsBacked end s
      → unpaid_value_micro end <ℤ bound
      → end.prepaid_input_micro +ℤ output_value_delivered_micro end
        <ℤ s.message.cumulative_paid +ℤ bound
  unfolding unpaid_value_micro cumulative_paid_micro
  unpaid_covered end s bound last b e =
      covered (output_value_delivered_micro end) bound end.prepaid_input_micro
        s.message.cumulative_paid b.floor (rw last at e)

module _ {K SK : Type 0} ⦃keys : Keys K⦄ (ed : Ed25519 SK) (solana : Solana K) (pricing : Pricing)
    (timing : TimingParameters) where
  -- The producer is paid for what it streams. A stream runs on a channel that is a view of its
  -- account, with no commitment yet and within its exposure, however posts, sleeps and tokens
  -- interleave; `end` is the channel after it. A commitment with a sequence number above 0, whose
  -- fields fit the program's types, was accepted last, the producer's instructions for it are
  -- built, and the ledger still holds the account, before it expires. Then the instructions are
  -- two, and the second, read by the program's entry point within that transaction, settles the
  -- account; what `close` pays the producer from the account after it exceeds the prepaid input and
  -- the value of all delivered output, less the cap and the price of one token.
  pub settle-wrap_stream :
      (ledger : Ledger K) (now_ms now : ℤ) (tokens : List (Turn K)) (producer : K)
      (a : ChannelAccount K) (channel end : ActiveChannel K) (c : Commitment K) (signature : List ℕ)
      {ixs : List (Instruction K)}
      → ledger.channels end.channel_id ≡ some a
      → IsViewOf producer a channel
      → channel.last_commitment ≡ none
      → IsBounded ed pricing timing channel
      → (wrap_stream ed pricing timing now_ms tokens channel).channel ≡ end
      → end.last_commitment ≡ some (signed_of c signature)
      → IsCommitment c
      → 0 < c.sequence
      → settle_instructions solana producer end (signed_of c signature) ≡ ok ixs
      → ltb_ℤ a.expires_at now ≡ false
      → (verify ix : Instruction K) × (a' : ChannelAccount K) × (ixs ≡ verify ∷ ix ∷ [])
        × (settle_entry solana ledger now ixs ix ≡ ok (end.channel_id, a'))
        × (end.prepaid_input_micro +ℤ output_value_delivered_micro end
            <ℤ pos (paid a') +ℤ (pricing.max_unpaid_micro +ℤ end.output_price_micro))
  unfolding paid
  settle-wrap_stream ledger now_ms now tokens producer a channel end c signature held v fresh b ran
        last fits first built alive =
      let start : IsCurrent producer a channel = record {
        view = v;
        backed = subst (LastBacked producer a channel) (sym fresh) tt;
      } in
      let current : IsCurrent producer a end = subst (IsCurrent producer a) ran (
        wrap_stream_keeps ed (IsCurrent producer a) (stream-IsKept ed producer a) pricing timing
          now_ms tokens channel start) in
      let backed : IsBacked end (signed_of c signature) =
        subst (LastBacked producer a end) last current.backed in
      let exposure =
        subst
          (λ (d : ActiveChannel K).
            unpaid_value_micro d <ℤ pricing.max_unpaid_micro +ℤ d.output_price_micro)
          ran (wrap_stream_exposure ed pricing timing now_ms tokens channel b) in
      let a' = record a {
        last_sequence = c.sequence;
        last_cumulative_paid = c.cumulative_paid;
        settled_at = now;
        status = settling;
      } in
      let (verify, ix, shape, settles) =
        settle_entry-backed solana ledger now producer a end c signature held current.view fits
          backed first built alive in
      (
        verify,
        ix,
        a',
        shape,
        settles,
        at_least c.cumulative_paid (paid a') (pricing.max_unpaid_micro +ℤ end.output_price_micro) _
            (omega arith) (unpaid_covered end (signed_of c signature) _ last backed exposure),
      )
