-- ===== src/Agreement/Handshake/Accepted.antt =====
-- A session that opens at a producer, and what it posts there.
use tap.Base.{ℕ, ◌≡◌, refl, sym, ap, ◌∙◌, Option, none, some, List, [], ◌∷◌, arith}
use mathlib.Core.Path.{subst}
use tap.Base.Int.{ℤ, pos, ◌*ℤ◌, ◌≤ℤ◌}
use tap.Base.Text.{Text}
use tap.Base.Exceptions.{Result, ok}
use tap.Base.Action.{◌>>=◌}
use tap.External.{Keys, Ed25519}
use tap.Json.{Value, Fields, Wire}
use tap.Timing.{TimingParameters, timing_parameters}
use tap.Tokenizer.{Registry, count}
use tap.Protocol.Prompt.{extract_prompt_text}
use tap.X402.Payment.{encode_payment}
use tap.Chain.Pda.{Solana, derive_channel_pda}
use tap.Chain.Instruction.{Instruction}
use tap.Chain.Program.{open_channel_ix}
use tap.Producer.Channel.{ActiveChannel}
use tap.Producer.Server.{Config, terms}
use tap.Producer.Registry.{get-put}
use tap.Producer.Server.Host.{Host, add_channel, channel_from, find_channel}
use tap.Producer.Server.Routes.{Response}
use tap.Consumer.Policy.Sound.{Allows}
use tap.Consumer.Session.{ConsumerSession, Arrival, consumer_session}
use tap.Consumer.Session.Stream.{stream}
use tap.Consumer.Opening.{Opening, HttpResponse, open_terms, payment_for}
use tap.Consumer.Opening.Sound.{Starts, consumer_session-Starts, consumer_session_named}
use tap.Agreement.{deliver}
use tap.Agreement.Peer.{IsPeer, IsWithin}
use tap.Agreement.Deliver.{session_posts_accepted}
use tap.Agreement.Handshake.{received}
use tap.Agreement.Handshake.Opens.{open_at, open_at-ok, opened, answer_payment, answer_payment-sent}

module _ {K : Type 0} ⦃keys : Keys K⦄ where
  open keys use {from_string, beq_iff}

  heap-added : (c : ActiveChannel K) (h : Host K) → (add_channel c h).heap h.next ≡ c
  unfolding add_channel
  heap-added c h = ground arith

  find_channel-added :
      (name : Text) (channel : K) (c : ActiveChannel K) (h : Host K)
      → from_string name ≡ some channel
      → c.channel_id ≡ channel
      → find_channel name (add_channel c h) ≡ (ok h.next, add_channel c h)
  unfolding find_channel add_channel ◌>>=◌
  find_channel-added name channel c h e same =
      let found = get-put channel c.channel_id h.next h.registry in
      let self = (beq_iff c.channel_id channel).1 same in simp (e, found, self)

module _ {K SK : Type 0} ⦃keys : Keys K⦄ (ed : Ed25519 SK) where
  IsWithin-Starts :
      {deposit input_price output_price prepaid : ℤ} (s : ConsumerSession K SK)
      → Starts deposit input_price output_price prepaid s
      → pos 0 ≤ℤ output_price
      → prepaid ≤ℤ deposit
      → IsWithin ed s
  IsWithin-Starts s t priced covered = record {
    price_nonneg = subst (λ p. pos 0 ≤ℤ p) (sym t.output_price_micro) priced;
    floor = ground (arith, t.prepaid_input_micro, t.nothing_but_input);
    ceiling = ground (arith, t.deposit_micro, t.nothing_but_input, covered);
  }

module _ {K SK M T : Type 0} ⦃keys : Keys K⦄ (ed : Ed25519 SK) (solana : Solana K) (wire : Wire)
    (registry : Registry) (config : Config K) (path : Text) (dumps_sorted : Value → Text)
    (compile : K → List (Instruction K) → Result M) (sign : M → Text) (parse_tx : Text → Option T)
    (send_raw : T → Result (Unit {0})) (handler : Value → Result (Unit {0}))
    (asks pays : Result Response → Result HttpResponse) where
  open keys use {key_bytes, key_str, from_string_lem}
  open ed use {verify_key}

  -- A session opens at a producer, and everything that it posts there is accepted. One producer,
  -- with an output price that is not negative, answers the opening's two requests, and its
  -- responses arrive; the empty text is not base64-JSON. The consumer has the producer's
  -- tokenizers, its policy allows the terms for the prompt, and its deposit covers the prepaid
  -- input. The timing is valid, `public` is the key that verifies the session key's signatures, the
  -- instruction and the transaction are made, the producer's RPC takes the transaction, and the
  -- session's constructor takes its arguments. Then `open_session` returns the session; the
  -- producer, after the payment, finds under the session's channel name the channel that it added;
  -- and that channel accepts, in the order of posting, every commitment that the session posts
  -- while it streams, whatever events arrive.
  pub open_session-deliver :
      (quoted_at now clock later : ℤ) (h h' : Host K) (o : Opening K) (prompt : Fields)
      (session_key : SK) (nonce : ℤ) (n : ℕ) (public channel : K) (bump : ℕ) (ix : Instruction K)
      (message : M) (tx : T) (timing : TimingParameters) (s : ConsumerSession K SK)
      (response : Result (Unit {0})) (arrivals : List Arrival)
      → ((r : Response) → asks (ok r) ≡ ok (received r))
      → ((r : Response) → r.status_code ≡ 200 → pays (ok r) ≡ ok (received r))
      → wire.read [] ≡ none
      → pos 0 ≤ℤ config.pricing.output_price_micro
      → count registry config.pricing.tokenizer_id (extract_prompt_text dumps_sorted prompt) ≡ ok n
      → Allows o.policy (terms config path n)
      → (terms config path n).prepaid_input_micro ≤ℤ o.deposit_micro
      → timing_parameters config.timing.grace_ms config.timing.pause_timeout_ms
          ((terms config path n).duration_secs *ℤ pos 1000)
        ≡ ok timing
      → key_bytes public ≡ verify_key session_key
      → derive_channel_pda solana o.wallet config.producer nonce ≡ ok (channel, bump)
      → open_channel_ix solana
          (open_terms solana o (terms config path n) config.producer public)
          nonce
        ≡ ok ix
      → compile o.wallet (ix ∷ []) ≡ ok message
      → parse_tx (sign message) ≡ some tx
      → send_raw tx ≡ ok tt
      → consumer_session
          (key_str channel)
          session_key
          timing
          o.evaluator
          (terms config path n).input_price_micro
          (terms config path n).output_price_micro
          (terms config path n).prepaid_input_micro
          o.deposit_micro
          (terms config path n).max_unpaid_micro
          o.k_max
          o.on_commit
          clock
        ≡ ok s
      → (host : Host K) × (open_at ed solana wire registry config path dumps_sorted compile sign
            parse_tx send_raw handler asks pays quoted_at now clock h h' o prompt session_key nonce
          ≡ ok s)
        × ((answer_payment ed solana wire registry config path dumps_sorted compile sign parse_tx
              send_raw handler now h'
              (encode_payment wire
                (payment_for o (terms config path n) public nonce (sign message)))).1
            ≡ host)
        × (find_channel s.channel_id host ≡ (ok h'.next, host))
        × ((c : ActiveChannel K) × (deliver ed later
                (host.heap h'.next)
                (stream ed response arrivals s).1.posted
              ≡ ok c))
  unfolding channel_from
  open_session-deliver quoted_at now clock later h h' o prompt session_key nonce n public channel
        bump ix message tx timing s response arrivals asked paid empty priced counted allowed
        covered times key pda opens compiles parsed taken makes =
      let starts =
        consumer_session-Starts _ session_key timing o.evaluator _ _ _ _ _ _ _ clock makes in
      let (named, own_key) =
        consumer_session_named _ session_key timing o.evaluator _ _ _ _ _ _ _ clock makes in
      let there : keys.from_string s.channel_id ≡ some channel =
        rw named (from_string_lem channel) in
      let priced_terms : pos 0 ≤ℤ (terms config path n).output_price_micro =
        unfold terms in priced in
      let c0 =
        opened ed solana wire registry config path dumps_sorted compile sign parse_tx send_raw
          handler o n public channel nonce message now in
      let answered =
        answer_payment-sent ed solana wire registry config path dumps_sorted compile sign parse_tx
          send_raw handler empty o n public channel bump nonce now message tx h' pda parsed taken in
      (
        add_channel c0 h',
        open_at-ok ed solana wire registry config path dumps_sorted compile sign parse_tx send_raw
              handler empty asks pays asked paid quoted_at now clock h h' o prompt session_key nonce
              n public channel bump ix message tx timing counted allowed covered times key pda opens
              compiles parsed taken
            ∙ makes,
        ap (λ x. x.1) answered,
        find_channel-added s.channel_id channel c0 h' there refl,
        session_posts_accepted ed later channel ((add_channel c0 h').heap h'.next) s response
            arrivals there starts.nothing_posted (IsWithin-Starts ed s starts priced_terms covered)
            (subst (λ c. IsPeer ed channel c s) (sym (heap-added c0 h'))
              (unfold channel_from payment_for in
                record {
                  same_channel = refl;
                  same_prepaid = sym starts.prepaid_input_micro;
                  same_deposit = sym starts.deposit_micro;
                  same_key = key ∙ ap verify_key (sym own_key);
                  behind = tt;
                })),
      )
