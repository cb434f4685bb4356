-- ===== src/Producer/Server/Payment.antt =====
-- What a payment header opens, and how its stream is paced.
use tap.Base.{ℕ, ◌≡◌, ◌≢◌, Option, some, List, arith}
use tap.Base.Int.{ℤ, pos, ◌<ℤ◌}
use tap.Base.Text.{Text}
use tap.Base.Exceptions.{Result, ok}
use tap.Base.Action.{◌>>=◌, ◌>>◌}
use tap.External.{Keys, Ed25519}
use tap.Json.{Wire}
use tap.Protocol.Header.{key_of}
use tap.X402.Payment.{OpenChannelPayment, decode_payment}
use tap.Chain.Pda.{Solana, derive_channel_pda, derive_ata}
use tap.Producer.WrapStream.{Turn, waiting, wrap_stream}
use tap.Producer.WrapStream.Unpriced.{wrap_stream-ne-waiting}
use tap.Producer.Server.{Config}
use tap.Producer.Server.Host.{Host, channel_from, add_channel, open_channel_from_payment}

module _ {K T : Type 0} ⦃keys : Keys K⦄ (solana : Solana K) (wire : Wire) (config : Config K)
    (parse_tx : Text → Option T) (send_raw : T → Result (Unit {0})) where
  -- A header that decodes, whose keys parse, with a transaction that the chain takes, opens a
  -- channel on the header's terms.
  pub open_channel_from_payment_lem :
      (now : ℤ) (header_value : Text) (h : Host K) (payment : OpenChannelPayment) (tx : T)
      (consumer channel_id session_key : K) (bump : ℕ)
      → decode_payment wire header_value ≡ ok payment
      → parse_tx payment.transaction_b64 ≡ some tx
      → send_raw tx ≡ ok tt
      → key_of wire payment.consumer_pubkey ≡ ok consumer
      → derive_channel_pda solana consumer config.producer payment.nonce ≡ ok (channel_id, bump)
      → key_of wire payment.session_key ≡ ok session_key
      → open_channel_from_payment solana wire config parse_tx send_raw now header_value h ≡ (
        ok h.next,
        add_channel
            (channel_from now channel_id consumer session_key
              (derive_ata solana consumer config.usdc_mint)
              payment)
            h,
      )
  unfolding open_channel_from_payment ◌>>=◌ ◌>>◌
  open_channel_from_payment_lem now header_value h payment tx consumer channel_id session_key bump d
        p s c a k =
      simp (d, p, s, c, a, k)

  -- The producer streams without pay to a header that says so. Whatever prices the producer is
  -- configured with, if its cap on the unpaid is positive, a header with an output price of 0 opens
  -- a channel whose stream never waits for a commitment, however many tokens are sent: one that
  -- decodes, with a transaction that parses and that the RPC takes, whose two keys parse and whose
  -- nonce gives the channel an address.
  pub open_channel_from_payment-unpriced :
      {SK : Type 0} (ed : Ed25519 SK) (now now_ms : ℤ) (header_value : Text) (h : Host K)
      (payment : OpenChannelPayment) (tx : T) (consumer channel_id session_key : K) (bump : ℕ)
      (tokens : List (Turn K))
      → decode_payment wire header_value ≡ ok payment
      → parse_tx payment.transaction_b64 ≡ some tx
      → send_raw tx ≡ ok tt
      → key_of wire payment.consumer_pubkey ≡ ok consumer
      → derive_channel_pda solana consumer config.producer payment.nonce ≡ ok (channel_id, bump)
      → key_of wire payment.session_key ≡ ok session_key
      → payment.output_price_micro ≡ pos 0
      → pos 0 <ℤ config.pricing.max_unpaid_micro
      → (h' : Host K) × (open_channel_from_payment solana wire config parse_tx send_raw now
            header_value h
          ≡ (ok h.next, h'))
        × ((wrap_stream ed config.pricing config.timing now_ms tokens (h'.heap h.next)).status
            ≢ waiting)
  unfolding channel_from add_channel
  open_channel_from_payment-unpriced ed now now_ms header_value h payment tx consumer channel_id
        session_key bump tokens d p s c a k free cap =
      let opened =
        channel_from now channel_id consumer session_key
          (derive_ata solana consumer config.usdc_mint) payment in
      let there : (add_channel opened h).heap h.next ≡ opened = ground arith in
      let unpriced : ((add_channel opened h).heap h.next).output_price_micro ≡ pos 0 =
        rw there free in
      (
        add_channel opened h,
        open_channel_from_payment_lem now header_value h payment tx consumer channel_id session_key
            bump d p s c a k,
        wrap_stream-ne-waiting ed config.pricing config.timing cap now_ms tokens
            ((add_channel opened h).heap h.next) unpriced,
      )
