-- ===== src/Chain/Account/RoundTrip.antt =====
-- An account that the program wrote (programs/tap/src/state/channel.rs) comes out of
-- sdk/python/tap/chain/channel_account.py as it was.
use tap.Base.{ℕ, ◌-◌, ◌<◌, ◌^◌, ◌≡◌, refl, ◌∙◌, ap, some, List, [], ◌∷◌, length, arith}
use tap.Base.Int.{ℤ, pos, negsuc}
use tap.Base.Text.{text_eq_refl}
use tap.Base.Bytes.{le_bytes, length-le_bytes, from_bytes, from_bytes_signed, from_bytes-le_bytes}
use tap.Base.Exceptions.{ok}
use tap.External.{Keys}
use tap.Chain.Account.{
  ChannelStatus, status_of, active, settling, closed, ChannelAccount, slice, decode_channel,
}
use tap.Chain.Account.Layout.{
  le_bytes_i64, status_byte, chunks, channel_bytes, IsI64, IsAccount, HasWidths, offset, width,
  chunk, slice-chunk, length-flat,
}

abbrev widths : List ℕ
widths = 8 ∷ 1 ∷ 1 ∷ 8 ∷ 32 ∷ 32 ∷ 32 ∷ 8 ∷ 8 ∷ 8 ∷ 8 ∷ 8 ∷ 8 ∷ 8 ∷ 8 ∷ 8 ∷ 4 ∷ 1 ∷ []

length-le_bytes_i64 : (i : ℤ) → length (le_bytes_i64 i) ≡ 8
unfolding le_bytes_i64
length-le_bytes_i64 (pos n) = length-le_bytes 8 n
length-le_bytes_i64 (negsuc n) = length-le_bytes 8 (2 ^ 64 - 1 - n)

from_bytes_signed-le_bytes_i64 : (i : ℤ) → IsI64 i → from_bytes_signed (le_bytes_i64 i) ≡ i
unfolding le_bytes_i64 from_bytes_signed
from_bytes_signed-le_bytes_i64 (pos n) h =
    let back : from_bytes (le_bytes 8 n) ≡ n = from_bytes-le_bytes 8 n (omega (arith, h)) in
    rw (length-le_bytes 8 n, back) (ground (arith, h))
from_bytes_signed-le_bytes_i64 (negsuc n) h =
    let v = 2 ^ 64 - 1 - n in
    let back : from_bytes (le_bytes 8 v) ≡ v = from_bytes-le_bytes 8 v (omega (arith, h)) in
    rw (length-le_bytes 8 v, back) (ground (arith, h))

status_fits : (s : ChannelStatus) → status_byte s < 256 ^ 1
status_fits s = ground arith

status_of-status_byte : (s : ChannelStatus) → status_of (status_byte s) ≡ ok s
status_of-status_byte active = refl
status_of-status_byte settling = refl
status_of-status_byte closed = refl

module _ {K : Type 0} ⦃keys : Keys K⦄ where
  open keys use {length-key_bytes, from_key_bytes_lem}

  chunks-HasWidths :
      (discriminator : List ℕ) (a : ChannelAccount K)
      → length discriminator ≡ 8
      → HasWidths widths (chunks discriminator a)
  chunks-HasWidths discriminator a d = (
    d,
    (
      length-le_bytes 1 a.bump,
      (
        length-le_bytes 1 a.vault_bump,
        (
          length-le_bytes 8 a.nonce,
          (
            length-key_bytes a.consumer,
            (
              length-key_bytes a.producer,
              (
                length-key_bytes a.session_key,
                (
                  length-le_bytes 8 a.deposit_micro,
                  (
                    length-le_bytes 8 a.input_price_micro,
                    (
                      length-le_bytes 8 a.output_price_micro,
                      (
                        length-le_bytes 8 a.prepaid_input_micro,
                        (
                          length-le_bytes 8 a.trailing_buffer_micro,
                          (
                            length-le_bytes 8 a.last_sequence,
                            (
                              length-le_bytes 8 a.last_cumulative_paid,
                              (
                                length-le_bytes_i64 a.expires_at,
                                (
                                  length-le_bytes_i64 a.settled_at,
                                  (
                                    length-le_bytes 4 a.dispute_secs,
                                    (length-le_bytes 1 (status_byte a.status), tt),
                                  ),
                                ),
                              ),
                            ),
                          ),
                        ),
                      ),
                    ),
                  ),
                ),
              ),
            ),
          ),
        ),
      ),
    ),
  )

  -- One chunk of the account, where the decoder looks for it.
  chunk_of :
      (discriminator : List ℕ) (a : ChannelAccount K) (k : ℕ)
      → length discriminator ≡ 8
      → slice (offset k widths) (width k widths) (channel_bytes discriminator a)
        ≡ chunk k (chunks discriminator a)
  unfolding channel_bytes
  chunk_of discriminator a k d =
      slice-chunk k widths (chunks discriminator a) (chunks-HasWidths discriminator a d)

  length-channel_bytes :
      (discriminator : List ℕ) (a : ChannelAccount K)
      → length discriminator ≡ 8
      → length (channel_bytes discriminator a) ≡ 191
  unfolding channel_bytes
  length-channel_bytes discriminator a d =
      length-flat widths (chunks discriminator a) (chunks-HasWidths discriminator a d)

  number_at :
      (discriminator : List ℕ) (a : ChannelAccount K) (k n v : ℕ)
      → length discriminator ≡ 8
      → chunk k (chunks discriminator a) ≡ le_bytes n v
      → v < 256 ^ n
      → from_bytes (slice (offset k widths) (width k widths) (channel_bytes discriminator a)) ≡ v
  number_at discriminator a k n v d e fits =
      ap from_bytes (chunk_of discriminator a k d ∙ e) ∙ from_bytes-le_bytes n v fits

  key_of_slice :
      (discriminator : List ℕ) (a : ChannelAccount K) (k : ℕ) (key : K)
      → length discriminator ≡ 8
      → chunk k (chunks discriminator a) ≡ keys.key_bytes key
      → keys.from_key_bytes
          (slice (offset k widths) (width k widths) (channel_bytes discriminator a))
        ≡ some key
  key_of_slice discriminator a k key d e =
      ap keys.from_key_bytes (chunk_of discriminator a k d ∙ e) ∙ from_key_bytes_lem key

  time_at :
      (discriminator : List ℕ) (a : ChannelAccount K) (k : ℕ) (i : ℤ)
      → length discriminator ≡ 8
      → chunk k (chunks discriminator a) ≡ le_bytes_i64 i
      → IsI64 i
      → from_bytes_signed (slice (offset k widths) (width k widths) (channel_bytes discriminator a))
        ≡ i
  time_at discriminator a k i d e fits =
      ap from_bytes_signed (chunk_of discriminator a k d ∙ e)
      ∙ from_bytes_signed-le_bytes_i64 i fits

  -- An account that the program writes, behind the discriminator of its type, is read by the client
  -- as it was.
  pub decode_channel-channel_bytes :
      (discriminator : List ℕ) (a : ChannelAccount K)
      → length discriminator ≡ 8
      → IsAccount a
      → decode_channel discriminator (channel_bytes discriminator a) ≡ ok a
  unfolding decode_channel
  decode_channel-channel_bytes discriminator a d fits =
      rw
        (
          length-channel_bytes discriminator a d,
          chunk_of discriminator a 0 d,
          text_eq_refl discriminator,
          key_of_slice discriminator a 4 a.consumer d refl,
          key_of_slice discriminator a 5 a.producer d refl,
          key_of_slice discriminator a 6 a.session_key d refl,
          number_at discriminator a 17 1 (status_byte a.status) d refl (status_fits a.status),
          status_of-status_byte a.status,
          number_at discriminator a 1 1 a.bump d refl fits.bump,
          number_at discriminator a 2 1 a.vault_bump d refl fits.vault_bump,
          number_at discriminator a 3 8 a.nonce d refl fits.nonce,
          number_at discriminator a 7 8 a.deposit_micro d refl fits.deposit_micro,
          number_at discriminator a 8 8 a.input_price_micro d refl fits.input_price_micro,
          number_at discriminator a 9 8 a.output_price_micro d refl fits.output_price_micro,
          number_at discriminator a 10 8 a.prepaid_input_micro d refl fits.prepaid_input_micro,
          number_at discriminator a 11 8 a.trailing_buffer_micro d refl fits.trailing_buffer_micro,
          number_at discriminator a 12 8 a.last_sequence d refl fits.last_sequence,
          number_at discriminator a 13 8 a.last_cumulative_paid d refl fits.last_cumulative_paid,
          time_at discriminator a 14 a.expires_at d refl fits.expires_at,
          time_at discriminator a 15 a.settled_at d refl fits.settled_at,
          number_at discriminator a 16 4 a.dispute_secs d refl fits.dispute_secs,
        )
        refl
