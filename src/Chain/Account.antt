-- ===== src/Chain/Account.antt =====
-- sdk/python/tap/chain/channel_account.py. The discriminator is a hash prefix, an argument.
pub mod Layout
pub mod RoundTrip
use tap.Base.{ℕ, ◌+◌, not, List, ltb, ◌==◌, length, take, drop, if◌then◌else◌}
use tap.Base.Int.{ℤ}
use tap.Base.Text.{text_eq}
use tap.Base.Bytes.{from_bytes, from_bytes_signed}
use tap.Base.Exceptions.{Result, ok, err, value_error, raise_if, or_raise, ◌>>=◌, ◌>>◌}
use tap.External.{Keys}

pub data ChannelStatus : Type 0 where
  active settling closed : ChannelStatus

-- `ChannelStatus(b)`
abbrev pub status_of : ℕ → Result ChannelStatus
status_of b =
    if b == 0
    then ok active
    else if b == 1
    then ok settling
    else if b == 2
    then ok closed
    else err value_error

pub record ChannelAccount (K : Type 0) : Type 0 where
  pub bump : ℕ
  pub vault_bump : ℕ
  pub nonce : ℕ
  pub consumer : K
  pub producer : K
  pub session_key : K
  pub deposit_micro : ℕ
  pub input_price_micro : ℕ
  pub output_price_micro : ℕ
  pub prepaid_input_micro : ℕ
  pub trailing_buffer_micro : ℕ
  pub last_sequence : ℕ
  pub last_cumulative_paid : ℕ
  pub expires_at : ℤ
  pub settled_at : ℤ
  pub dispute_secs : ℕ
  pub status : ChannelStatus

abbrev pub discriminator_len : ℕ
discriminator_len = 8

abbrev pub producer_offset : ℕ
producer_offset = discriminator_len + 1 + 1 + 8 + 32

abbrev pub status_offset : ℕ
status_offset =
    discriminator_len + 1 + 1 + 8 + (32 + 32 + 32) + (8 + 8 + 8) + 8 + 8 + (8 + 8) + 8 + (8 + 4)

abbrev pub account_size : ℕ
account_size = status_offset + 1

-- `data[o:o + n]`
abbrev pub slice : ℕ → ℕ → List ℕ → List ℕ
slice o n bytes = take n (drop o bytes)

-- `data[o]`
abbrev pub byte_at : ℕ → List ℕ → ℕ
byte_at o bytes = from_bytes (slice o 1 bytes)

abbrev pub u64_at : ℕ → List ℕ → ℕ
u64_at o bytes = from_bytes (slice o 8 bytes)

abbrev pub i64_at : ℕ → List ℕ → ℤ
i64_at o bytes = from_bytes_signed (slice o 8 bytes)

module _ {K : Type 0} ⦃keys : Keys K⦄ (channel_discriminator : List ℕ) where
  open keys use {from_key_bytes}

  abbrev pub key_at : ℕ → List ℕ → Result K
  key_at o bytes = or_raise (from_key_bytes (slice o 32 bytes)) value_error

  unfoldable pub decode_channel : List ℕ → Result (ChannelAccount K)
  decode_channel bytes = do
    raise_if (ltb (length bytes) account_size) value_error
    raise_if (not (text_eq (take discriminator_len bytes) channel_discriminator)) value_error
    consumer ← key_at 18 bytes
    producer ← key_at 50 bytes
    session_key ← key_at 82 bytes
    status ← status_of (byte_at 190 bytes)
    ok (record {
      bump = byte_at 8 bytes;
      vault_bump = byte_at 9 bytes;
      nonce = u64_at 10 bytes;
      consumer = consumer;
      producer = producer;
      session_key = session_key;
      deposit_micro = u64_at 114 bytes;
      input_price_micro = u64_at 122 bytes;
      output_price_micro = u64_at 130 bytes;
      prepaid_input_micro = u64_at 138 bytes;
      trailing_buffer_micro = u64_at 146 bytes;
      last_sequence = u64_at 154 bytes;
      last_cumulative_paid = u64_at 162 bytes;
      expires_at = i64_at 170 bytes;
      settled_at = i64_at 178 bytes;
      dispute_secs = from_bytes (slice 186 4 bytes);
      status = status;
    })
