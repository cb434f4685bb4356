-- ===== src/Tests/ServingRuns.antt =====
-- A host that opens a channel, takes a commitment and streams, on concrete values.
use tap.Base.{ℕ, ◌≡◌, ◌≢◌, refl, ◌∙◌, ap, Option, none, some, List, [], ◌∷◌, ◌<◌, arith}
use mathlib.Core.Path.{subst}
use tap.Base.Int.{pos, ◌<ℤ◌}
use tap.Base.Text.{Text, codes}
use tap.Base.Exceptions.{Result, ok}
use tap.Json.{str}
use tap.X402.Payment.{OpenChannelPayment, encode_payment}
use tap.X402.Payment.RoundTrip.{decode-encode_payment}
use tap.Protocol.Header.{encode_commitment, decode-encode_commitment}
use tap.Producer.Channel.{ActiveChannel, note_commit}
use tap.Producer.Registry.{get, put}
use tap.Producer.Verifier.{accept_commitment}
use tap.Producer.Verifier.Accepts.{accept_commitment_sound}
use tap.Producer.Server.Commit.{commit_endpoint_stores}
use tap.Producer.WrapStream.{waiting, wrap_stream}
use tap.Producer.Server.Host.{
  Host, store, add_channel, channel_from, open_channel_from_payment, commit_endpoint,
}
use tap.Producer.Server.Payment.{open_channel_from_payment_lem, open_channel_from_payment-unpriced}
use tap.Producer.Server.Serving.{HostReach, here, later, posts, pays}
use tap.Producer.Server.Serving.View.{view, IsHost}
use tap.Producer.Server.Serving.Moves.{Moves}
use tap.Producer.Server.Serving.Refines.{Reach-Moves}
use tap.Producer.Server.Serving.Verified.{IsVerified, Reach-IsVerified}
use tap.Tests.Wire.{wire}
use tap.Tests.Parties.{Party, channel, consumer, session, parties, signer, bytes_of}
use tap.Chain.Pda.{derive_channel_pda}
use tap.Base.Bytes.{to_bytes}
use tap.Tests.Chain.{chain}
use tap.Tests.ProducerRuns.{opened, first_commitment, run}
use tap.Tests.EndpointRuns.{config}

abbrev free : OpenChannelPayment
free = record {
  scheme = str (codes "tap-v1");
  network = str (codes "solana-devnet");
  consumer_pubkey = str (bytes_of consumer);
  session_key = str (bytes_of session);
  nonce = pos 3;
  deposit_micro = pos 1000;
  input_price_micro = pos 5;
  output_price_micro = pos 0;
  prepaid_input_micro = pos 15;
  duration_secs = pos 60;
  dispute_secs = pos 20;
  trailing_buffer_tokens = pos 4;
  transaction_b64 = codes "AQ==";
}

abbrev parse : Text → Option Text
parse t = some t

abbrev send : Text → Result (Unit {0})
send t = ok tt

abbrev empty : Host Party
empty = record { heap = λ _. opened; next = 0; registry = [] }

abbrev header : Text
header = encode_payment wire free

open_channel_from_payment-unpriced_example :
    (h' : Host Party) × (open_channel_from_payment chain wire config parse send (pos 0) header empty
      ≡ (ok 0, h'))
    × ((wrap_stream signer config.pricing config.timing (pos 0) run (h'.heap 0)).status ≢ waiting)
unfolding derive_channel_pda to_bytes
open_channel_from_payment-unpriced_example =
    open_channel_from_payment-unpriced chain wire config parse send signer (pos 0) (pos 0) header
      empty free (codes "AQ==") consumer channel session 255 run (decode-encode_payment wire free)
      refl refl refl refl refl refl (omega arith)

abbrev priced : OpenChannelPayment
priced = record free { output_price_micro = pos 10 }

abbrev paid_for : ActiveChannel Party
paid_for = record opened { consumer_usdc = channel }

abbrev serving : Host Party
serving = add_channel paid_for empty

opens :
    open_channel_from_payment chain wire config parse send
      (pos 0)
      (encode_payment wire priced)
      empty
    ≡ (ok 0, serving)
unfolding derive_channel_pda to_bytes channel_from tap.Base.Int.◌*ℤ◌ tap.Chain.Pda.derive_ata
opens =
    open_channel_from_payment_lem chain wire config parse send (pos 0) (encode_payment wire priced)
      empty priced (codes "AQ==") consumer channel session 255 (decode-encode_payment wire priced)
      refl refl refl refl refl

abbrev holding : Host Party
holding = store 0 (note_commit (pos 8) first_commitment paid_for) serving

paid_for_accepts :
    accept_commitment signer (pos 8) paid_for first_commitment
    ≡ ok (note_commit (pos 8) first_commitment paid_for)
unfolding accept_commitment tap.Producer.Verifier.check_last tap.Protocol.Signing.verify_commitment
    tap.Protocol.Codec.encode_commitment_bytes to_bytes
paid_for_accepts = refl

takes :
    commit_endpoint signer wire
      (pos 8)
      (encode_commitment wire first_commitment)
      (bytes_of channel)
      serving
    ≡ (ok 204, holding)
unfolding get add_channel put store
takes =
    commit_endpoint_stores signer wire (pos 8) (encode_commitment wire first_commitment)
      (bytes_of channel) serving first_commitment channel 0
      (decode-encode_commitment wire first_commitment refl) refl refl
      (accept_commitment_sound signer (pos 8) paid_for first_commitment paid_for_accepts).0

abbrev IsServed : Host Party → Type 0
IsServed = HostReach ℕ signer chain wire config parse send empty

-- A payment, a token, and a commitment.
served : IsServed holding
served =
    let first =
      subst IsServed (ap (λ (r : Result ℕ × Host Party). r.1) opens)
        (later here (pays (pos 0) (encode_payment wire priced))) in
    subst IsServed (ap (λ (r : Result ℕ × Host Party). r.1) takes)
      (later first (posts (pos 8) (encode_commitment wire first_commitment) (bytes_of channel)))

empty-IsHost : IsHost empty
unfolding get
empty-IsHost = record { own_id = λ k ref g. cc; allocated = λ k ref g. cc }

Reach-Moves_example : IsHost holding × Moves signer (view empty) (view holding)
Reach-Moves_example = Reach-Moves signer chain wire config parse send served empty-IsHost

Reach-IsVerified_example : IsVerified signer channel (note_commit (pos 8) first_commitment paid_for)
unfolding get store add_channel put
Reach-IsVerified_example =
    Reach-IsVerified signer chain wire config parse send channel
      (note_commit (pos 8) first_commitment paid_for) served refl refl
