-- ===== src/Protocol/Header.antt =====
-- sdk/python/tap/protocol/codec.py, the JSON form in the X-TAP-COMMIT header.
use tap.Base.{ℕ, ◌≡◌, Bool, not, true, false, List, [], ◌∷◌, length, ◌==◌, arith}
use tap.Base.Text.{Text, codes, text_eq}
use tap.Base.Exceptions.{
  Result, ok, err, protocol_error, value_error, type_error, raise_if, or_raise, catch_as,
  is_field_error, ◌>>=◌, ◌>>◌, >>=-eq-ok,
}
use tap.Json.{Value, null, int, str, obj, fields, item, get, to_int, Wire}
use tap.External.{Keys}
use tap.Protocol.Commit.{SignedCommitment}

abbrev pub schema_name : Text
schema_name = codes "tap.v1.commit"

abbrev pub is_schema : Value → Bool
is_schema (str t) = text_eq t schema_name
is_schema _ = false

-- `base64.b64decode(v, validate=True)`
abbrev pub bytes_of : Wire → Value → Result (List ℕ)
bytes_of wire (str t) = or_raise (wire.unb64 t) value_error
bytes_of _ _ = err type_error

abbrev pub is_object : Value → Bool
is_object (obj _) = true
is_object _ = false

module _ {K : Type 0} ⦃keys : Keys K⦄ (wire : Wire) where
  open keys use {key_str, from_string, from_string_lem}
  open wire use {write, read, b64, read-write, unb64-b64}

  unfoldable pub commit_payload : SignedCommitment K → Value
  commit_payload s = obj (
      fields (
        (codes "schema", str schema_name)
        ∷ (codes "channel_id", str (key_str s.message.channel))
        ∷ (codes "sequence", int s.message.sequence)
        ∷ (codes "cumulative_paid", int s.message.cumulative_paid)
        ∷ (codes "tokens_received", int s.message.tokens_received)
        ∷ (codes "timestamp_ms", int s.message.timestamp_ms)
        ∷ (codes "signature", str (b64 s.signature))
        ∷ []))

  unfoldable pub encode_commitment : SignedCommitment K → Text
  unfolding commit_payload
  encode_commitment s = write (commit_payload s)

  -- `Pubkey.from_string(v)`
  abbrev pub key_of : Value → Result K
  key_of (str t) = or_raise (from_string t) value_error
  key_of _ = err type_error

  -- The `try` block.
  unfoldable pub commit_of : Value → Result (SignedCommitment K)
  commit_of payload = do
    channel ← key_of (← item payload (codes "channel_id"))
    sequence ← to_int (← item payload (codes "sequence"))
    cumulative_paid ← to_int (← item payload (codes "cumulative_paid"))
    tokens_received ← to_int (← item payload (codes "tokens_received"))
    timestamp_ms ← to_int (← item payload (codes "timestamp_ms"))
    signature ← bytes_of wire (← item payload (codes "signature"))
    ok (record {
      message = record {
        channel = channel;
        sequence = sequence;
        cumulative_paid = cumulative_paid;
        tokens_received = tokens_received;
        timestamp_ms = timestamp_ms;
      };
      signature = signature;
    })

  unfoldable pub commit_from : Value → Result (SignedCommitment K)
  unfolding commit_of
  commit_from payload = do
    schema ← get payload (codes "schema") null
    raise_if (not (is_schema schema)) (protocol_error "unknown commit schema")
    signed ←
        catch_as is_field_error
          (protocol_error "X-TAP-COMMIT payload is missing or malformed fields") (commit_of payload)
    raise_if (not (length signed.signature == 64))
        (protocol_error "commitment signature must be 64 bytes")
    ok signed

  unfoldable pub decode_commitment : Text → Result (SignedCommitment K)
  decode_commitment header_value = do
    payload ←
        or_raise (read header_value)
          (protocol_error "X-TAP-COMMIT is not valid base64-encoded JSON")
    commit_from payload

  commit_from-commit_payload :
      (s : SignedCommitment K) → length s.signature ≡ 64 → commit_from (commit_payload s) ≡ ok s
  unfolding commit_from commit_payload item get to_int text_eq
  commit_from-commit_payload s h = simp (from_string_lem, unb64-b64, h)

  -- A commitment with a signature of 64 bytes comes out of its header as it went in.
  pub decode-encode_commitment :
      (s : SignedCommitment K)
      → length s.signature ≡ 64
      → decode_commitment (encode_commitment s) ≡ ok s
  unfolding decode_commitment encode_commitment
  decode-encode_commitment s h = simp (read-write, commit_from-commit_payload s h)

  -- Every accepted header carries a signature of 64 bytes.
  pub length-decode_commitment :
      (header_value : Text) {s : SignedCommitment K}
      → decode_commitment header_value ≡ ok s
      → length s.signature ≡ 64
  unfolding decode_commitment commit_from
  length-decode_commitment header_value h =
      let (payload, _, h1) = >>=-eq-ok (or_raise (read header_value) _) _ h in
      let (schema, _, h2) = >>=-eq-ok (get payload (codes "schema") null) _ h1 in
      let (_, _, h3) = >>=-eq-ok (raise_if (not (is_schema schema)) _) _ h2 in
      let (signed, _, h4) = >>=-eq-ok (catch_as is_field_error _ (commit_of payload)) _ h3 in
      ground arith
