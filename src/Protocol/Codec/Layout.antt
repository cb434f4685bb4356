-- ===== src/Protocol/Codec/Layout.antt =====
-- The byte form has a fixed width, and it determines the message.
use tap.Base.{
  ℕ, ◌≡◌, sym, ap, ◌∙◌, List, ◌++◌, arith, length, length-append, take, drop, take-append,
  drop-append,
}
use tap.Base.Int.{ℤ, pos}
use tap.Base.Bytes.{to_bytes, length-to_bytes, from_bytes-to_bytes, from_bytes}
use tap.Base.Exceptions.{ok, >>=-eq-ok}
use tap.External.{Keys}
use tap.Protocol.Commit.{CommitMessage}
use tap.Protocol.Codec.{encode_commitment_bytes}

-- A field of width `n` at the front of two equal byte strings is the same field.
pub field-injective :
    (n : ℕ) (xs ys us vs : List ℕ)
    → length xs ≡ n
    → length ys ≡ n
    → xs ++ us ≡ ys ++ vs
    → (xs ≡ ys) × (us ≡ vs)
field-injective n xs ys us vs hx hy e = (
  sym (take-append n xs us hx) ∙ ap (take n) e ∙ take-append n ys vs hy,
  sym (drop-append n xs us hx) ∙ ap (drop n) e ∙ drop-append n ys vs hy,
)

-- Two integers with the same bytes are the same integer.
pub to_bytes-injective :
    (n : ℕ) (i j : ℤ) {xs ys : List ℕ}
    → to_bytes n i ≡ ok xs
    → to_bytes n j ≡ ok ys
    → xs ≡ ys
    → i ≡ j
to_bytes-injective n i j hi hj e =
    sym (from_bytes-to_bytes n i hi) ∙ ap (λ bs. pos (from_bytes bs)) e ∙ from_bytes-to_bytes n j hj

module _ {K : Type 0} ⦃keys : Keys K⦄ where
  open keys use {key_bytes, length-key_bytes, from_key_bytes, from_key_bytes_lem}

  key_bytes-injective : (a b : K) → key_bytes a ≡ key_bytes b → a ≡ b
  key_bytes-injective a b e = cc (from_key_bytes_lem a, from_key_bytes_lem b, e)

  -- The fields of a message that was encoded.
  abbrev Fields : CommitMessage K → List ℕ → Type 0
  Fields m bytes =
      (s : List ℕ) × (c : List ℕ) × (t : List ℕ) × (w : List ℕ) × (to_bytes 8 m.sequence ≡ ok s)
      × (to_bytes 8 m.cumulative_paid ≡ ok c)
      × (to_bytes 4 m.tokens_received ≡ ok t)
      × (to_bytes 8 m.timestamp_ms ≡ ok w)
      × (bytes ≡ key_bytes m.channel ++ (s ++ (c ++ (t ++ w))))

  encode_fields :
      (m : CommitMessage K) {bytes : List ℕ} → encode_commitment_bytes m ≡ ok bytes → Fields m bytes
  unfolding encode_commitment_bytes
  encode_fields m h =
      let (s, hs, h1) = >>=-eq-ok (to_bytes 8 m.sequence) _ h in
      let (c, hc, h2) = >>=-eq-ok (to_bytes 8 m.cumulative_paid) _ h1 in
      let (t, ht, h3) = >>=-eq-ok (to_bytes 4 m.tokens_received) _ h2 in
      let (w, hw, h4) = >>=-eq-ok (to_bytes 8 m.timestamp_ms) _ h3 in
      (s, c, t, w, hs, hc, ht, hw, cc)

  -- Every message that encodes at all takes exactly 60 bytes.
  pub length-encode_commitment_bytes :
      (m : CommitMessage K) {bytes : List ℕ}
      → encode_commitment_bytes m ≡ ok bytes
      → length bytes ≡ 60
  length-encode_commitment_bytes m h =
      let (s, c, t, w, hs, hc, ht, hw, e) = encode_fields m h in
      rw e (
        omega (
          arith,
          length-append {0},
          length-key_bytes m.channel,
          length-to_bytes 8 m.sequence hs,
          length-to_bytes 8 m.cumulative_paid hc,
          length-to_bytes 4 m.tokens_received ht,
          length-to_bytes 8 m.timestamp_ms hw,
        ))

  -- Two messages with the same bytes are the same message: a signature authorizes one payment.
  pub encode_commitment_bytes-injective :
      (m n : CommitMessage K) {bytes : List ℕ}
      → encode_commitment_bytes m ≡ ok bytes
      → encode_commitment_bytes n ≡ ok bytes
      → m ≡ n
  encode_commitment_bytes-injective m n hm hn =
      let (s, c, t, w, hs, hc, ht, hw, e) = encode_fields m hm in
      let (s', c', t', w', hs', hc', ht', hw', e') = encode_fields n hn in
      let (kk, r1) =
        field-injective 32 _ _ _ _ (length-key_bytes m.channel) (length-key_bytes n.channel)
          (sym e ∙ e') in
      let (ss, r2) =
        field-injective 8 s s' _ _ (length-to_bytes 8 _ hs) (length-to_bytes 8 _ hs') r1 in
      let (cs, r3) =
        field-injective 8 c c' _ _ (length-to_bytes 8 _ hc) (length-to_bytes 8 _ hc') r2 in
      let (ts, ws) =
        field-injective 4 t t' _ _ (length-to_bytes 4 _ ht) (length-to_bytes 4 _ ht') r3 in
      cc (
        key_bytes-injective m.channel n.channel kk,
        to_bytes-injective 8 m.sequence n.sequence hs hs' ss,
        to_bytes-injective 8 m.cumulative_paid n.cumulative_paid hc hc' cs,
        to_bytes-injective 4 m.tokens_received n.tokens_received ht ht' ts,
        to_bytes-injective 8 m.timestamp_ms n.timestamp_ms hw hw' ws,
      )
