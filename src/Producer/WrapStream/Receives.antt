-- ===== src/Producer/WrapStream/Receives.antt =====
-- What commitments that arrive while a stream is suspended do to its channel.
use tap.Base.{◌≡◌, refl, Option, none, some, List, [], ◌∷◌, arith}
use native.Mathlib.Numerals.{add-one}
use tap.Base.Int.{ℤ, pos, ◌+ℤ◌, ◌-ℤ◌, ◌*ℤ◌, ◌≤ℤ◌, max_ℤ, int_laws, *ℤ-suc, -ℤ_parts}
use tap.Base.Exceptions.{Result, ok, err}
use tap.External.{Keys, Ed25519}
use tap.Protocol.Commit.{SignedCommitment}
use tap.Producer.Channel.{
  ActiveChannel, note_commit, note_token, mark_halted, unpaid_value_micro, cumulative_paid_micro,
}
use tap.Producer.Verifier.{accept_commitment}
use tap.Producer.Verifier.Accepts.{Supersedes, Accepts, accept_commitment_sound}
use tap.Producer.WrapStream.{lapsed, receive_one, receive}

-- A larger payment leaves no more unpaid.
pub unpaid_mono :
    (v p x y : ℤ) → x ≤ℤ y → v -ℤ max_ℤ (pos 0) (y -ℤ p) ≤ℤ v -ℤ max_ℤ (pos 0) (x -ℤ p)
unpaid_mono v p x y h = ground (
  arith,
  -ℤ_parts x p,
  -ℤ_parts y p,
  -ℤ_parts v (pos 0),
  -ℤ_parts v (x -ℤ p),
  -ℤ_parts v (y -ℤ p),
)

pub regroup : (a p m : ℤ) → a +ℤ p -ℤ m ≡ a -ℤ m +ℤ p
regroup a p m = omega int_laws

module _ {K : Type 0} where
  -- What other tasks may do to the channel of a suspended stream.
  pub record Receives (c c' : ActiveChannel K) : Type 0 where
    pub same_price : c'.output_price_micro ≡ c.output_price_micro
    pub same_prepaid : c'.prepaid_input_micro ≡ c.prepaid_input_micro
    pub same_delivered : c'.tokens_delivered ≡ c.tokens_delivered
    pub paid : cumulative_paid_micro c ≤ℤ cumulative_paid_micro c'
    pub unpaid : unpaid_value_micro c' ≤ℤ unpaid_value_micro c

  pub Receives-refl : (c : ActiveChannel K) → Receives c c
  Receives-refl c = ground arith

  pub Receives-trans : {a b c : ActiveChannel K} → Receives a b → Receives b c → Receives a c
  Receives-trans p q = ground arith

  pub lapsed-Receives : (c : ActiveChannel K) → Receives c (lapsed c)
  unfolding unpaid_value_micro mark_halted
  lapsed-Receives c = ground arith

  pub unpaid-note_token :
      (c : ActiveChannel K)
      → unpaid_value_micro (note_token c) ≡ unpaid_value_micro c +ℤ c.output_price_micro
  unfolding unpaid_value_micro note_token
  unpaid-note_token c =
      rw (add-one, *ℤ-suc)
        (regroup (pos c.tokens_delivered *ℤ c.output_price_micro) c.output_price_micro _)

  -- A commitment that the verifier accepts pays no less than what was there.
  pub note_commit-Receives :
      (now : ℤ) (s : SignedCommitment K) (c : ActiveChannel K)
      → cumulative_paid_micro c ≤ℤ s.message.cumulative_paid
      → Receives c (note_commit now s c)
  unfolding unpaid_value_micro note_commit
  note_commit-Receives now s c h = record {
    same_price = refl;
    same_prepaid = refl;
    same_delivered = refl;
    paid = h;
    unpaid = unpaid_mono _ c.prepaid_input_micro _ _ h;
  }

module _ {K SK : Type 0} ⦃keys : Keys K⦄ (ed : Ed25519 SK) where
  Accepts-paid :
      (c : ActiveChannel K) (s : SignedCommitment K)
      → Accepts ed c s
      → cumulative_paid_micro c ≤ℤ s.message.cumulative_paid
  unfolding cumulative_paid_micro
  Accepts-paid c s a = by_last c.last_commitment a.fresh
    where
      by_last :
          (l : Option (SignedCommitment K))
          → Supersedes l s
          → (elim l [ none ↦ c.prepaid_input_micro | some last ↦ last.message.cumulative_paid ])
            ≤ℤ s.message.cumulative_paid
      by_last none f = a.floor
      by_last (some last) f = f.1

  pub receive_one-Receives :
      (c : ActiveChannel K) (s : SignedCommitment K) (at : ℤ) → Receives c (receive_one ed c s at)
  unfolding receive_one
  receive_one-Receives c s at = go (accept_commitment ed at c s) refl
    where
      go :
          (r : Result (ActiveChannel K))
          → accept_commitment ed at c s ≡ r
          → Receives c (elim r [ ok c' ↦ c' | err _ ↦ c ])
      go (ok c') e =
          let (a, eq) = accept_commitment_sound ed at c s e in
          rw eq (note_commit-Receives at s c (Accepts-paid c s a))
      go (err _) e = Receives-refl c

  pub receive-Receives :
      (c : ActiveChannel K) (posts : List (SignedCommitment K × ℤ))
      → Receives c (receive ed c posts)
  unfolding receive
  receive-Receives c [] = Receives-refl c
  receive-Receives c ((s, at) ∷ posts) =
      Receives-trans (receive_one-Receives c s at) (receive-Receives (receive_one ed c s at) posts)
