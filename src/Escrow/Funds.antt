-- ===== src/Escrow/Funds.antt =====
-- What the transfers of the handlers move.
use tap.Base.{ℕ, ◌+◌, ◌-◌, ◌≤◌, ◌≡◌, sym, ◌∙◌, some, inl, inr, arith, leb, leb→le, Bool-cases}
use tap.Base.Exceptions.{ok}
use tap.Escrow.Handlers.{TokenProgram, pay_out}

module _ (token : TokenProgram) where
  -- A transfer that succeeds moves the amount, which was there.
  pub transfer_moves :
      (n from to : ℕ) (r : ℕ × ℕ)
      → token.transfer n from to ≡ some r
      → (n ≤ from) × (r.0 ≡ from - n) × (r.1 ≡ to + n)
  transfer_moves n from to r h = elim (Bool-cases (leb n from)) [
    | inl t ↦
        let moved = sym h ∙ token.transfer_ok n from to (leb→le n from t) in
        (leb→le n from t, cc, cc)
    | inr f ↦ let short = token.transfer_short n from to (ground arith) in cc
  ]

  pub pay_moves :
      (n from to : ℕ) (r : ℕ × ℕ)
      → pay_out token n from to ≡ ok r
      → (n ≤ from) × (r.0 ≡ from - n) × (r.1 ≡ to + n)
  unfolding pay_out
  pay_moves n from to r h = ground (arith, transfer_moves n from to r)

  pub pay_succeeds : (n from to : ℕ) → n ≤ from → pay_out token n from to ≡ ok (from - n, to + n)
  unfolding pay_out
  pay_succeeds n from to h = ground (arith, token.transfer_ok n from to h)
