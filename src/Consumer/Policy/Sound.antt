-- ===== src/Consumer/Policy/Sound.antt =====
-- What the consumer knows of the terms once its policy has passed them.
use tap.Base.{ℕ, ◌≡◌, ◌⊎◌, inl, inr, ◌↔◌, true, not, arith, Bool-cases, ap, ◌∙◌}
use tap.Base.Int.{ℤ, pos, ◌*ℤ◌, ◌≤ℤ◌, eqb_ℤ, eq_of_parts, zero-*ℤ}
use tap.Base.Text.{Text}
use tap.Base.Exceptions.{ok, raise_if, >>=-eq-ok}
use tap.Tokenizer.{Registry, is_registered, count}
use tap.X402.Requirements.{PaymentRequirements}
use tap.Consumer.Policy.{ConsumerPolicy, network_in, audit, check_count, verify_prompt_tokens}

-- The terms that a policy allows.
pub record Allows (policy : ConsumerPolicy) (req : PaymentRequirements) : Type 0 where
  pub network : network_in req.network policy.allowed_networks ≡ ok true
  pub input_price : req.input_price_micro ≤ℤ policy.max_input_price_micro
  pub output_price : req.output_price_micro ≤ℤ policy.max_output_price_micro
  pub trailing_buffer : req.trailing_buffer_tokens ≤ℤ policy.max_trailing_buffer_tokens
  pub pause_timeout : policy.min_pause_timeout_ms ≤ℤ req.pause_timeout_ms
  pub dispute : req.dispute_secs ≤ℤ policy.max_dispute_secs
  pub prepaid : req.prepaid_input_micro ≡ req.input_token_count *ℤ req.input_price_micro

-- The audit passes exactly the terms that the policy allows: the network, the caps on both prices,
-- the trailing buffer and the dispute window, the least pause, and a prepaid input that is the
-- token count times the input price.
pub audit_iff :
    (policy : ConsumerPolicy) (req : PaymentRequirements)
    → (audit policy req ≡ ok tt) ↔ Allows policy req
unfolding audit
audit_iff policy req = (
  λ h.
      ground (
        arith,
        eq_of_parts req.prepaid_input_micro (req.input_token_count *ℤ req.input_price_micro),
      ),
  λ a. ground (
    arith, a.network, a.input_price, a.output_price, a.trailing_buffer, a.pause_timeout, a.dispute,
    a.prepaid,
  ),
)

eqb_ℤ→eq : (a b : ℤ) → eqb_ℤ a b ≡ true → a ≡ b
eqb_ℤ→eq a b h = ground (arith, eq_of_parts a b)

check_count_sound :
    (registry : Registry) (req : PaymentRequirements) (text : Text)
    → check_count registry req text ≡ ok tt
    → (n : ℕ) × (count registry req.tokenizer_id text ≡ ok n) × (req.input_token_count ≡ pos n)
unfolding check_count
check_count_sound registry req text h =
    let (_, _, h1) = >>=-eq-ok (raise_if (not (is_registered registry req.tokenizer_id)) _) _ h in
    let (n, e, h2) = >>=-eq-ok (count registry req.tokenizer_id text) _ h1 in
    (n, e, ground (arith, eq_of_parts req.input_token_count (pos n)))

-- Where the prompt check is on, passes and has something to check, the producer's token count is
-- the count of the consumer's own tokenizer.
pub verify_prompt_tokens_sound :
    (policy : ConsumerPolicy) (registry : Registry) (req : PaymentRequirements) (text : Text)
    → policy.verify_input_tokens ≡ true
    → verify_prompt_tokens policy registry req text ≡ ok tt
    → (req.input_token_count ≡ pos 0)
      ⊎ ((n : ℕ) × (count registry req.tokenizer_id text ≡ ok n) × (req.input_token_count ≡ pos n))
unfolding verify_prompt_tokens
verify_prompt_tokens_sound policy registry req text v h =
    elim (Bool-cases (eqb_ℤ req.input_token_count (pos 0))) [
      | inl none_quoted ↦ inl (eqb_ℤ→eq req.input_token_count (pos 0) none_quoted)
      | inr quoted ↦ inr (check_count_sound registry req text (rw (v, quoted) at h))
    ]

-- Where the prompt check is on, a quote that passes it and the audit costs the consumer's own count
-- of the prompt at the quoted input price, or nothing.
pub no_input_inflation :
    (policy : ConsumerPolicy) (registry : Registry) (req : PaymentRequirements) (text : Text)
    → policy.verify_input_tokens ≡ true
    → audit policy req ≡ ok tt
    → verify_prompt_tokens policy registry req text ≡ ok tt
    → (req.prepaid_input_micro ≡ pos 0)
      ⊎ ((n : ℕ) × (count registry req.tokenizer_id text ≡ ok n)
          × (req.prepaid_input_micro ≡ pos n *ℤ req.input_price_micro))
no_input_inflation policy registry req text v a h =
    let prepaid = ((audit_iff policy req).0 a).prepaid in
    elim (verify_prompt_tokens_sound policy registry req text v h) [
      | inl e ↦
          inl (prepaid ∙ ap (λ c. c *ℤ req.input_price_micro) e ∙ zero-*ℤ req.input_price_micro)
      | inr (n, c, e) ↦ inr (n, c, prepaid ∙ ap (λ c. c *ℤ req.input_price_micro) e)
    ]
