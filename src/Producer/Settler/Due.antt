-- ===== src/Producer/Settler/Due.antt =====
-- When the settler closes a channel (sdk/python/tap/producer/settler.py), against the guard of the
-- handler `close` (programs/tap/src/instructions/close.rs): `now > settled_at + dispute_secs`.
use tap.Base.{ℕ, ◌≡◌, true, List, [], ◌∷◌, arith, All, if-cases}
use tap.Base.Int.{ℤ, pos, ◌+ℤ◌, ◌<ℤ◌}
use tap.Base.Exceptions.{Result, ok, err}
use tap.External.{Keys}
use tap.Chain.Account.{ChannelAccount, decode_channel}
use tap.Chain.Pda.{Solana, account_disc}
use tap.Producer.Settler.{Settler, Pending, due, keep_due, ready}

module _ {K : Type 0} where
  -- `require!(now > dispute_until)` at the chain's clock.
  abbrev pub IsClosable : ℤ → ChannelAccount K → Type 0
  IsClosable clock account = account.settled_at +ℤ pos account.dispute_secs <ℤ clock

module _ {K : Type 0} ⦃keys : Keys K⦄ (solana : Solana K) (settler : Settler K) where
  pub due-IsClosable :
      (now clock : ℤ) (account : ChannelAccount K)
      → now <ℤ clock +ℤ settler.clock_slack
      → due solana settler now account ≡ true
      → IsClosable clock account
  unfolding ◌+ℤ◌
  due-IsClosable now clock account h d = ground arith

  keep_due-IsClosable :
      (now clock : ℤ) (address : K) (r : Result (ChannelAccount K)) (later : List (Pending K))
      → now <ℤ clock +ℤ settler.clock_slack
      → All (λ (p : Pending K). IsClosable clock p.account) later
      → All
          (λ (p : Pending K). IsClosable clock p.account)
          (keep_due solana settler now address r later)
  keep_due-IsClosable now clock address (err _) later h l = l
  keep_due-IsClosable now clock address (ok a) later h l =
      if-cases (All (λ (p : Pending K). IsClosable clock p.account)) (due solana settler now a)
        (λ d. (due-IsClosable now clock a h d, l)) (λ _. l)

  -- Every channel that the settler picks at its clock is past its dispute window at the chain's
  -- clock, as long as the settler's clock is ahead of the chain's by less than the slack.
  pub ready-IsClosable :
      (now clock : ℤ) (accounts : List (K × List ℕ))
      → now <ℤ clock +ℤ settler.clock_slack
      → All (λ (p : Pending K). IsClosable clock p.account) (ready solana settler now accounts)
  unfolding ready
  ready-IsClosable now clock [] h = tt
  ready-IsClosable now clock ((address, bytes) ∷ accounts) h =
      keep_due-IsClosable now clock address (decode_channel (account_disc solana "Channel") bytes)
        (ready solana settler now accounts) h (ready-IsClosable now clock accounts h)
