-- ===== src/Producer/Server/Cleanup.antt =====
-- What is left of a channel once its stream has ended.
use tap.Base.{ℕ, ◌≡◌, none, List, if◌then◌else◌}
use tap.Base.Exceptions.{Result}
use tap.External.{Keys, ◌==ₖ◌}
use tap.Json.{Wire}
use tap.Chain.Pda.{Solana}
use tap.Chain.Instruction.{Instruction}
use tap.Producer.Registry.{get, get-remove}
use tap.Producer.Server.{Config}
use tap.Producer.Server.Host.{Host, settle_and_cleanup}

module _ {K R : Type 0} ⦃keys : Keys K⦄ (solana : Solana K) (wire : Wire) (config : Config K) where
  -- Whether the settlement is skipped, succeeds or raises, the channel's id is no longer registered
  -- afterwards, and every other id stands for what it stood for.
  pub settle_and_cleanup_forgets :
      (submit : List (Instruction K) → Result R) (ref : ℕ) (h : Host K) (k : K)
      → get k (settle_and_cleanup solana wire config submit ref h).1.registry
        ≡ (if (h.heap ref).channel_id ==ₖ k then none else get k h.registry)
  unfolding settle_and_cleanup
  settle_and_cleanup_forgets submit ref h k = get-remove k (h.heap ref).channel_id h.registry
