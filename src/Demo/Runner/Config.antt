-- ===== src/Demo/Runner/Config.antt =====
-- The static information and the balances that demo/runner.py serves.
use tap.Base.{[], ◌∷◌, Option}
use tap.Base.Text.{Text, codes}
use tap.Base.Exceptions.{Result, ok, value_error, or_raise, ◌>>=◌}
use tap.External.{Keys}
use tap.Json.{Value, int, str, obj, fields}
use tap.Chain.Pda.{Solana, derive_ata}
use tap.Chain.Rpc.{token_balance_micro}

pub record RunnerConfig : Type 0 where
  pub consumer_pubkey : Text
  pub consumer_usdc : Text
  pub producer_pubkey : Text
  pub producer_usdc : Text
  pub network : Text
  pub rpc_url : Text
  pub program_id : Text
  pub usdc_mint : Text
  pub producer_url : Text

unfoldable pub healthz : Value
healthz = obj (fields ((codes "status", str (codes "ok")) ∷ []))

unfoldable pub get_config : RunnerConfig → Value
get_config cfg = obj (
    fields (
      (codes "consumer_pubkey", str cfg.consumer_pubkey)
      ∷ (codes "consumer_usdc", str cfg.consumer_usdc)
      ∷ (codes "producer_pubkey", str cfg.producer_pubkey)
      ∷ (codes "producer_usdc", str cfg.producer_usdc)
      ∷ (codes "network", str cfg.network)
      ∷ (codes "rpc_url", str cfg.rpc_url)
      ∷ (codes "program_id", str cfg.program_id)
      ∷ (codes "usdc_mint", str cfg.usdc_mint)
      ∷ (codes "producer_url", str cfg.producer_url)
      ∷ []))

module _ {K : Type 0} ⦃keys : Keys K⦄ (solana : Solana K) where
  open keys use {key_str, from_string}

  -- What `_lifespan` stores: the consumer's key, and the producer's two addresses from the
  -- environment.
  unfoldable pub config_of : K → Text → Text → Text → Text → Text → Result RunnerConfig
  config_of consumer producer_pubkey producer_usdc network rpc_url producer_url = do
    producer_pk ← or_raise (from_string producer_pubkey) value_error
    usdc ← or_raise (from_string producer_usdc) value_error
    ok (record {
      consumer_pubkey = key_str consumer;
      consumer_usdc = key_str (derive_ata solana consumer solana.usdc_mint_devnet);
      producer_pubkey = key_str producer_pk;
      producer_usdc = key_str usdc;
      network = network;
      rpc_url = rpc_url;
      program_id = key_str solana.program_id;
      usdc_mint = key_str solana.usdc_mint_devnet;
      producer_url = producer_url;
    })

  -- `balance` is the answer of the RPC for a token account.
  unfoldable pub get_balances : (K → Result (Option Text)) → RunnerConfig → Result Value
  unfolding token_balance_micro
  get_balances balance cfg = do
    consumer ← or_raise (from_string cfg.consumer_usdc) value_error
    consumer_balance ← token_balance_micro (balance consumer)
    producer ← or_raise (from_string cfg.producer_usdc) value_error
    producer_balance ← token_balance_micro (balance producer)
    ok (
        obj (
          fields (
            (codes "consumer_micro", int consumer_balance)
            ∷ (codes "producer_micro", int producer_balance)
            ∷ [])))
