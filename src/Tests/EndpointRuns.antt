-- ===== src/Tests/EndpointRuns.antt =====
-- The producer's endpoints and its settler, on concrete values.
use tap.Base.{
  ℕ, ◌+◌, ◌≡◌, refl, Option, none, some, List, [], ◌∷◌, ◌++◌, All, arith, true, if◌then◌else◌,
}
use tap.Base.Int.{pos, ◌+ℤ◌, ◌<ℤ◌}
use tap.Base.Text.{codes}
use tap.Base.Exceptions.{http_exception, Result, ok, err}
use tap.Json.{null}
use tap.Timing.{default_timing}
use tap.Tokenizer.{Registry, tap_v1}
use tap.Protocol.Header.{encode_commitment, decode_commitment, decode-encode_commitment}
use tap.Chain.Instruction.{Instruction}
use tap.Producer.Settler.{Settler, Pending, ready}
use tap.Producer.Settler.Due.{IsClosable, ready-IsClosable}
use tap.Producer.Server.{Config}
use tap.Producer.Server.Host.{Host, commit_endpoint}
use tap.Producer.Server.Commit.{commit_endpoint_refuses}
use tap.Producer.Server.Streaming.{raised, stream_task, commit_endpoint-stream_task}
use tap.Tests.Wire.{wire}
use tap.Tests.Parties.{
  Party, channel, producer, consumer, session, parties, signer, bytes_of, zeros_31,
}
use tap.Tests.Chain.{chain}
use tap.Tests.ProducerRuns.{opened, first_commitment, prices, run}

abbrev pub host : Host Party
host = record { heap = λ _. opened; next = 1; registry = (channel, 0) ∷ [] }

bad_header :
    (commit_endpoint signer wire (pos 8) [] (bytes_of channel) host).0 ≡ err (http_exception 400 "")
unfolding commit_endpoint tap.Base.Action.◌>>=◌ decode_commitment
bad_header = refl

commit_endpoint_refuses_example :
    (commit_endpoint signer wire (pos 8) [] (bytes_of channel) host).1 ≡ host
commit_endpoint_refuses_example =
    commit_endpoint_refuses signer wire (pos 8) [] (bytes_of channel) host (http_exception 400 "")
      bad_header

abbrev pub config : Config Party
config = record {
  producer = producer;
  producer_usdc = producer;
  pricing = prices;
  timing = default_timing;
  network = codes "solana-devnet";
  usdc_mint = session;
  program_id = channel;
  public_base_url = codes "http://localhost:8000";
  model_name = null;
}

abbrev take_all : List (Instruction Party) → Result ℕ
take_all ixs = ok 1

-- The model fails after its third token.
commit_endpoint-stream_task_example :
    commit_endpoint signer wire
      (pos 20)
      (encode_commitment wire first_commitment)
      (bytes_of channel)
      (stream_task signer chain wire config take_all (pos 0) run (raised (codes "503")) [] 0 host).2
    ≡ (
      err (http_exception 404 "unknown channel"),
      (stream_task signer chain wire config take_all
          (pos 0)
          run
          (raised (codes "503"))
          []
          0
          host).2,
    )
commit_endpoint-stream_task_example =
    commit_endpoint-stream_task signer chain wire config take_all (pos 0) (pos 20) run
      (raised (codes "503")) [] 0 host (encode_commitment wire first_commitment) (bytes_of channel)
      first_commitment (decode-encode_commitment wire first_commitment refl) refl

abbrev pub tokenizers : Registry
tokenizers = (codes "tap-v1", tap_v1 (λ _. true)) ∷ []

abbrev settler : Settler Party
settler = record { producer = producer; producer_usdc = producer; clock_slack = pos 5 }

-- A channel that is settling since second 0 with a window of 30 seconds, after the zero digest of
-- `chain` for a discriminator.
abbrev settling_bytes : List ℕ
settling_bytes =
    (0 ∷ 0 ∷ 0 ∷ 0 ∷ 0 ∷ 0 ∷ 0 ∷ 0 ∷ [])
    ++ ((1 ∷ 1 ∷ [])
        ++ ((0 ∷ 0 ∷ 0 ∷ 0 ∷ 0 ∷ 0 ∷ 0 ∷ 0 ∷ [])
            ++ (bytes_of consumer
                ++ (bytes_of producer
                    ++ (bytes_of session
                        ++ (zeros_31
                            ++ (zeros_31
                                ++ ((0 ∷ 0 ∷ 0 ∷ 0 ∷ 0 ∷ 0 ∷ 0 ∷ 0 ∷ 0 ∷ 0 ∷ [])
                                    ++ (30 ∷ 0 ∷ 0 ∷ 0 ∷ 1 ∷ [])))))))))

before : pos 35 <ℤ pos 31 +ℤ settler.clock_slack
unfolding ◌+ℤ◌
before = omega arith

ready-IsClosable_example :
    All
      (λ (p : Pending Party). IsClosable (pos 31) p.account)
      (ready chain settler (pos 35) ((channel, settling_bytes) ∷ []))
ready-IsClosable_example =
    ready-IsClosable chain settler (pos 35) (pos 31) ((channel, settling_bytes) ∷ []) before
