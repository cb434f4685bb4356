-- ===== src/Lib.antt =====
-- The Token Accountability Protocol's Python SDK (sdk/python/tap): a consumer streams tokens from an
-- inference provider and pays for them by signed commitments, each of which replaces the one before.
-- The producer takes the last commitment to a Solana program, which holds the consumer's deposit.
--
-- How the parts interact. The consumer posts a prompt and gets a quote (Producer.Server), which its
-- policy checks (Consumer.Policy); it builds the transaction that opens a channel and sends it in a
-- payment header (Consumer.Opening, X402.Payment). The producer registers the channel
-- (Producer.Server.Host) and streams tokens through a guard (Producer.WrapStream) that waits while too
-- much is unpaid. The consumer's session (Consumer.Session) counts tokens, signs commitments in batches
-- and posts them; the verifier (Producer.Verifier) accepts or refuses each. When the stream ends the
-- producer settles (Producer.Settle) and later a worker closes the channel (Producer.Settler).
--
-- Files and the code that each is about, under sdk/python/tap:
--   Base           integers, bytes, exceptions as values, actions on a state, texts as code points
--   External       solders keys and PyNaCl signatures, as records of operations with their laws
--   Json           the values of `json`, `int(...)`, item access; `Wire`, the text form with its laws
--   Timing         timing/parameters.py
--   Tokenizer      tokenizer.py; Tokenizer.Counts is about when `count` returns
--   Protocol       commit.py (Commit), codec.py (Codec for the bytes, Header for the JSON form),
--                  signing.py (Signing), prompt.py (Prompt); Codec.Layout is about the byte form
--   X402           requirements.py, payment.py and response.py, each with its decoder
--   Chain          channel_account.py (Account), pda.py and discriminator.py (Pda), instructions.py
--                  (Instruction, Program), ed25519_ix.py (Ed25519Ix), rpc.py (Rpc), keypair_io.py
--                  (Keypair); Ed25519Ix.Sibling reads its data as settle.rs of the program does
--   Producer       pricing.py, channel.py, verifier.py, halt.py, wrap_stream.py, registry.py, sse.py,
--                  settle.py, settler.py under the same names; server.py in Server, where Host has the
--                  channels and what changes them, Routes the handlers,
--                  Streaming the course of a stream and Serving all of these as steps of a host,
--                  App the routes and the lifespan
--   Consumer       batching.py, halt.py, policy.py under the same names; session.py in Session, with its
--                  loop in Session.Stream; stream.py in Events; discovery.py, opener.py and client.py
--                  in Opening
--   Evaluators     base.py (Decision), compose.py, length_cap.py and content_policy.py (Guards),
--                  json_schema.py (JsonSchema), repetition.py and topic_drift.py (Scores)
--   Adapters       adapters/gemini.py: Gemini and Gemini.Chunks for what one stream yields, Gemini.Retry
--                  for the attempts; Requests has openai.py, anthropic.py and ollama.py
--   Escrow         programs/tap/src (from the root): instructions/ in Handlers and Sibling,
--                  state/commitment.rs in Commitment, lib.rs in Entry (the entry points settle and
--                  close, on the bytes and accounts of an instruction); Lifecycle has the transactions
--                  as steps
--   Agreement      both ends together: posts as the verifier sees them, the quote as the policy does
--                  (Settlement, Submitted, Proceeds: what the producer submits as the program runs it; Spending:
--                  what the consumer's session has signed as the program runs it; Closing: the round of
--                  the settler that pays a settled channel out; Handshake: the opening of a session at
--                  the producer's handlers)
--   Demo           demo/runner.py (from the root)
--   Tests          concrete stand-ins for what is outside the repository, and runs
--
-- Conventions. A Python integer is an ℤ without bound; where the code writes it into bytes, a value that
-- does not fit raises. A call that may raise returns a `Result`; a method that also mutates its object is
-- an `Action`, which keeps what was written before an exception. Clocks, random numbers and the outcomes
-- of network calls are arguments. A stream is a list of what arrived, and each suspension of the
-- producer's generator is a `Gap` with the posts and the clock at its end, so that any interleaving is
-- some list; no fuel is needed, since every loop runs over such a list. The floating-point tests of the
-- batcher and the evaluators are comparisons of integers.
--
-- On chain, a `Step` is one transaction that succeeds, or a transfer from elsewhere into the vault. The
-- consumer's and the producer's token accounts are two; signers, the derivation of addresses, rent and
-- events are left out. A transaction that fails changes nothing.
--
-- Not modelled: settler_cli.py (arguments of a command line around the worker), FastAPI's routing, the
-- constants of chain/program_id.py (addresses are arguments), the modules that only pass names on, the
-- demo's scripts besides its runner (consoles and charts over the SDK), and the TypeScript SDK.
pub mod Base
pub mod External
pub mod Json
pub mod Timing
pub mod Tokenizer
pub mod Protocol
pub mod X402
pub mod Chain
pub mod Evaluators
pub mod Producer
pub mod Consumer
pub mod Escrow
pub mod Adapters
pub mod Demo
pub mod Agreement
pub mod Tests
