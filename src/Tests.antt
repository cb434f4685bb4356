-- ===== src/Tests.antt =====
-- Concrete stand-ins for the packages outside the repository, and the runs of the theorems on them.
pub mod Wire
pub mod Parties
pub mod ProtocolRuns
pub mod ProducerRuns
pub mod ConsumerRuns
pub mod Chain
pub mod EndpointRuns
pub mod OpeningRuns
pub mod HandshakeRuns
pub mod EvaluatorRuns
pub mod SettleRuns
pub mod EscrowRuns
pub mod Events
pub mod SilenceRuns
pub mod GeminiRuns
pub mod ProceedsRuns
pub mod ReturnRuns
pub mod AccountRuns
pub mod SpendingRuns
pub mod ServingRuns
