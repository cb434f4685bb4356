-- ===== src/Producer.antt =====
-- sdk/python/tap/producer
pub mod Pricing
pub mod Channel
pub mod Verifier
pub mod Halt
pub mod WrapStream
pub mod Registry
pub mod Sse
pub mod Settle
pub mod Settler
pub mod Server
