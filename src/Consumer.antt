-- ===== src/Consumer.antt =====
-- sdk/python/tap/consumer
pub mod Batching
pub mod Halt
pub mod Policy
pub mod Session
pub mod Events
pub mod Opening
