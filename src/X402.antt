-- ===== src/X402.antt =====
-- sdk/python/tap/x402: the three payloads of the channel-opening handshake.
pub mod Requirements
pub mod Payment
pub mod Response
