-- ===== src/Protocol.antt =====
-- sdk/python/tap/protocol: the commitment, its byte form and its signature.
pub mod Commit
pub mod Codec
pub mod Signing
pub mod Header
pub mod Prompt
