-- ===== src/Escrow.antt =====
-- programs/tap/src: the channel program that holds the deposits.
pub mod Commitment
pub mod Sibling
pub mod Handlers
pub mod Entry
pub mod Funds
pub mod Lifecycle
