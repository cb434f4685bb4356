-- ===== src/Chain.antt =====
-- sdk/python/tap/chain: the account decoder, the instruction builders and the derived addresses.
pub mod Account
pub mod Pda
pub mod Instruction
pub mod Ed25519Ix
pub mod Program
pub mod Rpc
pub mod Keypair
