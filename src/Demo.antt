-- ===== src/Demo.antt =====
-- demo: the programs around the SDK.
pub mod Runner
