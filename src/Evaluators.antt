-- ===== src/Evaluators.antt =====
-- sdk/python/tap/evaluators
pub mod Decision
pub mod Guards
pub mod Compose
pub mod JsonSchema
pub mod Scores
