-- ===== src/Adapters.antt =====
-- sdk/python/tap/adapters: the model adapters.
pub mod Gemini
pub mod Requests
