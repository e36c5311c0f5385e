-- ===== src/Intent.antt =====
-- The intents of a question, app/rag/intent.
pub mod Resolver
