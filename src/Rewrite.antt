-- ===== src/Rewrite.antt =====
-- The rewriting of a question, app/rag/rewrite.
pub mod Mapping
