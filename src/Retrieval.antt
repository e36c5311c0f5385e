-- ===== src/Retrieval.antt =====
-- What follows the search of the channels, app/rag/retrieval.
pub mod PostProcessors
mod Examples
