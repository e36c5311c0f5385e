-- ===== src/Ingestion.antt =====
-- The ingestion pipeline, app/ingestion.
pub mod Pipeline
pub mod Execution
mod Examples
