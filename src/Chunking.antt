-- ===== src/Chunking.antt =====
-- Chunking, app/core/chunk/service.py: parsed blocks become chunks of bounded length.
pub mod Split
pub mod Blocks
pub mod Service
mod Examples
