-- ===== src/Stream.antt =====
-- The stream of an answer, app/framework/sse.py and app/framework/stream_tasks.py.
pub mod Pieces
pub mod Sender
pub mod Tasks
pub mod Broadcast
mod Examples
