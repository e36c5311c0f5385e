-- ===== src/Idempotency.antt =====
-- The Redis locks and consume marks of app/framework/idempotency.py.
pub mod Keys
pub mod Locks
pub mod Exclusion
pub mod Marks
pub mod Overtaken
pub mod Worker
mod Examples
