-- ===== src/TaskQueue.antt =====
-- The task queue in PostgreSQL, app/framework/task_queue.py.
pub mod Rows
pub mod Methods
pub mod Recovery
pub mod Invariant
pub mod Changes
pub mod Steps
pub mod History
pub mod First
pub mod Ownership
pub mod Retries
mod Examples
