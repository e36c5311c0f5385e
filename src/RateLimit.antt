-- ===== src/RateLimit.antt =====
-- app/rag/ratelimit: the lease semaphore and the fair queue in Redis. Each Lua script is one step.
pub mod Semaphore
pub mod Claim
pub mod Process
