-- ===== src/Routing.antt =====
-- app/model_runtime/routing.py and app/model_runtime/chat: the choice of a model, the circuit
-- breaker, and the calls with fallback.
pub mod Health
pub mod Model
pub mod Selector
pub mod FirstPacket
pub mod Fallback
