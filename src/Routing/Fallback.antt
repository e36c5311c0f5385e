-- ===== src/Routing/Fallback.antt =====
-- `ModelRoutingExecutor` of app/model_runtime/routing.py and the streaming half of
-- `RoutingLLMService` of app/model_runtime/chat/service.py: calls that fall back to the next target.
-- A provider client is a parameter. While it works, other tasks may use the health store and time
-- passes, so a call takes the world as it finds it and returns the world that it leaves.
pub mod Permits
pub mod Replies
pub mod Leak
pub mod Streams
mod Examples
use rag_agent.Prelude.{ℕ, String, Bool, Option, none, some, List, [], ◌∷◌}
use rag_agent.Dict
use rag_agent.Routing.Health.{
  HealthStore, CallPermit, allow_call, mark_success, mark_failure, release_half_open_permit,
}
use rag_agent.Routing.Model.{ModelTarget}

-- How an awaited call ends: with a value, an `Exception`, or `CancelledError`, which `except
-- Exception` does not catch.
pub data Outcome (T E : Type 0) : Type 0 where
  returned : T → Outcome T E
  raised : E → Outcome T E
  cancelled : Outcome T E

-- How the executor ends. The two `RemoteException`s carry what their messages are made of.
pub data Executed (T E : Type 0) : Type 0 where
  value : T → Executed T E
  no_candidates : String → Executed T E
  all_failed : String → Option E → Executed T E
  interrupted : Executed T E

pub record World : Type 0 where
  pub health : HealthStore
  pub now : ℕ

abbrev pub target_id : ModelTarget → String
target_id t = t.candidate.id

abbrev pub with_health : World → HealthStore → World
with_health w h = record w { health = h }

-- `await self._health_store.allow_call(target.id)`
abbrev pub acquire : ModelTarget → World → Option CallPermit × World
acquire t w = let (permit, h) = allow_call w.now (target_id t) w.health in (permit, with_health w h)

abbrev pub report_success : ModelTarget → World → World
report_success t w = with_health w (mark_success (target_id t) w.health)

abbrev pub report_failure : ModelTarget → World → World
report_failure t w = with_health w (mark_failure w.now (target_id t) w.health)

-- The end of an attempt: `k` goes on with the next target, the last exception and the world.
pub settle :
    {T E : Type 0}
    → ModelTarget
    → (Option E → World → Executed T E × World)
    → Outcome T E
    → World
    → Executed T E × World
settle t k (returned v) w = (value v, report_success t w)
settle t k (raised e) w = k (some e) (report_failure t w)
settle t k cancelled w = (interrupted, w)

module _ {C T E : Type 0} (caller : C → ModelTarget → World → Outcome T E × World) where
  -- the call, if the circuit breaker has given a permit
  pub call_permitted :
      C
      → ModelTarget
      → (Option E → World → Executed T E × World)
      → Option E
      → Option CallPermit
      → World
      → Executed T E × World
  unfolding settle
  call_permitted client t k last none w = k last w
  call_permitted client t k last (some _) w =
      let (result, w') = caller client t w in settle t k result w'

  -- one round of the loop, with the client that was found
  pub try_target :
      Option C
      → ModelTarget
      → (Option E → World → Executed T E × World)
      → Option E
      → World
      → Executed T E × World
  unfolding call_permitted
  try_target none t k last w = k last w
  try_target (some client) t k last w =
      let (permit, w') = acquire t w in call_permitted client t k last permit w'

module _ {C T E : Type 0} (clients : List (String × C))
    (caller : C → ModelTarget → World → Outcome T E × World) (label : String) where
  -- the loop over the targets, with the last exception
  pub execute_from : List ModelTarget → Option E → World → Executed T E × World
  execute_from [] last w = (all_failed label last, w)
  execute_from (t ∷ ts) last w =
      try_target caller (Dict.get t.candidate.provider clients) t (execute_from ts) last w

  pub execute_with_fallback : List ModelTarget → World → Executed T E × World
  execute_with_fallback [] w = (no_candidates label, w)
  execute_with_fallback (t ∷ ts) w = execute_from (t ∷ ts) none w
