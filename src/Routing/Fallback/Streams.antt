-- ===== src/Routing/Fallback/Streams.antt =====
-- `stream_chat` and `_try_stream_candidate` of app/model_runtime/chat/service.py: a streamed call
-- with fallback, whose first packet decides. The provider's client starts the stream and cancels
-- it; both, and the wait for the first packet, are parameters that may change the world, and each may
-- be cut short by a cancellation of the task.
pub mod Resolved
pub mod Leak
use rag_agent.Prelude.{ℕ, String, ◌≡◌, Option, none, some, List, [], ◌∷◌}
use rag_agent.Dict
use rag_agent.Routing.Health.{HealthStore, CallPermit, release_half_open_permit}
use rag_agent.Routing.Model.{ModelTarget}
use rag_agent.Routing.FirstPacket.{ProbeResult, success}
use rag_agent.Routing.Fallback.{
  Outcome, returned, raised, cancelled, World, target_id, with_health, acquire, report_success,
  report_failure,
}

-- How one candidate ends.
pub data Attempt (H : Type 0) : Type 0 where
  chosen : H → Attempt H
  next_target : Attempt H
  interrupted : Attempt H

-- How `stream_chat` ends. In `all_failed` the callback's `on_error` was called before the raise.
pub data Streamed (H : Type 0) : Type 0 where
  streaming : H → Streamed H
  all_failed : Streamed H
  stream_interrupted : Streamed H

abbrev pub give_back : CallPermit → World → World
give_back p w = with_health w (release_half_open_permit p w.health).1

-- `_cancel_quietly` and what follows it: an exception of `cancel` is caught, a `CancelledError` is not
unfoldable pub cancel_quietly :
    {H E : Type 0} → (World → Attempt H × World) → Outcome (Unit {0}) E × World → Attempt H × World
cancel_quietly k (returned _, w) = k w
cancel_quietly k (raised _, w) = k w
cancel_quietly k (cancelled, w) = (interrupted, w)

module _ {C H E : Type 0} (start : C → ModelTarget → World → Outcome (Option H) E × World)
    (first_packet : H → ModelTarget → World → Outcome ProbeResult E × World)
    (cancel : H → World → Outcome (Unit {0}) E × World) where
  -- after the wait for the first packet
  unfoldable pub probed :
      CallPermit → ModelTarget → H → Outcome ProbeResult E → World → Attempt H × World
  unfolding cancel_quietly
  probed p t h cancelled w = cancel_quietly (λ v. (interrupted, give_back p v)) (cancel h w)
  probed p t h (raised e) w = (next_target, report_failure t w)
  probed p t h (returned success) w = (chosen h, report_success t w)
  probed p t h (returned _) w = cancel_quietly (λ v. (next_target, report_failure t v)) (cancel h w)

  -- after the start of the stream; a missing handle is raised as a `RemoteException` and caught
  unfoldable pub started :
      CallPermit → ModelTarget → Outcome (Option H) E → World → Attempt H × World
  unfolding probed
  started p t cancelled w = (interrupted, give_back p w)
  started p t (raised e) w = (next_target, report_failure t w)
  started p t (returned none) w = (next_target, report_failure t w)
  started p t (returned (some h)) w =
      let (result, w') = first_packet h t w in probed p t h result w'

  unfoldable pub permitted : C → ModelTarget → Option CallPermit → World → Attempt H × World
  unfolding started
  permitted client t none w = (next_target, w)
  permitted client t (some p) w = let (outcome, w') = start client t w in started p t outcome w'

  unfoldable pub try_stream_candidate : Option C → ModelTarget → World → Attempt H × World
  unfolding permitted
  try_stream_candidate none t w = (next_target, w)
  try_stream_candidate (some client) t w =
      let (permit, w') = acquire t w in permitted client t permit w'

  unfoldable pub after_attempt :
      (World → Streamed H × World) → Attempt H → World → Streamed H × World
  after_attempt k (chosen h) w = (streaming h, w)
  after_attempt k next_target w = k w
  after_attempt k interrupted w = (stream_interrupted, w)

  unfoldable pub stream_chat : List (String × C) → List ModelTarget → World → Streamed H × World
  unfolding after_attempt
  stream_chat clients [] w = (all_failed, w)
  stream_chat clients (t ∷ ts) w =
      let (attempt, w') = try_stream_candidate (Dict.get t.candidate.provider clients) t w in
      after_attempt (stream_chat clients ts) attempt w'
