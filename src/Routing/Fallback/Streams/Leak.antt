-- ===== src/Routing/Fallback/Streams/Leak.antt =====
-- A streamed call that is cancelled while it closes a stream keeps its half-open probe.
use rag_agent.Prelude.{
  ℕ, ◌≤◌, String, ◌≡◌, refl, ap, sym, subst, Option, some, List, ◌∷◌, none, arith, All, false,
}
use rag_agent.Dict
use rag_agent.Routing.Health.{CallPermit, opened, entry_of, allow_call}
use rag_agent.Routing.Health.Laws.{allow_call-permit}
use rag_agent.Routing.Health.Calls.{Call, run}
use rag_agent.Routing.Health.Probe.{resolves, probe_exclusive}
use rag_agent.Routing.Model.{ModelTarget}
use rag_agent.Routing.FirstPacket.{ProbeResult, success, error, timeout, no_content}
use rag_agent.Routing.Fallback.{Outcome, returned, raised, cancelled, World, target_id, acquire}
use rag_agent.Routing.Fallback.Leak.{probe_permit}
use rag_agent.Routing.Fallback.Streams.{
  interrupted, stream_interrupted, cancel_quietly, probed, started, permitted, try_stream_candidate,
  after_attempt, stream_chat,
}

-- The waits for a first packet after which the stream is closed.
abbrev pub IsClosed : {E : Type 0} → Outcome ProbeResult E → Type 0
IsClosed cancelled = Unit
IsClosed (raised e) = ⊥
IsClosed (returned success) = ⊥
IsClosed (returned error) = Unit
IsClosed (returned timeout) = Unit
IsClosed (returned no_content) = Unit

module _ {C H E : Type 0} (start : C → ModelTarget → World → Outcome (Option H) E × World)
    (first_packet : H → ModelTarget → World → Outcome ProbeResult E × World)
    (cancel : H → World → Outcome (Unit {0}) E × World) where
  probed-interrupted :
      (p : CallPermit) (t : ModelTarget) (h : H) (o : Outcome ProbeResult E) (v v' : World)
      → IsClosed o
      → cancel h v ≡ (cancelled, v')
      → probed start first_packet cancel p t h o v ≡ (interrupted, v')
  unfolding probed cancel_quietly
  probed-interrupted p t h cancelled v v' c e = rw e refl
  probed-interrupted p t h (raised x) v v' c e = absurd c
  probed-interrupted p t h (returned success) v v' c e = absurd c
  probed-interrupted p t h (returned error) v v' c e = rw e refl
  probed-interrupted p t h (returned timeout) v v' c e = rw e refl
  probed-interrupted p t h (returned no_content) v v' c e = rw e refl

  stream-interrupted :
      (clients : List (String × C)) (t : ModelTarget) (ts : List ModelTarget) (w v v' v'' : World)
      (c : C) (h : H) (p : CallPermit) (o : Outcome ProbeResult E)
      → Dict.get t.candidate.provider clients ≡ some c
      → (allow_call w.now (target_id t) w.health).0 ≡ some p
      → start c t (acquire t w).1 ≡ (returned (some h), v)
      → first_packet h t v ≡ (o, v')
      → IsClosed o
      → cancel h v' ≡ (cancelled, v'')
      → stream_chat start first_packet cancel clients (t ∷ ts) w ≡ (stream_interrupted, v'')
  unfolding stream_chat try_stream_candidate permitted started after_attempt
  stream-interrupted clients t ts w v v' v'' c h p o found granted begun packet closed ended =
      rw (found, try_stream_candidate)
        (rw (granted, permitted)
          (rw (begun, started)
            (rw packet (rw (probed-interrupted p t h o v' v'' closed ended) refl))))

-- The first target's circuit is open and due, its stream starts and has to be closed, because its first
-- packet does not come or because the call is cancelled, and a cancellation comes while it is closed;
-- no other task uses the health store. Then the call is interrupted, and whatever is called on the
-- health store afterwards, short of reporting an outcome of that model or returning the lost permit,
-- the model is refused for ever.
pub cancelled_close_leaks :
    {C H E : Type 0} (start : C → ModelTarget → World → Outcome (Option H) E × World)
    (first_packet : H → ModelTarget → World → Outcome ProbeResult E × World)
    (cancel : H → World → Outcome (Unit {0}) E × World) (clients : List (String × C))
    (t : ModelTarget) (ts : List ModelTarget) (w v v' v'' : World) (c : C) (h : H)
    (o : Outcome ProbeResult E) (cs : List Call) (later : ℕ)
    → Dict.get t.candidate.provider clients ≡ some c
    → (entry_of w.health (target_id t)).state ≡ opened
    → (entry_of w.health (target_id t)).open_until ≤ w.now
    → start c t (acquire t w).1 ≡ (returned (some h), v)
    → first_packet h t v ≡ (o, v')
    → IsClosed o
    → cancel h v' ≡ (cancelled, v'')
    → v''.health ≡ (acquire t w).1.health
    → All (λ k. resolves (probe_permit t w) k ≡ false) cs
    → ((stream_chat start first_packet cancel clients (t ∷ ts) w).0 ≡ stream_interrupted)
      × ((allow_call later
            (target_id t)
            (run cs (stream_chat start first_packet cancel clients (t ∷ ts) w).1.health)).0
          ≡ none)
cancelled_close_leaks start first_packet cancel clients t ts w v v' v'' c h o cs later found is_open
      due begun packet closed ended same un =
    let m = target_id t in
    let granted : (allow_call w.now m w.health).0 ≡ some (probe_permit t w) =
      ground (arith, allow_call-permit w.now m w.health) in
    let e =
      stream-interrupted start first_packet cancel clients t ts w v v' v'' c h (probe_permit t w) o
        found granted begun packet closed ended in
    (
      ap (λ r. r.0) e,
      rw e (
          subst (λ s. (allow_call later m (run cs s)).0 ≡ none) (sym same)
            (probe_exclusive w.now m w.health cs later granted (ground arith) un)),
    )
