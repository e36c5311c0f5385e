-- ===== src/Routing/Fallback/Leak.antt =====
-- A cancelled call of the executor keeps its half-open probe.
use rag_agent.Prelude.{
  ℕ, ◌+◌, ◌≤◌, String, ◌≡◌, ap, sym, subst, none, some, List, ◌∷◌, arith, All, false,
}
use rag_agent.Dict
use rag_agent.Routing.Health.{CallPermit, opened, entry_of, allow_call}
use rag_agent.Routing.Health.Laws.{allow_call-permit}
use rag_agent.Routing.Health.Calls.{Call, run}
use rag_agent.Routing.Health.Probe.{resolves, probe_exclusive}
use rag_agent.Routing.Model.{ModelTarget}
use rag_agent.Routing.Fallback.{
  Outcome, cancelled, interrupted, World, target_id, acquire, settle, call_permitted, try_target,
  execute_from, execute_with_fallback,
}

-- the permit that a due open circuit hands out
abbrev pub probe_permit : ModelTarget → World → CallPermit
probe_permit t w = record { model_id = target_id t; token = w.health.token_seq + 1 }

module _ {C T E : Type 0} (clients : List (String × C))
    (caller : C → ModelTarget → World → Outcome T E × World) (label : String) where
  interrupted-first :
      (t : ModelTarget) (ts : List ModelTarget) (w w' : World) (c : C) (p : CallPermit)
      → Dict.get t.candidate.provider clients ≡ some c
      → (allow_call w.now (target_id t) w.health).0 ≡ some p
      → caller c t (acquire t w).1 ≡ (cancelled, w')
      → execute_with_fallback clients caller label (t ∷ ts) w ≡ (interrupted, w')
  unfolding execute_with_fallback execute_from try_target call_permitted settle
  interrupted-first t ts w w' c p found granted ended =
      rw (found, try_target) (rw (granted, call_permitted) (rw (ended, settle)))

-- The first target's circuit is open and due, and its call is cancelled while no other task uses
-- the health store. Then the executor is interrupted, and whatever is called on the health store
-- afterwards, short of reporting an outcome of that model or returning the lost permit, the model
-- is refused for ever.
pub cancelled_call_leaks :
    {C T E : Type 0} (clients : List (String × C))
    (caller : C → ModelTarget → World → Outcome T E × World) (label : String) (t : ModelTarget)
    (ts : List ModelTarget) (w w' : World) {c : C} (cs : List Call) (later : ℕ)
    → Dict.get t.candidate.provider clients ≡ some c
    → (entry_of w.health (target_id t)).state ≡ opened
    → (entry_of w.health (target_id t)).open_until ≤ w.now
    → caller c t (acquire t w).1 ≡ (cancelled, w')
    → w'.health ≡ (acquire t w).1.health
    → All (λ k. resolves (probe_permit t w) k ≡ false) cs
    → ((execute_with_fallback clients caller label (t ∷ ts) w).0 ≡ interrupted)
      × ((allow_call later
            (target_id t)
            (run cs (execute_with_fallback clients caller label (t ∷ ts) w).1.health)).0
          ≡ none)
cancelled_call_leaks clients caller label t ts w w' {c} cs later found is_open due ended same un =
    let m = target_id t in
    let granted : (allow_call w.now m w.health).0 ≡ some (probe_permit t w) =
      ground (arith, allow_call-permit w.now m w.health) in
    let e =
      interrupted-first clients caller label t ts w w' c (probe_permit t w) found granted ended in
    (
      ap (λ r. r.0) e,
      rw e (
          subst (λ h. (allow_call later m (run cs h)).0 ≡ none) (sym same)
            (probe_exclusive w.now m w.health cs later granted (ground arith) un)),
    )
