-- ===== src/Routing/Fallback/Permits.antt =====
-- The executor gives every half-open probe back by reporting an outcome, unless it is cancelled.
use rag_agent.Prelude.{
  ℕ, String, eq_iff, ◌≡◌, ◌≢◌, refl, sym, subst, ◌∙◌, Option, none, some, List, [], ◌∷◌, arith,
}
use rag_agent.Dict
use rag_agent.Routing.Health.{
  HealthStore, CallPermit, entry_of, allow_call, mark_success, mark_failure,
}
use rag_agent.Routing.Health.Laws.{allow_call-permit}
use rag_agent.Routing.Health.Calls.{apply, allow, success, failure, entry_of-apply}
use rag_agent.Routing.Model.{ModelTarget}
use rag_agent.Routing.Fallback.{
  Outcome, returned, raised, cancelled, Executed, interrupted, World, target_id, acquire,
  report_failure, settle, call_permitted, try_target, execute_from, execute_with_fallback,
}

abbrev pub token_of : HealthStore → String → ℕ
token_of s m = (entry_of s m).half_open_token

-- Every probe that is out in `s'` was out in `s`.
abbrev pub NoNewProbe : HealthStore → HealthStore → Type 0
NoNewProbe s s' = (j : String) → token_of s' j ≢ 0 → token_of s' j ≡ token_of s j

pub NoNewProbe-trans : (a b c : HealthStore) → NoNewProbe a b → NoNewProbe b c → NoNewProbe a c
NoNewProbe-trans a b c h k = λ j p. ground (arith, h j, k j p)

-- A refusal grants nothing.
pub refused-NoNewProbe :
    (now : ℕ) (m : String) (s : HealthStore)
    → (allow_call now m s).0 ≡ none
    → NoNewProbe s (allow_call now m s).1
unfolding apply
refused-NoNewProbe now m s e j p =
    ground (arith, entry_of-apply (allow now m) s j, allow_call-permit now m s, eq_iff m j)

pub succeeded-NoNewProbe :
    (now : ℕ) (m : String) (s : HealthStore) → NoNewProbe s (mark_success m (allow_call now m s).1)
unfolding apply
succeeded-NoNewProbe now m s j p =
    ground
      (arith, entry_of-apply (allow now m) s j, entry_of-apply (success m) (allow_call now m s).1 j)

pub failed-NoNewProbe :
    (now later : ℕ) (m : String) (s : HealthStore)
    → NoNewProbe s (mark_failure later m (allow_call now m s).1)
unfolding apply
failed-NoNewProbe now later m s j p = ground (
  arith,
  entry_of-apply (allow now m) s j,
  entry_of-apply (failure later m) (allow_call now m s).1 j,
)

-- The result is no interruption, and its store has no new probe.
abbrev Clean : {T E : Type 0} → HealthStore → Executed T E × World → Type 0
Clean s r = r.0 ≢ interrupted → NoNewProbe s r.1.health

module _ {T E : Type 0} (t : ModelTarget) (k : Option E → World → Executed T E × World)
    (next : (e : Option E) (v : World) → Clean v.health (k e v)) (now : ℕ) (s : HealthStore) where
  settle-Clean :
      (o : Outcome T E) (w : World)
      → w.health ≡ (allow_call now (target_id t) s).1
      → Clean s (settle t k o w)
  unfolding settle
  settle-Clean (returned v) w e = λ h.
      subst (λ a. NoNewProbe s (mark_success (target_id t) a)) (sym e)
        (succeeded-NoNewProbe now (target_id t) s)
  settle-Clean (raised x) w e = λ h.
      NoNewProbe-trans s (report_failure t w).health _
        (subst (λ a. NoNewProbe s (mark_failure w.now (target_id t) a)) (sym e)
          (failed-NoNewProbe now w.now (target_id t) s))
        (next (some x) (report_failure t w) h)
  settle-Clean cancelled w e = λ h. absurd (h refl)

module _ {C T E : Type 0} (caller : C → ModelTarget → World → Outcome T E × World)
    (quiet : (c : C) (t : ModelTarget) (w : World) → (caller c t w).1.health ≡ w.health)
    (t : ModelTarget) (k : Option E → World → Executed T E × World)
    (next : (e : Option E) (v : World) → Clean v.health (k e v)) (last : Option E) where
  call_permitted-Clean :
      (c : C) (permit : Option CallPermit) (now : ℕ) (s : HealthStore) (w : World)
      → w.health ≡ (allow_call now (target_id t) s).1
      → (allow_call now (target_id t) s).0 ≡ permit
      → Clean s (call_permitted caller c t k last permit w)
  unfolding call_permitted
  call_permitted-Clean c none now s w e refused = λ h.
      NoNewProbe-trans s w.health _
        (subst (NoNewProbe s) (sym e) (refused-NoNewProbe now (target_id t) s refused))
        (next last w h)
  call_permitted-Clean c (some p) now s w e granted =
      settle-Clean t k next now s (caller c t w).0 (caller c t w).1 (quiet c t w ∙ e)

  try_target-Clean :
      (found : Option C) (w : World) → Clean w.health (try_target caller found t k last w)
  unfolding try_target
  try_target-Clean none w = next last w
  try_target-Clean (some c) w =
      call_permitted-Clean c (acquire t w).0 w.now w.health (acquire t w).1 refl refl

module _ {C T E : Type 0} (clients : List (String × C))
    (caller : C → ModelTarget → World → Outcome T E × World) (label : String)
    (quiet : (c : C) (t : ModelTarget) (w : World) → (caller c t w).1.health ≡ w.health) where
  execute_from-Clean :
      (ts : List ModelTarget) (last : Option E) (w : World)
      → Clean w.health (execute_from clients caller label ts last w)
  unfolding execute_from
  execute_from-Clean [] last w = λ h j p. refl
  execute_from-Clean (t ∷ ts) last w =
      try_target-Clean caller quiet t (execute_from clients caller label ts) (execute_from-Clean ts)
        last (Dict.get t.candidate.provider clients) w

-- While no other task uses the health store, `execute_with_fallback` leaves no half-open probe
-- out that was not out before, unless it is cancelled: whether it returned a value or raised, a
-- model that holds a probe afterwards held the same one before.
pub execute-NoNewProbe :
    {C T E : Type 0} (clients : List (String × C))
    (caller : C → ModelTarget → World → Outcome T E × World) (label : String)
    (ts : List ModelTarget) (w : World) (m : String)
    → ((c : C) (t : ModelTarget) (v : World) → (caller c t v).1.health ≡ v.health)
    → (execute_with_fallback clients caller label ts w).0 ≢ interrupted
    → token_of (execute_with_fallback clients caller label ts w).1.health m ≢ 0
    → token_of (execute_with_fallback clients caller label ts w).1.health m ≡ token_of w.health m
unfolding execute_with_fallback
execute-NoNewProbe clients caller label [] w m quiet h p = refl
execute-NoNewProbe clients caller label (t ∷ ts) w m quiet h p =
    execute_from-Clean clients caller label quiet (t ∷ ts) none w h m p
