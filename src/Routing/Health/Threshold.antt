-- ===== src/Routing/Health/Threshold.antt =====
-- When a circuit opens, and how it comes back.
use rag_agent.Prelude.{
  ℕ, ◌+◌, ◌≤◌, ◌<◌, String, eq_refl, ◌≡◌, none, some, List, [], ◌∷◌, arith, length,
}
use rag_agent.Routing.Health.{
  closed, opened, HealthStore, entry_of, allow_call, mark_failure, mark_success, fresh_entry,
}
use rag_agent.Routing.Health.Laws.{allow_call-permit}
use rag_agent.Routing.Health.Calls.{
  success, failure, allow, apply, entry_after, entry_of-apply, apply-config,
}

-- `mark_failure` at each reading of the clock, in order.
unfoldable pub mark_failures : List ℕ → String → HealthStore → HealthStore
mark_failures [] m s = s
mark_failures (now ∷ nows) m s = mark_failures nows m (mark_failure now m s)

entry_of-failure :
    (now : ℕ) (m : String) (s : HealthStore)
    → entry_of (mark_failure now m s) m ≡ entry_after s (failure now m) (entry_of s m)
unfolding apply
entry_of-failure now m s = simp (entry_of-apply (failure now m) s m, eq_refl)

entry_of-success : (m : String) (s : HealthStore) → entry_of (mark_success m s) m ≡ fresh_entry
unfolding apply
entry_of-success m s = simp (entry_of-apply (success m) s m, eq_refl)

config-failure :
    (now : ℕ) (m : String) (s : HealthStore)
    → ((mark_failure now m s).failure_threshold ≡ s.failure_threshold)
      × ((mark_failure now m s).open_duration ≡ s.open_duration)
unfolding apply
config-failure now m s = apply-config (failure now m) s

-- Fewer failures in a row than the threshold leave the circuit closed, and are counted.
stays_closed :
    (nows : List ℕ) (m : String) (s : HealthStore)
    → (entry_of s m).state ≡ closed
    → (entry_of s m).consecutive_failures + length nows < s.failure_threshold
    → ((entry_of (mark_failures nows m s) m).state ≡ closed)
      × ((entry_of (mark_failures nows m s) m).consecutive_failures
          ≡ (entry_of s m).consecutive_failures + length nows)
      × ((mark_failures nows m s).failure_threshold ≡ s.failure_threshold)
      × ((mark_failures nows m s).open_duration ≡ s.open_duration)
unfolding mark_failures
stays_closed [] m s c h = ground arith
stays_closed (now ∷ nows) m s c h = ground (
  arith,
  entry_of-failure now m s,
  config-failure now m s,
  stays_closed nows m (mark_failure now m s),
)

-- From a closed circuit with no failure counted (as after a success), exactly as many failures in
-- a row as the threshold open it: before the last one it is closed and lets calls through with
-- plain permits, after it the circuit is open until the open duration after the last failure.
opens_at_threshold :
    (nows : List ℕ) (now later : ℕ) (m : String) (s : HealthStore)
    → entry_of s m ≡ fresh_entry
    → length nows + 1 ≡ s.failure_threshold
    → ((allow_call later m (mark_failures nows m s)).0 ≡ some (record { model_id = m; token = 0 }))
      × ((entry_of (mark_failure now m (mark_failures nows m s)) m).state ≡ opened)
      × ((entry_of (mark_failure now m (mark_failures nows m s)) m).open_until
          ≡ now + s.open_duration)
opens_at_threshold nows now later m s e h =
    let s' = mark_failures nows m s in
    ground (arith, stays_closed nows m s, entry_of-failure now m s', allow_call-permit later m s')

-- An open circuit refuses every call before its deadline, and grants a probe from the deadline on;
-- the probe's success closes the circuit with no failure counted, its failure opens it again until
-- the open duration after that failure.
recovery :
    (early now later : ℕ) (m : String) (s : HealthStore)
    → (entry_of s m).state ≡ opened
    → early < (entry_of s m).open_until
    → (entry_of s m).open_until ≤ now
    → ((allow_call early m s).0 ≡ none)
      × ((allow_call now m s).0 ≡ some (record { model_id = m; token = s.token_seq + 1 }))
      × (entry_of (mark_success m (allow_call now m s).1) m ≡ fresh_entry)
      × ((entry_of (mark_failure later m (allow_call now m s).1) m).state ≡ opened)
      × ((entry_of (mark_failure later m (allow_call now m s).1) m).open_until
          ≡ later + s.open_duration)
unfolding apply
recovery early now later m s e before due = ground (
  arith,
  allow_call-permit early m s,
  allow_call-permit now m s,
  entry_of-success m (allow_call now m s).1,
  entry_of-failure later m (allow_call now m s).1,
  apply-config (allow now m) s,
  entry_of-apply (allow now m) s m,
  eq_refl m,
)
