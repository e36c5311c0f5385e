-- ===== src/Routing/Health/Examples.antt =====
-- The circuit breaker's theorems at concrete stores, and runs of its methods.
use rag_agent.Prelude.{ℕ, ◌≡◌, refl, some, none, List, [], ◌∷◌}
use rag_agent.Dict.{get, put}
use rag_agent.Routing.Health.{
  opened, HealthStore, CallPermit, entry_of, set_entry, init, allow_call, is_unavailable,
  mark_failure, mark_success, release_half_open_permit,
}
use rag_agent.Routing.Health.Calls.{Call, check, allow, success, failure, release, run, apply}
use rag_agent.Routing.Health.Invariant.{IsValid, init-run-IsValid}
use rag_agent.Routing.Health.Probe.{resolves, probe_exclusive}

program : Unit {0}
unfolding init entry_of set_entry allow_call is_unavailable mark_failure mark_success
    release_half_open_permit get put run apply
program = tt

abbrev new_store : HealthStore
new_store = record { failure_threshold = 2; open_duration = 30; entries = []; token_seq = 0 }

-- two failures have opened the circuit of "a" until 35
abbrev tripped : HealthStore
tripped = record new_store {
  entries =
      (
        "a",
        record { state = opened; consecutive_failures = 0; open_until = 35; half_open_token = 0 },
      )
      ∷ [];
}

abbrev probe : ℕ → CallPermit
probe n = record { model_id = "a"; token = n }

two_failures : run (failure 1 "a" ∷ failure 5 "a" ∷ []) new_store ≡ tripped
unfolding program
two_failures = refl

refused_then_probe :
    ((allow_call 34 "a" tripped).0 ≡ none) × ((allow_call 35 "a" tripped).0 ≡ some (probe 1))
unfolding program
refused_then_probe = (refl, refl)

init-run-IsValid_example : IsValid (run (failure 1 "a" ∷ allow 2 "b" ∷ []) new_store)
unfolding program
init-run-IsValid_example = init-run-IsValid 2 30 (failure 1 "a" ∷ allow 2 "b" ∷ []) refl

abbrev others : List Call
others = check 36 "a" ∷ success "b" ∷ release (probe 7) ∷ allow 90 "a" ∷ []

probe_exclusive_example : (allow_call 100 "a" (run others (allow_call 40 "a" tripped).1)).0 ≡ none
unfolding program resolves
probe_exclusive_example =
    probe_exclusive 40 "a" tripped {p = probe 1} others 100 refl refl
      (refl, (refl, (refl, (refl, tt))))

-- the first probe fails, and a second one is granted before the first permit comes back
abbrev between : List Call
between = failure 41 "a" ∷ []
