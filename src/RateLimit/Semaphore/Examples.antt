-- ===== src/RateLimit/Semaphore/Examples.antt =====
-- The semaphore's theorems at concrete states.
use rag_agent.Prelude.{◌+◌, ◌≡◌, refl, none, some, List, [], ◌∷◌, length, arith}
use rag_agent.Dict.{get, put, remove}
use rag_agent.RateLimit.Semaphore.{
  Semaphore, answer, counter_of, live, reclaim, try_set_permits, try_acquire, available_permits,
  try_release,
}
use rag_agent.RateLimit.Semaphore.Capacity.{
  Call, acquire, count, release, NewIds, apply, run, empty, IsValid, run_conserved,
}

program : Unit {0}
unfolding get put remove counter_of live reclaim try_set_permits try_acquire available_permits
    try_release apply run NewIds
program = tt

-- the lease of "p" ends before the second acquire
abbrev calls : List Call
calls = acquire 0 100 "p" ∷ acquire 200 100 "q" ∷ release "p" ∷ count 250 ∷ []

run_conserved_example :
    counter_of (run calls (try_set_permits 1 empty).1)
      + length (run calls (try_set_permits 1 empty).1).permits
    ≡ 1
unfolding program
run_conserved_example = run_conserved 1 calls (omega arith) (refl, (refl, (tt, (tt, tt))))

abbrev full : Semaphore
full = record { counter = some 0; permits = ("p", 100) ∷ [] }

full-IsValid : IsValid 1 full
unfolding get counter_of
full-IsValid = record { created = λ e. cc; conserved = refl; distinct = (refl, tt) }

busy : (try_acquire 99 10 "q" full).0 ≡ answer none
unfolding program
busy = refl
