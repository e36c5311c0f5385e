-- ===== src/RateLimit/Process/Examples.antt =====
-- The theorems on a process's waiters at concrete steps.
use rag_agent.Prelude.{◌+◌, ◌≡◌, ◌≢◌, refl, some, List, [], ◌∷◌, count, length, ◌≤◌, str_eq, ◌++◌}
use rag_agent.Dict.{get, put, remove}
use rag_agent.RateLimit.Process.{
  Waiter, create_future, register, next_waiter, choose, deliver, end_acquire,
}
use rag_agent.RateLimit.Process.Steps.{
  passes, raises, idle, absent, Act, starts, registers, begins, grants, settles, wakes, gives_up,
  opens, fails, act, run, new_world, World,
}
use rag_agent.RateLimit.Process.Losses.{loses}
use rag_agent.RateLimit.Process.Ledger.{on_their_way, run-IsBalanced}
use rag_agent.RateLimit.Process.Stopped.{run-stopped}

abbrev first : Waiter
first = record { score = 1; deadline = 50; future = "f" }

abbrev second : Waiter
second = record { score = 2; deadline = 60; future = "g" }

abbrev act_list : List Act
act_list =
    opens
    ∷ starts "f"
    ∷ registers "a" first
    ∷ starts "g"
    ∷ registers "b" second
    ∷ begins 3
    ∷ grants (some "a:permit")
    ∷ gives_up passes "a" "f"
    ∷ settles 5
    ∷ begins 6
    ∷ grants (some "b:permit")
    ∷ settles 7
    ∷ []

abbrev acts : List Act
acts = act_list ++ wakes passes "b" "g" ∷ []

run-IsBalanced_example :
    (count (λ i. str_eq i "b:permit") (run acts new_world).granted
      ≡ count (λ i. str_eq i "b:permit") (run acts new_world).returned
        + count (λ i. str_eq i "b:permit") (run acts new_world).released
        + count (λ i. str_eq i "b:permit") (run acts new_world).dropped
        + on_their_way (λ i. str_eq i "b:permit") (run acts new_world))
    × (length (run acts new_world).dropped ≤ count loses acts)
run-IsBalanced_example = run-IsBalanced (λ i. str_eq i "b:permit") acts

-- the first caller had given up
acts_lem :
    ((run acts new_world).returned ≡ "b:permit" ∷ [])
    × ((run acts new_world).released ≡ "a:permit" ∷ [])
unfolding get put remove act run create_future register next_waiter choose deliver end_acquire
acts_lem = (refl, refl)

-- "b" has its permit, but its clean-up raises
raised_lem : (run (act_list ++ wakes raises "b" "g" ∷ []) new_world).dropped ≡ "b:permit" ∷ []
unfolding get put remove act run create_future register next_waiter choose deliver end_acquire
raised_lem = refl

is_idle : (w : World) → w.dispatcher ≡ idle → w.dispatcher ≢ absent
is_idle w h = λ e. cc

run-stopped_example :
    (run (opens ∷ starts "h" ∷ begins 10 ∷ []) (act fails (run acts new_world))).returned
    ≡ (run acts new_world).returned
unfolding get put remove act run create_future register next_waiter choose deliver end_acquire
run-stopped_example =
    run-stopped acts (opens ∷ starts "h" ∷ begins 10 ∷ []) (is_idle (run acts new_world) refl) refl
      (refl, (refl, (refl, tt)))
