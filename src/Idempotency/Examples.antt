-- ===== src/Idempotency/Examples.antt =====
-- The theorems on locks and marks at concrete keys.

use rag_agent.Prelude.{ℕ, ◌+◌, eq_iff, ◌≡◌, refl, true, false, none, some, List, [], ◌∷◌, arith}
use rag_agent.Dict.{get, put, remove}
use rag_agent.Idempotency.Keys.{Keys, read, set, delete}
use rag_agent.Idempotency.Locks.{
  SubmitLock, try_lock, unlock, ConsumeMarks, first_run, consuming, try_begin, mark_consumed,
  rollback,
}
use rag_agent.Idempotency.Exclusion.{LockCall, call_lock, call_unlock, run_locks, try_lock_excludes}
use rag_agent.Idempotency.Marks.{MarkCall, call_begin, call_rollback, run_marks, try_begin_excludes}
use rag_agent.Idempotency.Overtaken.{two, mark_consumed_overtaken}
use rag_agent.Idempotency.Worker.{
  Outcome, returned, raised, Process, finished, skipped, work_raised, handle,
}
use rag_agent.Idempotency.Worker.Once.{handle_once, handle_retry}

program : Unit {0}
unfolding get put remove read set delete try_lock unlock try_begin mark_consumed rollback run_locks
    run_marks
program = tt

abbrev lock : SubmitLock
lock = record { prefix = "submit:"; ttl_ms = 100 }

abbrev calls : List LockCall
calls = call_lock 20 "b" "x" ∷ call_unlock 30 "b" "x" ∷ call_lock 40 "b" "y" ∷ []

try_lock_excludes_example :
    try_lock lock 99 "c" "x" (run_locks lock calls (try_lock lock 0 "a" "x" []).1)
    ≡ (none, run_locks lock calls (try_lock lock 0 "a" "x" []).1)
try_lock_excludes_example =
    try_lock_excludes lock 0 99 "a" "c" "x" [] calls (unfold program in refl)
      (omega arith, ((omega arith, λ e. ground (arith, eq_iff "b" "a")), (omega arith, tt)))
      (omega arith)

locked_again : (try_lock lock 100 "c" "x" (try_lock lock 0 "a" "x" []).1).0 ≡ some "c"
unfolding program
locked_again = refl

abbrev marks : ConsumeMarks
marks = record { prefix = "consume:"; consuming_ms = 100; consumed_ms = 1000; tokens = [] }

abbrev others : List MarkCall
others = call_begin 10 "b" "e" marks ∷ call_rollback 20 "e" marks ∷ call_begin 30 "c" "f" marks ∷ []

try_begin_excludes_example :
    ((try_begin 99 "d" "e" marks (run_marks others (try_begin 0 "a" "e" marks []).2)).0
      ≡ some consuming)
    × ((mark_consumed 99 "e"
          (try_begin 0 "a" "e" marks []).1
          (run_marks others (try_begin 0 "a" "e" marks []).2)).0
        ≡ true)
try_begin_excludes_example =
    try_begin_excludes 0 99 "a" "d" "e" marks [] others (unfold program in refl)
      (omega arith, ((omega arith, unfold program in λ e. cc), (omega arith, tt))) (omega arith)

mark_consumed_overtaken_example :
    ((try_begin 150 "b" "e" (try_begin 0 "a" "e" marks []).1 (try_begin 0 "a" "e" marks []).2).0
      ≡ some first_run)
    × ((mark_consumed 160 "e"
          (two "a" "b" "e" marks [] 0 150).0
          (two "a" "b" "e" marks [] 0 150).1).0
        ≡ true)
    × ((mark_consumed 170 "e"
          (mark_consumed 160 "e"
            (two "a" "b" "e" marks [] 0 150).0
            (two "a" "b" "e" marks [] 0 150).1).1
          (mark_consumed 160 "e"
            (two "a" "b" "e" marks [] 0 150).0
            (two "a" "b" "e" marks [] 0 150).1).2).0
        ≡ false)
mark_consumed_overtaken_example =
    mark_consumed_overtaken "a" "b" "e" marks [] 0 150 160 170 (unfold program in refl)
      (omega arith) (omega arith)

abbrev process : Process ℕ
process = record { marks = marks; keys = []; domain = 0 }

-- work that counts, and work that raises
abbrev count_up : Keys → ℕ → Outcome × Keys × ℕ
count_up s n = (returned, s, n + 1)

abbrev give_up : Keys → ℕ → Outcome × Keys × ℕ
give_up s n = (raised, s, n)

abbrev after_work : Keys
after_work = set 100 "consume:e" "0:a" []

handle_once_example :
    ((handle count_up true true 0 50 "a" "e" process).0 ≡ finished)
    × (handle count_up true true 900 950 "b" "e" (handle count_up true true 0 50 "a" "e" process).1
        ≡ (skipped, (handle count_up true true 0 50 "a" "e" process).1))
handle_once_example =
    handle_once count_up 0 50 "a" "e" process after_work 1 900 950 "b" true (unfold program in refl)
      (unfold program in refl) (unfold program in refl) (omega arith) (omega arith)

handle_retry_example :
    ((handle give_up true true 0 50 "a" "e" process).0 ≡ work_raised)
    × ((try_begin 60 "b" "e"
          (handle give_up true true 0 50 "a" "e" process).1.marks
          (handle give_up true true 0 50 "a" "e" process).1.keys).0
        ≡ some first_run)
handle_retry_example =
    handle_retry give_up 0 50 "a" "e" process after_work 0 60 "b" (unfold program in refl)
      (unfold program in refl) (unfold program in refl) (omega arith)
