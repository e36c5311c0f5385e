-- ===== src/Idempotency/Worker.antt =====
-- `WorkerTaskHandler.handle` of app/worker.py: a task's work between the two calls on its consume
-- mark. The work is a parameter; while it is awaited other processes may change the keys.
pub mod Once
use rag_agent.Prelude.{ℕ, String, Bool, true, false, Option, none, some}
use rag_agent.Idempotency.Keys.{Keys}
use rag_agent.Idempotency.Locks.{
  ConsumeMarks, ConsumeState, first_run, consuming, consumed, try_begin, mark_consumed, rollback,
}

-- how the work of a task ends
pub data Outcome : Type 0 where
  returned raised : Outcome

-- how `handle` ends: after its work, without it, with `ConsumeInProgressError`, or with the raise of
-- its work
pub data Handled : Type 0 where
  finished skipped in_progress work_raised : Handled

pub record Process (D : Type 0) : Type 0 where
  pub marks : ConsumeMarks
  pub keys : Keys
  pub domain : D

-- whether the executor of the marks is configured and Redis answers it; a call that raises leaves
-- the keys as they are
abbrev pub Reachable : Type 0
Reachable = Bool

module _ {D : Type 0} where
  abbrev pub set_marks : ConsumeMarks × Keys → Process D → Process D
  set_marks (m, s) p = record p { marks = m; keys = s }

  -- the state of the mark; `none` goes on without it
  unfoldable pub begin_task :
      Reachable → ℕ → String → String → Process D → Option ConsumeState × Process D
  begin_task false now token key p = (none, p)
  begin_task true now token key p =
      let (state, m, s) = try_begin now token key p.marks p.keys in (state, set_marks (m, s) p)

  unfoldable pub end_task :
      Reachable → Bool → ℕ → String → Outcome → Process D → Handled × Process D
  end_task up false later key returned p = (finished, p)
  end_task up false later key raised p = (work_raised, p)
  end_task false true later key returned p = (finished, p)
  end_task false true later key raised p = (work_raised, p)
  end_task true true later key returned p =
      let (_, m, s) = mark_consumed later key p.marks p.keys in (finished, set_marks (m, s) p)
  end_task true true later key raised p =
      let (_, m, s) = rollback later key p.marks p.keys in (work_raised, set_marks (m, s) p)

  -- the work, and what follows it; `owns_mark` says whether the run has the mark
  unfoldable pub run_task :
      (Keys → D → Outcome × Keys × D)
      → Reachable
      → Bool
      → ℕ
      → String
      → Process D
      → Handled × Process D
  run_task work up owns_mark later key p =
      let (outcome, s, d) = work p.keys p.domain in
      end_task up owns_mark later key outcome (record p { keys = s; domain = d })

  unfoldable pub go_on :
      (Keys → D → Outcome × Keys × D)
      → Reachable
      → ℕ
      → String
      → Option ConsumeState
      → Process D
      → Handled × Process D
  go_on work up later key none p = run_task work up false later key p
  go_on work up later key (some consumed) p = (skipped, p)
  go_on work up later key (some consuming) p = (in_progress, p)
  go_on work up later key (some first_run) p = run_task work up true later key p

  -- `up` and `up_later` are the executor at the two calls, `now` and `later` their times
  unfoldable pub handle :
      (Keys → D → Outcome × Keys × D)
      → Reachable
      → Reachable
      → ℕ
      → ℕ
      → String
      → String
      → Process D
      → Handled × Process D
  handle work up up_later now later token key p =
      let (state, p') = begin_task up now token key p in go_on work up_later later key state p'
