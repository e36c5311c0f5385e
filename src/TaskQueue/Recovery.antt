-- ===== src/TaskQueue/Recovery.antt =====
-- `recover_stuck` of app/framework/task_queue.py, in one transaction.
use rag_agent.Prelude.{ℕ, String, Bool, true, false, not, ◌&&◌, Option, none, some, List, [], ◌∷◌}
use rag_agent.TaskQueue.Rows.{
  AsyncTask, ClaimedTask, claimed_task, is_stuck, is_terminal, recover_row,
}
use rag_agent.TaskQueue.Methods.{Database, FailureTransition}

-- what the loop has: the answer, the rows, and the rest of the database
abbrev pub Recovered : Type 0 → Type 0 → Type 0
Recovered P D = List (ClaimedTask P × Bool) × List (AsyncTask P) × D

module _ {P D : Type 0} where
  abbrev pub notify : Option (FailureTransition P D) → ClaimedTask P → String → Bool → D → Option D
  notify none c error terminal d = some d
  notify (some f) c error terminal d = f c error terminal d

  abbrev pub add_recovered : ℕ → AsyncTask P → Option (Recovered P D) → Option (Recovered P D)
  add_recovered now t none = none
  add_recovered now t (some (answer, ts, d)) =
      some ((claimed_task t, is_terminal t) ∷ answer, recover_row now t ∷ ts, d)

  abbrev pub add_kept : AsyncTask P → Option (Recovered P D) → Option (Recovered P D)
  add_kept t none = none
  add_kept t (some (answer, ts, d)) = some (answer, t ∷ ts, d)

  unfoldable pub recover_rows :
      ℕ
      → (AsyncTask P → Bool)
      → Option (FailureTransition P D)
      → List (AsyncTask P)
      → D
      → Option (Recovered P D)
  recover_rows now locked on_transition [] d = some ([], [], d)
  recover_rows now locked on_transition (t ∷ ts) d = elim (is_stuck now t && not (locked t)) [
    | true ↦ elim (notify on_transition (claimed_task t) "任务租约超时" (is_terminal t) d) [
      | none ↦ none
      | some d' ↦ add_recovered now t (recover_rows now locked on_transition ts d')
    ]
    | false ↦ add_kept t (recover_rows now locked on_transition ts d)
  ]

  abbrev pub commit_recovered :
      Option (Recovered P D) → Option (List (ClaimedTask P × Bool) × Database P D)
  commit_recovered none = none
  commit_recovered (some (answer, ts, d)) = some (answer, record { tasks = ts; domain = d })

  unfoldable pub recover_stuck :
      ℕ
      → (AsyncTask P → Bool)
      → Option (FailureTransition P D)
      → Database P D
      → Option (List (ClaimedTask P × Bool) × Database P D)
  recover_stuck now locked on_transition db =
      commit_recovered (recover_rows now locked on_transition db.tasks db.domain)
