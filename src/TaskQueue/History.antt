-- ===== src/TaskQueue/History.antt =====
-- Any calls of any processes keep the queue's rows valid.

use rag_agent.Prelude.{ℕ, String, Bool, not, ◌&&◌, Option, List, [], ◌∷◌}
use rag_agent.TaskQueue.Rows.{AsyncTask, is_claimable}
use rag_agent.TaskQueue.Methods.{
  Database, ClaimTransition, FailureTransition, first_task, enqueue, enqueue_latest, claim, succeed,
  fail, renew, defer,
}
use rag_agent.TaskQueue.Recovery.{recover_rows, recover_stuck}
use rag_agent.TaskQueue.Steps.{
  committed, enqueue-IsValid, enqueue_latest-IsValid, claim_found-IsValid, succeed-IsValid,
  fail-IsValid, renew-IsValid, defer-IsValid, recovered-IsValid, recover_rows-changed,
}
use rag_agent.TaskQueue.Invariant.{IsValid}

-- the calls, at the time at which they run
pub data Call (P D : Type 0) : Type 0 where
  call_enqueue : ℕ → ℕ → String → String → String → P → ℕ → Call P D
  call_enqueue_latest : ℕ → ℕ → String → String → String → P → ℕ → Call P D
  call_claim : ℕ → ℕ → (AsyncTask P → Bool) → String → Option (ClaimTransition P D) → Call P D
  call_succeed : ℕ → String → Option String → Call P D
  call_fail : ℕ → ℕ → String → String → Option String → Option (FailureTransition P D) → Call P D
  call_renew : ℕ → ℕ → ℕ → String → Call P D
  call_defer : ℕ → ℕ → String → String → ℕ → Option (FailureTransition P D) → Call P D
  call_recover : ℕ → (AsyncTask P → Bool) → Option (FailureTransition P D) → Call P D

module _ {P D : Type 0} where
  unfoldable pub apply : Call P D → Database P D → Database P D
  apply (call_enqueue now id e t k p m) db = committed (enqueue now id e t k p m db) db
  apply (call_enqueue_latest now id e t k p m) db = (enqueue_latest now id e t k p m db).1
  apply (call_claim now lease locked o f) db = committed (claim now lease locked o f db) db
  apply (call_succeed id o e) db = (succeed id o e db).1
  apply (call_fail now id o x e f) db = committed (fail now id o x e f db) db
  apply (call_renew now lease id o) db = (renew now lease id o db).1
  apply (call_defer now id o x d f) db = committed (defer now id o x d f db) db
  apply (call_recover now locked f) db = committed (recover_stuck now locked f db) db

  unfoldable pub run : List (Call P D) → Database P D → Database P D
  run [] db = db
  run (c ∷ cs) db = run cs (apply c db)

  apply-IsValid : (c : Call P D) (db : Database P D) → IsValid db.tasks → IsValid (apply c db).tasks
  unfolding apply claim recover_stuck
  apply-IsValid (call_enqueue now id e t k p m) db v = enqueue-IsValid now id e t k p m db v
  apply-IsValid (call_enqueue_latest now id e t k p m) db v =
      enqueue_latest-IsValid now id e t k p m db v
  apply-IsValid (call_claim now lease locked o f) db v =
      claim_found-IsValid now lease o f db
        (first_task (λ t. is_claimable now t && not (locked t)) db.tasks) v
  apply-IsValid (call_succeed id o e) db v = succeed-IsValid id o db v e
  apply-IsValid (call_fail now id o x e f) db v = fail-IsValid id o db v now x e f
  apply-IsValid (call_renew now lease id o) db v = renew-IsValid id o db v now lease
  apply-IsValid (call_defer now id o x d f) db v = defer-IsValid id o db v now x d f
  apply-IsValid (call_recover now locked f) db v =
      recovered-IsValid now db (recover_rows now locked f db.tasks db.domain) v
        (recover_rows-changed now locked f db.tasks db.domain)

  run_from-IsValid :
      (cs : List (Call P D)) (db : Database P D) → IsValid db.tasks → IsValid (run cs db).tasks
  unfolding run
  run_from-IsValid [] db v = v
  run_from-IsValid (c ∷ cs) db v = run_from-IsValid cs (apply c db) (apply-IsValid c db v)

  -- After any calls of any processes in any order, on an empty queue, whatever their callbacks do:
  -- a row has an owner and a lease exactly while it is running, it is failed exactly if it has used
  -- up more than its retries, and no two active rows have the same type and key.
  pub run-IsValid :
      (cs : List (Call P D)) (d : D) → IsValid (run cs (record { tasks = []; domain = d })).tasks
  run-IsValid cs d =
      run_from-IsValid cs (record { tasks = []; domain = d }) (record { rows = tt; unique = tt })
