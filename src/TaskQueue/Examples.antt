-- ===== src/TaskQueue/Examples.antt =====
-- The theorems on the task queue at concrete rows.

use rag_agent.Prelude.{
  ℕ, String, eq_iff, ◌≡◌, refl, Bool, false, not, ◌&&◌, none, some, List, [], ◌∷◌, arith,
}
use rag_agent.TaskQueue.Rows.{AsyncTask, ClaimedTask, claimed_task, running, is_claimable, new_row}
use rag_agent.TaskQueue.Methods.{
  Database, find_task, update_task, first_task, enqueue, enqueue_latest, commit_claim, claim_found,
  claim, succeed, commit_transition, fail, renew, defer,
}
use rag_agent.TaskQueue.Recovery.{recover_rows, recover_stuck}
use rag_agent.TaskQueue.Invariant.{IsValid, has_task}
use rag_agent.TaskQueue.History.{
  Call, call_enqueue, call_claim, call_succeed, call_recover, apply, run, run-IsValid,
}
use rag_agent.TaskQueue.First.{IsFirst}
use rag_agent.TaskQueue.Ownership.{claim-IsFirst, claim_excludes}

program : Unit {0}
unfolding find_task update_task first_task enqueue enqueue_latest commit_claim claim_found claim
    succeed commit_transition fail renew defer recover_rows recover_stuck has_task apply run
program = tt

abbrev Db : Type 0
Db = Database String (Unit {0})

abbrev no_lock : AsyncTask String → Bool
no_lock t = false

abbrev empty : Db
empty = record { tasks = []; domain = tt }

-- the lease of "w" ends, and its late success is refused
abbrev calls : List (Call String (Unit {0}))
calls =
    call_enqueue 10 1 "e" "index" "doc" "p" 1
    ∷ call_claim 20 30000 no_lock "w" none
    ∷ call_enqueue 25 2 "x" "index" "doc" "q" 1
    ∷ call_recover 40000 no_lock none
    ∷ call_succeed 1 "w" (some "e")
    ∷ []

recovered :
    (run calls empty).tasks
    ≡ record (new_row 10 1 "e" "index" "doc" "p" 1) {
      retry_count = 1;
      next_retry_at = some 40000;
      error_message = some "任务租约超时";
    }
      ∷ []
unfolding program
recovered = refl

run-IsValid_example : IsValid (run calls empty).tasks
run-IsValid_example = run-IsValid calls tt

-- the second row was created first
abbrev two : Db
two = record {
  tasks = new_row 10 1 "e" "index" "doc" "p" 1 ∷ new_row 5 2 "f" "index" "other" "q" 1 ∷ [];
  domain = tt;
}

abbrev taken : ClaimedTask String
taken = claimed_task (new_row 5 2 "f" "index" "other" "q" 1)

abbrev after_claim : Db
after_claim = record {
  tasks =
      new_row 10 1 "e" "index" "doc" "p" 1
      ∷ record (new_row 5 2 "f" "index" "other" "q" 1) {
        status = running;
        owner = some "w";
        lease_until = some 30020;
      }
      ∷ [];
  domain = tt;
}

claims : claim 20 30000 no_lock "w" none two ≡ some (some taken, after_claim)
unfolding program
claims = refl

claim-IsFirst_example :
    (t : AsyncTask String) × (taken ≡ claimed_task t)
    × IsFirst (λ s. is_claimable 20 s && not (no_lock s)) two.tasks t
claim-IsFirst_example = claim-IsFirst 20 30000 no_lock "w" none two after_claim taken claims

claim_excludes_example :
    (succeed taken.id "v" none after_claim ≡ (false, after_claim))
    × (fail 50 taken.id "v" "late" none none after_claim ≡ some (false, after_claim))
    × (renew 50 30000 taken.id "v" after_claim ≡ (false, after_claim))
    × (defer 50 taken.id "v" "late" 2000 none after_claim ≡ some (false, after_claim))
claim_excludes_example =
    claim_excludes 20 30000 no_lock "w" "v" none two after_claim taken none "late" 50 2000 none
      (unfold program in (refl, (refl, tt))) claims (λ e. ground (arith, eq_iff "w" "v"))

abbrev times : List ℕ
times = 10 ∷ 5000 ∷ []

abbrev once : AsyncTask String
once = new_row 5 2 "f" "index" "other" "q" 1
