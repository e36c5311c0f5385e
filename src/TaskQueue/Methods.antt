-- ===== src/TaskQueue/Methods.antt =====
-- The methods of `TaskQueue`, app/framework/task_queue.py. Each is one transaction. What other
-- transactions have locked is an argument of those that skip it. A callback works in the
-- transaction on the rest of the database, `D`, and may raise: `none` is a method that raises, and
-- its transaction is rolled back.
use Prim.Native.String.{slice}
use rag_agent.Prelude.{
  ℕ, max, ◌*◌, String, Bool, true, false, not, ◌&&◌, Option, none, some, List, [], ◌∷◌, ◌++◌, ◌==◌,
  if◌then◌else◌,
}
use rag_agent.TaskQueue.Rows.{
  AsyncTask, ClaimedTask, claimed_task, is_claimable, is_held, is_active_of, is_before,
  is_other_event, new_row, refresh_row, claim_row, requeue_row, succeed_row, is_terminal, fail_row,
  renew_row, defer_row,
}

pub record Database (P D : Type 0) : Type 0 where
  pub tasks : List (AsyncTask P)
  pub domain : D

-- the callbacks `ClaimTransition` and `FailureTransition`
abbrev pub ClaimTransition : Type 0 → Type 0 → Type 0
ClaimTransition P D = ClaimedTask P → D → Option D

abbrev pub FailureTransition : Type 0 → Type 0 → Type 0
FailureTransition P D = ClaimedTask P → String → Bool → D → Option D

-- the constructor, in milliseconds
abbrev pub lease_of : ℕ → ℕ
lease_of lease_seconds = max 30 lease_seconds * 1000

module _ {P : Type 0} where
  -- the first row of which a test holds
  unfoldable pub find_task : (AsyncTask P → Bool) → List (AsyncTask P) → Option (AsyncTask P)
  find_task p [] = none
  find_task p (t ∷ ts) = if p t then some t else find_task p ts

  unfoldable pub update_task :
      (AsyncTask P → Bool) → (AsyncTask P → AsyncTask P) → List (AsyncTask P) → List (AsyncTask P)
  update_task p f [] = []
  update_task p f (t ∷ ts) = if p t then f t ∷ ts else t ∷ update_task p f ts

  -- of two rows the one that stands before the other in the order of `claim`
  abbrev pub earlier : AsyncTask P → Option (AsyncTask P) → AsyncTask P
  earlier t none = t
  earlier t (some s) = if is_before s t then s else t

  -- ORDER BY create_time, id LIMIT 1, on the rows of which a test holds
  unfoldable pub first_task : (AsyncTask P → Bool) → List (AsyncTask P) → Option (AsyncTask P)
  first_task p [] = none
  first_task p (t ∷ ts) = let rest = first_task p ts in if p t then some (earlier t rest) else rest

module _ {P D : Type 0} where
  abbrev pub set_tasks : List (AsyncTask P) → Database P D → Database P D
  set_tasks ts db = record db { tasks = ts }

  -- `enqueue`, for the identifiers that are drawn; the unique index refuses a second active row
  unfoldable pub enqueue :
      ℕ → ℕ → String → String → String → P → ℕ → Database P D → Option (AsyncTask P × Database P D)
  enqueue now id event type key payload max_retries db =
      elim (find_task (is_active_of type key) db.tasks) [
        | some _ ↦ none
        | none ↦
            let t = new_row now id event type key payload max_retries in
            some (t, set_tasks (db.tasks ++ t ∷ []) db)
      ]

  unfoldable pub enqueue_latest :
      ℕ → ℕ → String → String → String → P → ℕ → Database P D → String × Database P D
  enqueue_latest now id event type key payload max_retries db =
      elim (find_task (is_active_of type key) db.tasks) [
        | some _ ↦ (
          event,
          set_tasks
              (update_task (is_active_of type key) (refresh_row event payload max_retries) db.tasks)
              db,
        )
        | none ↦ (
          event,
          set_tasks (db.tasks ++ new_row now id event type key payload max_retries ∷ []) db,
        )
      ]

  -- `if on_claimed is not None: await on_claimed(session, claimed)`, and the commit
  unfoldable pub commit_claim :
      Option (ClaimTransition P D)
      → ClaimedTask P
      → Database P D
      → Option (Option (ClaimedTask P) × Database P D)
  commit_claim none c db = some (some c, db)
  commit_claim (some f) c db = elim (f c db.domain) [
    | none ↦ none
    | some d ↦ some (some c, record db { domain = d })
  ]

  -- `claim`, for what its query has found
  unfoldable pub claim_found :
      ℕ
      → ℕ
      → String
      → Option (ClaimTransition P D)
      → Database P D
      → Option (AsyncTask P)
      → Option (Option (ClaimedTask P) × Database P D)
  claim_found now lease owner on_claimed db none = some (none, db)
  claim_found now lease owner on_claimed db (some t) = commit_claim on_claimed (claimed_task t) (
      set_tasks
        (update_task (λ s. is_claimable now s && (s.id == t.id)) (claim_row now lease owner)
          db.tasks)
        db)

  unfoldable pub claim :
      ℕ
      → ℕ
      → (AsyncTask P → Bool)
      → String
      → Option (ClaimTransition P D)
      → Database P D
      → Option (Option (ClaimedTask P) × Database P D)
  claim now lease locked owner on_claimed db =
      claim_found now lease owner on_claimed db
        (first_task (λ t. is_claimable now t && not (locked t)) db.tasks)

  unfoldable pub succeed : ℕ → String → Option String → Database P D → Bool × Database P D
  succeed id owner event db = elim (find_task (is_held id owner) db.tasks) [
    | none ↦ (false, db)
    | some t ↦
        if is_other_event event t.event_id
        then (false, set_tasks (update_task (is_held id owner) requeue_row db.tasks) db)
        else (true, set_tasks (update_task (is_held id owner) succeed_row db.tasks) db)
  ]

  -- `if on_transition is not None: await on_transition(...)`, and the commit
  unfoldable pub commit_transition :
      Option (FailureTransition P D)
      → ClaimedTask P
      → String
      → Bool
      → Bool
      → Database P D
      → Option (Bool × Database P D)
  commit_transition none c error terminal reply db = some (reply, db)
  commit_transition (some f) c error terminal reply db = elim (f c error terminal db.domain) [
    | none ↦ none
    | some d ↦ some (reply, record db { domain = d })
  ]

  unfoldable pub fail :
      ℕ
      → ℕ
      → String
      → String
      → Option String
      → Option (FailureTransition P D)
      → Database P D
      → Option (Bool × Database P D)
  fail now id owner error event on_transition db = elim (find_task (is_held id owner) db.tasks) [
    | none ↦ some (false, db)
    | some t ↦
        if is_other_event event t.event_id
        then some (false, set_tasks (update_task (is_held id owner) requeue_row db.tasks) db)
        else commit_transition on_transition (claimed_task (fail_row now (slice error 0 4000) t))
            (slice error 0 4000) (is_terminal t) (is_terminal t)
            (set_tasks (update_task (is_held id owner) (fail_row now (slice error 0 4000)) db.tasks)
              db)
  ]

  unfoldable pub renew : ℕ → ℕ → ℕ → String → Database P D → Bool × Database P D
  renew now lease id owner db = elim (find_task (is_held id owner) db.tasks) [
    | none ↦ (false, db)
    | some _ ↦ (true, set_tasks (update_task (is_held id owner) (renew_row now lease) db.tasks) db)
  ]

  unfoldable pub defer :
      ℕ
      → ℕ
      → String
      → String
      → ℕ
      → Option (FailureTransition P D)
      → Database P D
      → Option (Bool × Database P D)
  defer now id owner error delay on_transition db = elim (find_task (is_held id owner) db.tasks) [
    | none ↦ some (false, db)
    | some t ↦ commit_transition on_transition (claimed_task t) (slice error 0 4000) false true (
        set_tasks
          (update_task (is_held id owner) (defer_row now delay (slice error 0 4000)) db.tasks) db)
  ]
