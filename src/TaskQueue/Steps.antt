-- ===== src/TaskQueue/Steps.antt =====
-- Each method of the queue keeps its rows valid.
use Prim.Native.String.{slice}
use rag_agent.Prelude.{
  ℕ, String, ◌≡◌, refl, Bool, true, not, ◌&&◌, Option, none, some, List, [], ◌∷◌, arith, Bool-cases,
  Option-cases, inl, inr, ◌==◌,
}
use rag_agent.TaskQueue.Rows.{
  AsyncTask, ClaimedTask, is_active_of, is_held, is_claimable, is_stuck, is_terminal,
  is_other_event, new_row, refresh_row, claim_row, requeue_row, succeed_row, fail_row, renew_row,
  defer_row, recover_row, claimed_task,
}
use rag_agent.TaskQueue.Methods.{
  Database, ClaimTransition, FailureTransition, find_task, update_task, enqueue, enqueue_latest,
  commit_claim, claim_found, succeed, commit_transition, fail, renew, defer,
}
use rag_agent.TaskQueue.Recovery.{
  notify, Recovered, add_recovered, add_kept, recover_rows, commit_recovered,
}
use rag_agent.TaskQueue.Changes.{
  requeue-IsGood, succeed-IsGood, fail-IsGood, renew-IsGood, defer-IsGood, claim-IsGood,
  refresh-IsGood, recover-IsGood,
}
use rag_agent.TaskQueue.Invariant.{
  RowIsValid, IsValid, IsGood, IsChanged, update-IsChanged, changed-IsValid, append-IsValid,
}

module _ {P D : Type 0} where
  -- a transaction that was rolled back leaves the database as it was
  abbrev pub committed : {A : Type 0} → Option (A × Database P D) → Database P D → Database P D
  committed none db = db
  committed (some (_, db')) db = db'

module _ {P : Type 0} where
  changed :
      (p : AsyncTask P → Bool) (f : AsyncTask P → AsyncTask P) (ts : List (AsyncTask P))
      → IsGood p f
      → IsValid ts
      → IsValid (update_task p f ts)
  changed p f ts g v = changed-IsValid p f g ts (update_task p f ts) (update-IsChanged p f g ts) v

  new-RowIsValid :
      (now id : ℕ) (e k y : String) (p : P) (m : ℕ) → RowIsValid (new_row now id e k y p m)
  new-RowIsValid now id e k y p m = record { holds = (refl, refl); within = omega arith }

module _ {P D : Type 0} where
  pub enqueue-IsValid :
      (now id : ℕ) (e k y : String) (p : P) (m : ℕ) (db : Database P D)
      → IsValid db.tasks
      → IsValid (committed (enqueue now id e k y p m db) db).tasks
  unfolding enqueue
  enqueue-IsValid now id e k y p m db v =
      elim (Option-cases (find_task (is_active_of k y) db.tasks)) [
        | inl q ↦
            rw (q, enqueue)
              (append-IsValid (new_row now id e k y p m) db.tasks v
                (new-RowIsValid now id e k y p m) q)
        | inr (t, q) ↦ rw (q, enqueue) v
      ]

  pub enqueue_latest-IsValid :
      (now id : ℕ) (e k y : String) (p : P) (m : ℕ) (db : Database P D)
      → IsValid db.tasks
      → IsValid (enqueue_latest now id e k y p m db).1.tasks
  unfolding enqueue_latest
  enqueue_latest-IsValid now id e k y p m db v =
      elim (Option-cases (find_task (is_active_of k y) db.tasks)) [
        | inl q ↦
            rw (q, enqueue_latest)
              (append-IsValid (new_row now id e k y p m) db.tasks v
                (new-RowIsValid now id e k y p m) q)
        | inr (t, q) ↦
            rw (q, enqueue_latest)
              (changed (is_active_of k y) (refresh_row e p m) db.tasks (refresh-IsGood e k y p m) v)
      ]

  -- a callback changes no task, and a raise rolls back
  commit_claim-IsValid :
      (f : Option (ClaimTransition P D)) (c : ClaimedTask P) (db old : Database P D)
      → IsValid db.tasks
      → IsValid old.tasks
      → IsValid (committed (commit_claim f c db) old).tasks
  unfolding commit_claim
  commit_claim-IsValid none c db old v w = v
  commit_claim-IsValid (some f) c db old v w = elim (Option-cases (f c db.domain)) [
    | inl q ↦ rw (q, commit_claim) w
    | inr (d, q) ↦ rw (q, commit_claim) v
  ]

  commit_transition-IsValid :
      (f : Option (FailureTransition P D)) (c : ClaimedTask P) (x : String) (terminal reply : Bool)
      (db old : Database P D)
      → IsValid db.tasks
      → IsValid old.tasks
      → IsValid (committed (commit_transition f c x terminal reply db) old).tasks
  unfolding commit_transition
  commit_transition-IsValid none c x terminal reply db old v w = v
  commit_transition-IsValid (some f) c x terminal reply db old v w =
      elim (Option-cases (f c x terminal db.domain)) [
        | inl q ↦ rw (q, commit_transition) w
        | inr (d, q) ↦ rw (q, commit_transition) v
      ]

  pub claim_found-IsValid :
      (now lease : ℕ) (o : String) (f : Option (ClaimTransition P D)) (db : Database P D)
      (r : Option (AsyncTask P))
      → IsValid db.tasks
      → IsValid (committed (claim_found now lease o f db r) db).tasks
  unfolding claim_found
  claim_found-IsValid now lease o f db none v = v
  claim_found-IsValid now lease o f db (some t) v =
      commit_claim-IsValid f (claimed_task t) _ db
        (changed (λ s. is_claimable now s && (s.id == t.id)) (claim_row now lease o) db.tasks
          (claim-IsGood now lease t.id o) v)
        v

  module _ (id : ℕ) (o : String) (db : Database P D) (v : IsValid db.tasks) where
    pub succeed-IsValid : (e : Option String) → IsValid (succeed id o e db).1.tasks
    unfolding succeed
    succeed-IsValid e = elim (Option-cases (find_task (is_held id o) db.tasks)) [
      | inl q ↦ rw (q, succeed) v
      | inr (t, q) ↦ elim (Bool-cases (is_other_event e t.event_id)) [
        | inl x ↦
            rw (q, x, succeed) (changed (is_held id o) requeue_row db.tasks (requeue-IsGood id o) v)
        | inr x ↦
            rw (q, x, succeed) (changed (is_held id o) succeed_row db.tasks (succeed-IsGood id o) v)
      ]
    ]

    pub fail-IsValid :
        (now : ℕ) (x : String) (e : Option String) (f : Option (FailureTransition P D))
        → IsValid (committed (fail now id o x e f db) db).tasks
    unfolding fail
    fail-IsValid now x e f = elim (Option-cases (find_task (is_held id o) db.tasks)) [
      | inl q ↦ rw (q, fail) v
      | inr (t, q) ↦ elim (Bool-cases (is_other_event e t.event_id)) [
        | inl y ↦
            rw (q, y, fail) (changed (is_held id o) requeue_row db.tasks (requeue-IsGood id o) v)
        | inr y ↦
            rw (q, y, fail)
              (commit_transition-IsValid f _ _ _ _ _ db
                (changed (is_held id o) (fail_row now (slice x 0 4000)) db.tasks
                  (fail-IsGood id o now (slice x 0 4000)) v)
                v)
      ]
    ]

    pub renew-IsValid : (now lease : ℕ) → IsValid (renew now lease id o db).1.tasks
    unfolding renew
    renew-IsValid now lease = elim (Option-cases (find_task (is_held id o) db.tasks)) [
      | inl q ↦ rw (q, renew) v
      | inr (t, q) ↦
          rw (q, renew)
            (changed (is_held id o) (renew_row now lease) db.tasks (renew-IsGood id o now lease) v)
    ]

    pub defer-IsValid :
        (now : ℕ) (x : String) (delay : ℕ) (f : Option (FailureTransition P D))
        → IsValid (committed (defer now id o x delay f db) db).tasks
    unfolding defer
    defer-IsValid now x delay f = elim (Option-cases (find_task (is_held id o) db.tasks)) [
      | inl q ↦ rw (q, defer) v
      | inr (t, q) ↦
          rw (q, defer)
            (commit_transition-IsValid f _ _ _ _ _ db
              (changed (is_held id o) (defer_row now delay (slice x 0 4000)) db.tasks
                (defer-IsGood id o now delay (slice x 0 4000)) v)
              v)
    ]

  abbrev IsRecovered : ℕ → List (AsyncTask P) → Option (Recovered P D) → Type 0
  IsRecovered now ts none = Unit
  IsRecovered now ts (some (answer, ss, d)) =
      IsChanged (is_stuck now) (recover_row now) (recover-IsGood now) ts ss

  recovered :
      (now : ℕ) (t : AsyncTask P) (ts : List (AsyncTask P)) (r : Option (Recovered P D))
      → is_stuck now t ≡ true
      → IsRecovered now ts r
      → IsRecovered now (t ∷ ts) (add_recovered now t r)
  recovered now t ts none e c = tt
  recovered now t ts (some (answer, ss, d)) e c = (inr (e, refl), c)

  kept :
      (now : ℕ) (t : AsyncTask P) (ts : List (AsyncTask P)) (r : Option (Recovered P D))
      → IsRecovered now ts r
      → IsRecovered now (t ∷ ts) (add_kept t r)
  kept now t ts none c = tt
  kept now t ts (some (answer, ss, d)) c = (inl refl, c)

  pub recover_rows-changed :
      (now : ℕ) (locked : AsyncTask P → Bool) (f : Option (FailureTransition P D))
      (ts : List (AsyncTask P)) (d : D)
      → IsRecovered now ts (recover_rows now locked f ts d)
  unfolding recover_rows
  recover_rows-changed now locked f [] d = tt
  recover_rows-changed now locked f (t ∷ ts) d =
      elim (Bool-cases (is_stuck now t && not (locked t))) [
        | inl e ↦ elim (Option-cases (notify f (claimed_task t) "任务租约超时" (is_terminal t) d)) [
          | inl q ↦ rw (e, q, recover_rows) tt
          | inr (d', q) ↦
              rw (e, q, recover_rows)
                (recovered now t ts (recover_rows now locked f ts d') (ground arith)
                  (recover_rows-changed now locked f ts d'))
        ]
        | inr e ↦
            rw (e, recover_rows)
              (kept now t ts (recover_rows now locked f ts d)
                (recover_rows-changed now locked f ts d))
      ]

  pub recovered-IsValid :
      (now : ℕ) (db : Database P D) (r : Option (Recovered P D))
      → IsValid db.tasks
      → IsRecovered now db.tasks r
      → IsValid (committed (commit_recovered r) db).tasks
  recovered-IsValid now db none v c = v
  recovered-IsValid now db (some (answer, ss, d)) v c =
      changed-IsValid (is_stuck now) (recover_row now) (recover-IsGood now) db.tasks ss c v
