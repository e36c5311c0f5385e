-- ===== src/TaskQueue/Ownership.antt =====
-- Which task is claimed, and who may finish it.
use rag_agent.Prelude.{
  ℕ, String, eq_iff, ◌≡◌, ◌≢◌, refl, sym, subst, Bool, true, false, not, ◌&&◌, Option, none, some,
  List, [], ◌∷◌, arith, Option-cases, inl, inr, ◌==◌,
}
use mathlib.Core.List.{Memᴰ}
use rag_agent.TaskQueue.Rows.{
  AsyncTask, ClaimedTask, claimed_task, is_claimable, is_held, claim_row,
}
use rag_agent.TaskQueue.Methods.{
  Database, ClaimTransition, FailureTransition, find_task, update_task, first_task, commit_claim,
  claim_found, claim, succeed, fail, renew, defer,
}
use rag_agent.TaskQueue.Invariant.{has_task}
use rag_agent.TaskQueue.First.{IsFirst, FirstOf, first_task-FirstOf}

same_id : (n : ℕ) → (n == n) ≡ true
same_id n = ground arith

module _ {P : Type 0} where
  abbrev can_claim : ℕ → (AsyncTask P → Bool) → AsyncTask P → Bool
  can_claim now locked t = is_claimable now t && not (locked t)

  -- No two rows have one id: the primary key.
  abbrev pub UniqueIds : List (AsyncTask P) → Type 0
  UniqueIds [] = Unit
  UniqueIds (t ∷ ts) = (has_task (λ s. s.id == t.id) ts ≡ false) × UniqueIds ts

  absent :
      (id : ℕ) (o : String) (ts : List (AsyncTask P))
      → has_task (λ s. s.id == id) ts ≡ false
      → find_task (is_held id o) ts ≡ none
  unfolding has_task find_task
  absent id o [] h = refl
  absent id o (t ∷ ts) h = ground (arith, absent id o ts)

  member-has :
      {t : AsyncTask P} (ts : List (AsyncTask P))
      → Memᴰ t ts
      → has_task (λ s. s.id == t.id) ts ≡ true
  unfolding has_task
  member-has [] i = elim i [ ]
  member-has {t} (s ∷ ts) (Memᴰ.head p) =
      rw (subst (λ u. (u.id == t.id) ≡ true) p (same_id t.id)) refl
  member-has {t} (s ∷ ts) (Memᴰ.tail i) = ground (arith, member-has ts i)

  claimed_head :
      (now lease : ℕ) (o other : String) (s : AsyncTask P) (ts : List (AsyncTask P))
      → has_task (λ x. x.id == s.id) ts ≡ false
      → is_claimable now s ≡ true
      → o ≢ other
      → find_task
          (is_held s.id other)
          (update_task (λ y. is_claimable now y && (y.id == s.id)) (claim_row now lease o) (s ∷ ts))
        ≡ none
  unfolding find_task update_task
  claimed_head now lease o other s ts u e n =
      ground (arith, same_id s.id, absent s.id other ts, eq_iff o other)

  claimed_away :
      (now lease : ℕ) (o other : String) (t : AsyncTask P) (ts : List (AsyncTask P))
      → UniqueIds ts
      → Memᴰ t ts
      → is_claimable now t ≡ true
      → o ≢ other
      → find_task
          (is_held t.id other)
          (update_task (λ s. is_claimable now s && (s.id == t.id)) (claim_row now lease o) ts)
        ≡ none
  unfolding find_task update_task
  claimed_away now lease o other t [] u i e n = elim i [ ]
  claimed_away now lease o other t (s ∷ ts) u (Memᴰ.head p) e n =
      subst
        (λ x.
          find_task (is_held x.id other) (
            update_task (λ y. is_claimable now y && (y.id == x.id)) (claim_row now lease o)
              (s ∷ ts))
          ≡ none)
        (sym p)
        (claimed_head now lease o other s ts u.0 (subst (λ x. is_claimable now x ≡ true) p e) n)
  claimed_away now lease o other t (s ∷ ts) u (Memᴰ.tail i) e n =
      ground (arith, claimed_away now lease o other t ts u.1 i e n, member-has ts i)

module _ {P D : Type 0} where
  commit_claim-answer :
      (f : Option (ClaimTransition P D)) (c x : ClaimedTask P) (db db' : Database P D)
      → commit_claim f c db ≡ some (some x, db')
      → (x ≡ c) × (db'.tasks ≡ db.tasks)
  unfolding commit_claim
  commit_claim-answer none c x db db' e = ground (arith, e)
  commit_claim-answer (some f) c x db db' e = elim (Option-cases (f c db.domain)) [
    | inl q ↦ absurd (ground (arith, e))
    | inr (d, q) ↦ ground (arith, e)
  ]

  -- What a claim that got a task did.
  record Claimed (now lease : ℕ) (locked : AsyncTask P → Bool) (o : String) (db db' : Database P D)
      (c : ClaimedTask P) : Type 0 where
    row : AsyncTask P
    first : IsFirst (can_claim now locked) db.tasks row
    answer : c ≡ claimed_task row
    written :
        db'.tasks
        ≡ update_task (λ s. is_claimable now s && (s.id == row.id)) (claim_row now lease o) db.tasks

  nothing_found :
      (now lease : ℕ) (o : String) (f : Option (ClaimTransition P D)) (db : Database P D)
      (c : ClaimedTask P) (db' : Database P D)
      → claim_found now lease o f db none ≢ some (some c, db')
  unfolding claim_found
  nothing_found now lease o f db c db' = λ e. ground (arith, e)

  claim_found-answer :
      (now lease : ℕ) (o : String) (f : Option (ClaimTransition P D)) (db : Database P D)
      (c : ClaimedTask P) (db' : Database P D) (t : AsyncTask P)
      → claim_found now lease o f db (some t) ≡ some (some c, db')
      → (c ≡ claimed_task t)
        × (db'.tasks
            ≡ update_task
                (λ s. is_claimable now s && (s.id == t.id))
                (claim_row now lease o)
                db.tasks)
  unfolding claim_found
  claim_found-answer now lease o f db c db' t e = commit_claim-answer f (claimed_task t) c _ db' e

  claim-Claimed :
      (now lease : ℕ) (locked : AsyncTask P → Bool) (o : String) (f : Option (ClaimTransition P D))
      (db db' : Database P D) (c : ClaimedTask P)
      → claim now lease locked o f db ≡ some (some c, db')
      → Claimed now lease locked o db db' c
  unfolding claim
  claim-Claimed now lease locked o f db db' c e =
      step (first_task (can_claim now locked) db.tasks) refl
        (first_task-FirstOf (can_claim now locked) db.tasks)
    where
      step :
          (r : Option (AsyncTask P))
          → first_task (can_claim now locked) db.tasks ≡ r
          → FirstOf (can_claim now locked) db.tasks r
          → Claimed now lease locked o db db' c
      step none q h = absurd (
          nothing_found now lease o f db c db'
            (subst (λ r. claim_found now lease o f db r ≡ some (some c, db')) q e))
      step (some t) q h =
          let a =
            claim_found-answer now lease o f db c db' t
              (subst (λ r. claim_found now lease o f db r ≡ some (some c, db')) q e) in
          record { row = t; first = h; answer = a.0; written = a.1 }

  -- `claim` takes the first task that is due: its row is pending, due and not locked by another
  -- transaction, and no other such row was created before it, or at the same time with a smaller id.
  pub claim-IsFirst :
      (now lease : ℕ) (locked : AsyncTask P → Bool) (o : String) (f : Option (ClaimTransition P D))
      (db db' : Database P D) (c : ClaimedTask P)
      → claim now lease locked o f db ≡ some (some c, db')
      → (t : AsyncTask P) × (c ≡ claimed_task t)
        × IsFirst (λ s. is_claimable now s && not (locked s)) db.tasks t
  claim-IsFirst now lease locked o f db db' c e =
      let x = claim-Claimed now lease locked o f db db' c e in (x.row, x.answer, x.first)

  -- After a claim, nobody but the new owner can finish the task: another owner, as one whose lease
  -- ended, who reports a success or a failure, renews the lease or defers the task, is told no and
  -- changes nothing. The ids of the rows are different from each other.
  pub claim_excludes :
      (now lease : ℕ) (locked : AsyncTask P → Bool) (o other : String)
      (f : Option (ClaimTransition P D)) (db db' : Database P D) (c : ClaimedTask P)
      (event : Option String) (error : String) (later delay : ℕ)
      (g : Option (FailureTransition P D))
      → UniqueIds db.tasks
      → claim now lease locked o f db ≡ some (some c, db')
      → o ≢ other
      → (succeed c.id other event db' ≡ (false, db'))
        × (fail later c.id other error event g db' ≡ some (false, db'))
        × (renew later lease c.id other db' ≡ (false, db'))
        × (defer later c.id other error delay g db' ≡ some (false, db'))
  unfolding succeed fail renew defer
  claim_excludes now lease locked o other f db db' c event error later delay g u e n =
      let q = not_held in
      (rw (q, succeed) refl, rw (q, fail) refl, rw (q, renew) refl, rw (q, defer) refl)
    where
      not_held : find_task (is_held c.id other) db'.tasks ≡ none
      not_held =
          let x = claim-Claimed now lease locked o f db db' c e in
          subst (λ ts. find_task (is_held c.id other) ts ≡ none) (sym x.written)
            (subst
              (λ a.
                find_task (is_held a.id other) (
                  update_task (λ s. is_claimable now s && (s.id == x.row.id))
                    (claim_row now lease o) db.tasks)
                ≡ none)
              (sym x.answer)
              (claimed_away now lease o other x.row db.tasks u x.first.held
                (ground (arith, x.first.passes)) n))
