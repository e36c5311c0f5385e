-- ===== src/TaskQueue/Changes.antt =====
-- What each method of the queue assigns to a row keeps the row valid.

use rag_agent.Prelude.{
  ℕ, ◌+◌, ◌≤◌, String, ◌≡◌, refl, subst, Bool, true, false, ◌&&◌, none, arith, Bool-cases, inl, inr,
  ltb, ◌==◌, ltb→lt, if◌then◌else◌,
}
use rag_agent.TaskQueue.Rows.{
  AsyncTask, TaskStatus, pending, running, success, failed, is_active, is_active_of, is_held,
  is_claimable, is_stuck, is_terminal, refresh_row, claim_row, requeue_row, succeed_row, fail_row,
  renew_row, defer_row, recover_row,
}
use rag_agent.TaskQueue.Invariant.{Holds, Within, RowIsValid, IsGood}

Within-retry : (r m : ℕ) → r ≤ m → Within (if ltb m (r + 1) then failed else pending) (r + 1) m
Within-retry r m h = elim (Bool-cases (ltb m (r + 1))) [
  | inl e ↦ rw e (omega (arith, ltb→lt m (r + 1) e))
  | inr e ↦ rw e (ground arith)
]

Holds-retry : (b : Bool) → Holds (if b then failed else pending) none none
Holds-retry true = (refl, refl)
Holds-retry false = (refl, refl)

Within-zero : (s : TaskStatus) (r m : ℕ) → is_active s ≡ true → Within s 0 m
Within-zero pending r m h = omega arith
Within-zero running r m h = omega arith
Within-zero success r m h = absurd cc
Within-zero failed r m h = absurd cc

-- the changes of the methods, whatever they carry
module _ {P : Type 0} where
  held-running :
      (id : ℕ) (o : String) (t : AsyncTask P) → is_held id o t ≡ true → t.status ≡ running
  held-running id o t h = ground arith

  within :
      (id : ℕ) (o : String) (t : AsyncTask P)
      → is_held id o t ≡ true
      → RowIsValid t
      → t.retry_count ≤ t.max_retries
  within id o t h v =
      subst (λ s. Within s t.retry_count t.max_retries) (held-running id o t h) v.within

  -- the tests of the methods hold of active rows only
  held-active :
      (id : ℕ) (o : String) (t : AsyncTask P) → is_held id o t ≡ true → is_active t.status ≡ true
  held-active id o t h = ground arith

  module _ (id : ℕ) (o : String) where
    pub requeue-IsGood : IsGood (is_held id o) (requeue_row {P = P})
    requeue-IsGood = record {
      valid = λ t h v. record { holds = (refl, refl); within = within id o t h v };
      active = held-active id o;
      same_type = λ t. refl;
      same_key = λ t. refl;
    }

    pub succeed-IsGood : IsGood (is_held id o) (succeed_row {P = P})
    succeed-IsGood = record {
      valid = λ t h v. record { holds = (refl, refl); within = within id o t h v };
      active = held-active id o;
      same_type = λ t. refl;
      same_key = λ t. refl;
    }

    pub fail-IsGood :
        (now : ℕ) (error : String) → IsGood (is_held id o) (fail_row {P = P} now error)
    fail-IsGood now error = record {
      valid = λ t h v. record {
        holds = Holds-retry (is_terminal t);
        within = Within-retry t.retry_count t.max_retries (within id o t h v);
      };
      active = held-active id o;
      same_type = λ t. refl;
      same_key = λ t. refl;
    }

    pub renew-IsGood : (now lease : ℕ) → IsGood (is_held id o) (renew_row {P = P} now lease)
    renew-IsGood now lease = record {
      valid = λ t h v. record {
        holds = rw (held-running id o t h) (
          (subst (λ s. Holds s t.owner t.lease_until) (held-running id o t h) v.holds).0,
          λ e. cc,
        );
        within = v.within;
      };
      active = held-active id o;
      same_type = λ t. refl;
      same_key = λ t. refl;
    }

    pub defer-IsGood :
        (now delay : ℕ) (error : String) → IsGood (is_held id o) (defer_row {P = P} now delay error)
    defer-IsGood now delay error = record {
      valid = λ t h v. record { holds = (refl, refl); within = within id o t h v };
      active = held-active id o;
      same_type = λ t. refl;
      same_key = λ t. refl;
    }

  pub claim-IsGood :
      (now lease id : ℕ) (o : String)
      → IsGood (λ s. is_claimable now s && (s.id == id)) (claim_row {P = P} now lease o)
  claim-IsGood now lease id o = record {
    valid = λ t h v. record {
      holds = (λ e. cc, λ e. cc);
      within = subst (λ s. Within s t.retry_count t.max_retries) (claimable_pending t h) v.within;
    };
    active = λ t h. ground arith;
    same_type = λ t. refl;
    same_key = λ t. refl;
  }
    where
      claimable_pending :
          (t : AsyncTask P) → (is_claimable now t && (t.id == id)) ≡ true → t.status ≡ pending
      claimable_pending t h = ground arith

  pub refresh-IsGood :
      (e k y : String) (p : P) (m : ℕ) → IsGood (is_active_of k y) (refresh_row e p m)
  refresh-IsGood e k y p m = record {
    valid = λ t h v. record { holds = v.holds; within = Within-zero t.status 0 m (ground arith) };
    active = λ t h. ground arith;
    same_type = λ t. refl;
    same_key = λ t. refl;
  }

  pub recover-IsGood : (now : ℕ) → IsGood (is_stuck {P = P} now) (recover_row now)
  recover-IsGood now = record {
    valid = λ t h v. record {
      holds = Holds-retry (is_terminal t);
      within =
          Within-retry t.retry_count t.max_retries
            (subst (λ s. Within s t.retry_count t.max_retries) (stuck-running t h) v.within);
    };
    active = λ t h. ground arith;
    same_type = λ t. refl;
    same_key = λ t. refl;
  }
    where
      stuck-running : (t : AsyncTask P) → is_stuck now t ≡ true → t.status ≡ running
      stuck-running t h = ground arith
