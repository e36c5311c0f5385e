-- ===== src/Idempotency/Exclusion.antt =====
-- Who has a lock or a mark keeps it until its time.

use rag_agent.Prelude.{
  ℕ, ◌+◌, ◌<◌, String, str_eq-cases, str_eq-false, ◌≡◌, ◌≢◌, refl, sym, ap, subst, ◌∙◌, Bool, true,
  false, none, some, List, [], ◌∷◌, All, arith, inl, inr, Bool-cases, Option-cases,
}
use rag_agent.Idempotency.Keys.{
  Keys, read, set, delete, Held, read-Held, set-Held, get-set, get-delete,
}
use rag_agent.Idempotency.Locks.{is_text, SubmitLock, lock_key, try_lock, unlock}

-- another key changes nothing
pub set-other :
    (k j v w : String) (x y : ℕ) (s : Keys) → k ≢ j → Held j v x s → Held j v x (set y k w s)
set-other k j v w x y s n h = ground (arith, get-set k j w y s, str_eq-false k j n)

pub delete-other :
    (k j v : String) (x : ℕ) (s : Keys) → k ≢ j → Held j v x s → Held j v x (delete k s)
delete-other k j v x s n h = ground (arith, get-delete k j s, str_eq-false k j n)

module _ (k v : String) (ends : ℕ) where
  -- a text that is not there does not pass
  pub not_text :
      (s : Keys) (now : ℕ) (w : String)
      → Held k v ends s
      → now < ends
      → w ≢ v
      → is_text (read now k s) w ≡ false
  not_text s now w h p n =
      ap (λ o. is_text o w) (read-Held now k v ends s h p) ∙ str_eq-false v w (λ e. n (sym e))

  try_lock-Held :
      (e : SubmitLock) (now : ℕ) (token value : String) (s : Keys)
      → Held k v ends s
      → now < ends
      → Held k v ends (try_lock e now token value s).1
  unfolding try_lock
  try_lock-Held e now token value s h p = elim (str_eq-cases (lock_key e value) k) [
    | inl (q, _) ↦
        rw (subst (λ j. read now j s ≡ some v) (sym q) (read-Held now k v ends s h p), try_lock) h
    | inr (n, _) ↦ elim (Option-cases (read now (lock_key e value) s)) [
      | inl r ↦ rw (r, try_lock) (set-other (lock_key e value) k v token ends _ s n h)
      | inr (w, r) ↦ rw (r, try_lock) h
    ]
  ]

  unlock-Held :
      (e : SubmitLock) (now : ℕ) (token value : String) (s : Keys)
      → Held k v ends s
      → now < ends
      → token ≢ v
      → Held k v ends (unlock e now value token s).1
  unfolding unlock
  unlock-Held e now token value s h p n =
      elim (Bool-cases (is_text (read now (lock_key e value) s) token)) [
        | inl b ↦ elim (str_eq-cases (lock_key e value) k) [
          | inl (q, _) ↦ absurd (
              clash b (
                subst (λ j. is_text (read now j s) token ≡ false) (sym q)
                  (not_text s now token h p n)))
          | inr (m, _) ↦ rw (b, unlock) (delete-other (lock_key e value) k v ends s m h)
        ]
        | inr b ↦ rw (b, unlock) h
      ]
    where
      clash : {b : Bool} → b ≡ true → b ≡ false → ⊥
      clash x y = ground arith

-- the calls on locks, at the time at which they run
pub data LockCall : Type 0 where
  call_lock : ℕ → String → String → LockCall
  call_unlock : ℕ → String → String → LockCall

unfoldable pub run_locks : SubmitLock → List LockCall → Keys → Keys
run_locks e [] s = s
run_locks e (call_lock now token value ∷ cs) s = run_locks e cs (try_lock e now token value s).1
run_locks e (call_unlock now token value ∷ cs) s = run_locks e cs (unlock e now value token s).1

-- The call runs before a time, and unlocks nothing with a token.
abbrev pub OtherCall : String → ℕ → LockCall → Type 0
OtherCall token ends (call_lock now t value) = now < ends
OtherCall token ends (call_unlock now t value) = (now < ends) × (t ≢ token)

run_locks-Held :
    (k v : String) (ends : ℕ) (e : SubmitLock) (cs : List LockCall) (s : Keys)
    → All (OtherCall v ends) cs
    → Held k v ends s
    → Held k v ends (run_locks e cs s)
unfolding run_locks
run_locks-Held k v ends e [] s o h = h
run_locks-Held k v ends e (call_lock now t value ∷ cs) s o h =
    run_locks-Held k v ends e cs (try_lock e now t value s).1 o.1
      (try_lock-Held k v ends e now t value s h o.0)
run_locks-Held k v ends e (call_unlock now t value ∷ cs) s o h =
    run_locks-Held k v ends e cs (unlock e now value t s).1 o.1
      (unlock-Held k v ends e now t value s h o.0.0 o.0.1)

locked-Held :
    (e : SubmitLock) (now : ℕ) (token value : String) (s : Keys)
    → (try_lock e now token value s).0 ≡ some token
    → Held (lock_key e value) token (now + e.ttl_ms) (try_lock e now token value s).1
unfolding try_lock
locked-Held e now token value s h = elim (Option-cases (read now (lock_key e value) s)) [
  | inl r ↦ rw (r, try_lock) (set-Held (lock_key e value) token (now + e.ttl_ms) s)
  | inr (w, r) ↦ absurd (ground arith)
]

-- A lock that was taken excludes everyone until its time has run out: after any calls of other
-- processes before that, with other tokens for their unlocks, an attempt to take it again is refused
-- and changes nothing.
pub try_lock_excludes :
    (e : SubmitLock) (now later : ℕ) (token other value : String) (s : Keys) (cs : List LockCall)
    → (try_lock e now token value s).0 ≡ some token
    → All (OtherCall token (now + e.ttl_ms)) cs
    → later < now + e.ttl_ms
    → try_lock e later other value (run_locks e cs (try_lock e now token value s).1)
      ≡ (none, run_locks e cs (try_lock e now token value s).1)
unfolding try_lock
try_lock_excludes e now later token other value s cs h o p =
    let s' = run_locks e cs (try_lock e now token value s).1 in
    rw
      (
        read-Held later (lock_key e value) token (now + e.ttl_ms) s'
            (run_locks-Held (lock_key e value) token (now + e.ttl_ms) e cs
              (try_lock e now token value s).1 o (locked-Held e now token value s h))
            p,
        try_lock,
      )
      refl
