-- ===== src/Routing/Health/Invariant.antt =====
-- The invariant of the circuit breaker, over every sequence of calls.
use rag_agent.Prelude.{
  ℕ, ◌+◌, ◌≤◌, ◌<◌, String, str_eq, eq_iff, str_eq-cases, ◌≡◌, ◌≢◌, some, List, [], ◌∷◌, ◌⊎◌, arith,
  inl, inr, if◌then◌else◌,
}
use rag_agent.Dict.{get}
use rag_agent.Routing.Health.{
  closed, half_open, HealthEntry, HealthStore, entry_of, init, fresh_entry,
}
use rag_agent.Routing.Health.Calls.{
  Call, check, allow, success, failure, release, observe, apply, run, target, entry_after,
  entry_of-apply, seq_after, token_seq-apply, apply-config,
}

-- What holds of one entry, with the store's threshold and its last token.
pub record IsValidEntry (threshold seq : ℕ) (e : HealthEntry) : Type 0 where
  pub below : e.consecutive_failures < threshold
  pub counted_closed : e.state ≢ closed → e.consecutive_failures ≡ 0
  pub issued : e.half_open_token ≤ seq
  pub held_half_open : e.half_open_token ≢ 0 → e.state ≡ half_open

pub record IsValid (s : HealthStore) : Type 0 where
  pub entries : (m : String) → IsValidEntry s.failure_threshold s.token_seq (entry_of s m)
  -- two models never hold one token
  pub distinct :
      (m j : String)
      → (entry_of s m).half_open_token ≡ (entry_of s j).half_open_token
      → (entry_of s m).half_open_token ≢ 0
      → m ≡ j

entry_after-IsValidEntry :
    (s : HealthStore) (c : Call) (e : HealthEntry)
    → IsValidEntry s.failure_threshold s.token_seq e
    → IsValidEntry s.failure_threshold (seq_after s c e) (entry_after s c e)
entry_after-IsValidEntry s (check now m) e h = h
entry_after-IsValidEntry s (allow now m) e h = ground arith
entry_after-IsValidEntry s (success m) e h = ground arith
entry_after-IsValidEntry s (failure now m) e h = ground arith
entry_after-IsValidEntry s (release p) e h = ground arith
entry_after-IsValidEntry s (observe m) e h = h

-- The token of an entry after a call is the one it had, none, or the next one.
token_after :
    (s : HealthStore) (c : Call) (e : HealthEntry)
    → ((entry_after s c e).half_open_token ≡ e.half_open_token)
      ⊎ ((entry_after s c e).half_open_token ≡ 0)
      ⊎ ((entry_after s c e).half_open_token ≡ s.token_seq + 1)
token_after s (check now m) e = ground arith
token_after s (allow now m) e = ground arith
token_after s (success m) e = ground arith
token_after s (failure now m) e = ground arith
token_after s (release p) e = ground arith
token_after s (observe m) e = ground arith

pub seq_after-le : (s : HealthStore) (c : Call) (e : HealthEntry) → s.token_seq ≤ seq_after s c e
seq_after-le s (allow now m) e = ground arith
seq_after-le s _ e = omega arith

IsValidEntry-mono : {t n k : ℕ} {e : HealthEntry} → n ≤ k → IsValidEntry t n e → IsValidEntry t k e
IsValidEntry-mono le h = record {
  below = h.below;
  counted_closed = h.counted_closed;
  issued = omega arith;
  held_half_open = h.held_half_open;
}

module _ (c : Call) (s : HealthStore) (h : IsValid s) where
  entries-apply :
      (m : String)
      → IsValidEntry s.failure_threshold
          (seq_after s c (entry_of s (target c)))
          (if str_eq (target c) m then entry_after s c (entry_of s m) else entry_of s m)
  entries-apply m = elim (str_eq-cases (target c) m) [
    | inl (p, e) ↦ rw (e, p) (entry_after-IsValidEntry s c (entry_of s m) (h.entries m))
    | inr (p, e) ↦ rw e (IsValidEntry-mono (seq_after-le s c (entry_of s (target c))) (h.entries m))
  ]

  distinct-apply :
      (m j : String)
      → (if str_eq (target c) m
          then entry_after s c (entry_of s m)
          else entry_of s m).half_open_token
        ≡ (if str_eq (target c) j
            then entry_after s c (entry_of s j)
            else entry_of s j).half_open_token
      → (if str_eq (target c) m
          then entry_after s c (entry_of s m)
          else entry_of s m).half_open_token
        ≢ 0
      → m ≡ j
  distinct-apply m j p q = ground (
    arith,
    eq_iff (target c) m,
    eq_iff (target c) j,
    token_after s c (entry_of s m),
    token_after s c (entry_of s j),
    (h.entries m).issued,
    (h.entries j).issued,
    h.distinct m j,
  )

apply-IsValid : (c : Call) (s : HealthStore) → IsValid s → IsValid (apply c s)
apply-IsValid c s h = record {
  entries = λ m.
      rw entry_of-apply (rw token_seq-apply (simp (apply-config c s).0 (entries-apply c s h m)));
  distinct = λ m j. rw (entry_of-apply c s m, entry_of-apply c s j) (distinct-apply c s h m j);
}

run-IsValid : (cs : List Call) (s : HealthStore) → IsValid s → IsValid (run cs s)
unfolding run
run-IsValid [] s h = h
run-IsValid (c ∷ cs) s h = run-IsValid cs (apply c s) (apply-IsValid c s h)

init-entry :
    (threshold duration : ℕ) {s : HealthStore}
    → init threshold duration ≡ some s
    → (m : String) → (0 < s.failure_threshold) × (entry_of s m ≡ fresh_entry)
unfolding init entry_of get
init-entry threshold duration h m = ground arith

init-IsValid :
    (threshold duration : ℕ) {s : HealthStore} → init threshold duration ≡ some s → IsValid s
init-IsValid threshold duration {s} h = record {
  entries = λ m. ground (arith, init-entry threshold duration h m);
  distinct = λ m j. ground (arith, init-entry threshold duration h m);
}

-- From a new store, after any calls: a closed circuit counts fewer failures than the threshold,
-- the others count none; only a half-open circuit holds a token, one that was issued, and no two
-- models hold the same.
pub init-run-IsValid :
    (threshold duration : ℕ) {s : HealthStore} (cs : List Call)
    → init threshold duration ≡ some s
    → IsValid (run cs s)
init-run-IsValid threshold duration {s} cs h = run-IsValid cs s (init-IsValid threshold duration h)
