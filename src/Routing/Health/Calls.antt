-- ===== src/Routing/Health/Calls.antt =====
-- Sequences of calls of the circuit breaker, and what one call makes of each model's entry.
use rag_agent.Prelude.{
  ℕ, ◌+◌, String, str_eq, eq_iff, ◌≡◌, refl, inl, inr, Bool-cases, List, [], ◌∷◌, arith,
  if◌then◌else◌,
}
use rag_agent.Routing.Health.{
  half_open, HealthEntry, CallPermit, HealthStore, fresh_entry, entry_of, is_unavailable,
  allow_call, mark_success, fail_entry, mark_failure, holds_token, release_half_open_permit,
  is_probe, snapshot, set_entry,
}
use rag_agent.Routing.Health.Laws.{entry_of-set, entry_of-seq, probes, allow_call-store}

-- A method call with the clock's reading, where the method reads the clock.
pub data Call : Type 0 where
  check : ℕ → String → Call
  allow : ℕ → String → Call
  success : String → Call
  failure : ℕ → String → Call
  release : CallPermit → Call
  observe : String → Call

unfoldable pub apply : Call → HealthStore → HealthStore
apply (check now m) s = (is_unavailable now m s).1
apply (allow now m) s = (allow_call now m s).1
apply (success m) s = mark_success m s
apply (failure now m) s = mark_failure now m s
apply (release p) s = (release_half_open_permit p s).1
apply (observe m) s = (snapshot m s).1

unfoldable pub run : List Call → HealthStore → HealthStore
run [] s = s
run (c ∷ cs) s = run cs (apply c s)

abbrev pub target : Call → String
target (check _ m) = m
target (allow _ m) = m
target (success m) = m
target (failure _ m) = m
target (release p) = p.model_id
target (observe m) = m

-- The entry of the call's model after the call.
abbrev pub entry_after : HealthStore → Call → HealthEntry → HealthEntry
entry_after s (check now m) e = e
entry_after s (allow now m) e =
    if probes now e then record e { state = half_open; half_open_token = s.token_seq + 1 } else e
entry_after s (success m) e = fresh_entry
entry_after s (failure now m) e = fail_entry s.failure_threshold s.open_duration now e
entry_after s (release p) e =
    if is_probe p
    then (if holds_token p.token e then record e { half_open_token = 0 } else e)
    else e
entry_after s (observe m) e = e

abbrev pub seq_after : HealthStore → Call → HealthEntry → ℕ
seq_after s (allow now m) e = if probes now e then s.token_seq + 1 else s.token_seq
seq_after s _ e = s.token_seq

-- A call changes the entry of its own model, by `entry_after`, and no other.
pub entry_of-apply :
    (c : Call) (s : HealthStore) (j : String)
    → entry_of (apply c s) j
      ≡ (if str_eq (target c) j then entry_after s c (entry_of s j) else entry_of s j)
unfolding apply is_unavailable allow_call mark_success mark_failure release_half_open_permit
    snapshot
entry_of-apply (check now m) s j = simp entry_of-set (ground (arith, eq_iff m j))
entry_of-apply (allow now m) s j =
    rw allow_call-store (elim (Bool-cases (probes now (entry_of s m))) [
      | inl p ↦ rw p (simp (entry_of-set, entry_of-seq) (ground (arith, eq_iff m j)))
      | inr p ↦ rw p (simp entry_of-set (ground (arith, eq_iff m j)))
    ])
entry_of-apply (success m) s j = simp entry_of-set
entry_of-apply (failure now m) s j = simp entry_of-set (ground (arith, eq_iff m j))
entry_of-apply (release p) s j = grind (arith, entry_of-set, eq_iff p.model_id j)
entry_of-apply (observe m) s j = simp entry_of-set (ground (arith, eq_iff m j))

pub token_seq-apply :
    (c : Call) (s : HealthStore) → (apply c s).token_seq ≡ seq_after s c (entry_of s (target c))
unfolding apply is_unavailable allow_call mark_success mark_failure release_half_open_permit
    snapshot set_entry
token_seq-apply (check now m) s = refl
token_seq-apply (allow now m) s = ground arith
token_seq-apply (success m) s = refl
token_seq-apply (failure now m) s = refl
token_seq-apply (release p) s = ground arith
token_seq-apply (observe m) s = refl

-- No call changes the configuration.
pub apply-config :
    (c : Call) (s : HealthStore)
    → ((apply c s).failure_threshold ≡ s.failure_threshold)
      × ((apply c s).open_duration ≡ s.open_duration)
unfolding apply is_unavailable allow_call mark_success mark_failure release_half_open_permit
    snapshot set_entry
apply-config (check now m) s = ground arith
apply-config (allow now m) s = ground arith
apply-config (success m) s = ground arith
apply-config (failure now m) s = ground arith
apply-config (release p) s = ground arith
apply-config (observe m) s = ground arith
