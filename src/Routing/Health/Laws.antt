-- ===== src/Routing/Health/Laws.antt =====
-- Each method of the circuit breaker, as a change of what `entry_of` shows.
use rag_agent.Prelude.{
  ℕ, ◌+◌, String, str_eq, eq_iff, eq_refl, ◌≡◌, refl, Bool, false, not, none, some, arith, ltb,
  ◌==◌, if◌then◌else◌,
}
use rag_agent.Dict.{get-put}
use rag_agent.Routing.Health.{
  closed, opened, half_open, HealthEntry, HealthStore, entry_of, set_entry, is_unavailable,
  allow_call,
}

module _ (m : String) (s : HealthStore) where
  pub entry_of-set :
      (j : String) (e : HealthEntry)
      → entry_of (set_entry m e s) j ≡ (if str_eq m j then e else entry_of s j)
  unfolding entry_of set_entry
  entry_of-set j e = rw get-put (ground (arith, eq_iff m j))

  pub entry_of-set_self : (e : HealthEntry) → entry_of (set_entry m e s) m ≡ e
  entry_of-set_self e = simp (entry_of-set, eq_refl)

  -- Storing a missing entry shows nothing new.
  pub entry_of-set_same : (j : String) → entry_of (set_entry m (entry_of s m) s) j ≡ entry_of s j
  entry_of-set_same j = ground (arith, entry_of-set j (entry_of s m), eq_iff m j)

-- The token counter does not show in the entries.
pub entry_of-seq :
    (s : HealthStore) (n : ℕ) (j : String) → entry_of (record s { token_seq = n }) j ≡ entry_of s j
unfolding entry_of
entry_of-seq s n j = refl

-- Does `allow_call` hand out a probe at an entry?
abbrev pub probes : ℕ → HealthEntry → Bool
probes now e = elim e.state [
  | closed ↦ false
  | opened ↦ not (ltb now e.open_until)
  | half_open ↦ e.half_open_token == 0
]

-- The store after `allow_call`.
pub allow_call-store :
    (now : ℕ) (m : String) (s : HealthStore)
    → (allow_call now m s).1 ≡ (
        if probes now (entry_of s m)
        then set_entry m
            (record (entry_of s m) { state = half_open; half_open_token = s.token_seq + 1 })
            (record (set_entry m (entry_of s m) s) { token_seq = s.token_seq + 1 })
        else set_entry m (entry_of s m) s)
unfolding allow_call set_entry
allow_call-store now m s = ground arith

-- The answer of `allow_call`: refused, a plain permit, or a probe with the next token.
pub allow_call-permit :
    (now : ℕ) (m : String) (s : HealthStore)
    → (allow_call now m s).0 ≡ (
        if probes now (entry_of s m)
        then some (record { model_id = m; token = s.token_seq + 1 })
        else elim (entry_of s m).state [
          | closed ↦ some (record { model_id = m; token = 0 })
          | _ ↦ none
        ])
unfolding allow_call set_entry
allow_call-permit now m s = ground arith

-- `is_unavailable` leaves every later answer as it was.
pub is_unavailable_keeps :
    (now later : ℕ) (m j : String) (s : HealthStore)
    → (is_unavailable later j (is_unavailable now m s).1).0 ≡ (is_unavailable later j s).0
unfolding is_unavailable
is_unavailable_keeps now later m j s = rw entry_of-set_same
