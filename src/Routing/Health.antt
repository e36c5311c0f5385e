-- ===== src/Routing/Health.antt =====
-- `ModelHealthStore` of app/model_runtime/routing.py: the circuit breaker of each model, with the
-- clock's reading as an argument of the methods that read it.
pub mod Laws
pub mod Calls
pub mod Invariant
pub mod Probe
pub mod Threshold
mod Examples
use rag_agent.Prelude.{
  ℕ, ◌+◌, String, Bool, true, false, not, Option, none, some, List, [], ltb, leb, ◌==◌,
  if◌then◌else◌,
}
use rag_agent.Dict

pub data CircuitState : Type 0 where
  closed opened half_open : CircuitState

pub record HealthEntry : Type 0 where
  pub state : CircuitState
  pub consecutive_failures : ℕ
  pub open_until : ℕ
  pub half_open_token : ℕ

pub record CallPermit : Type 0 where
  pub model_id : String
  pub token : ℕ

pub record HealthStore : Type 0 where
  pub failure_threshold : ℕ
  pub open_duration : ℕ
  pub entries : List (String × HealthEntry)
  pub token_seq : ℕ

abbrev pub is_probe : CallPermit → Bool
is_probe p = not (p.token == 0)

-- `_HealthEntry()`
abbrev pub fresh_entry : HealthEntry
fresh_entry = record {
  state = closed;
  consecutive_failures = 0;
  open_until = 0;
  half_open_token = 0;
}

-- the constructor; `none` is its `ValueError`
unfoldable pub init : ℕ → ℕ → Option HealthStore
init threshold duration =
    if leb threshold 0
    then none
    else if leb duration 0
    then none
    else some (record {
      failure_threshold = threshold;
      open_duration = duration;
      entries = [];
      token_seq = 0;
    })

abbrev pub entry_or_fresh : Option HealthEntry → HealthEntry
entry_or_fresh none = fresh_entry
entry_or_fresh (some e) = e

-- what a client sees of a model: a missing entry is a fresh one
unfoldable pub entry_of : HealthStore → String → HealthEntry
entry_of s m = entry_or_fresh (Dict.get m s.entries)

unfoldable pub set_entry : String → HealthEntry → HealthStore → HealthStore
set_entry m e s = record s { entries = Dict.put m e s.entries }

-- `_entry`: `setdefault` also stores the fresh entry
unfoldable pub entry : String → HealthStore → HealthEntry × HealthStore
entry m s = (entry_of s m, set_entry m (entry_of s m) s)

is_unavailable_entry : ℕ → HealthEntry → Bool
is_unavailable_entry now e = elim e.state [
  | closed ↦ false
  | opened ↦ ltb now e.open_until
  | half_open ↦ not (e.half_open_token == 0)
]

unfoldable pub is_unavailable : ℕ → String → HealthStore → Bool × HealthStore
unfolding is_unavailable_entry entry
is_unavailable now m s = let (e, s') = entry m s in (is_unavailable_entry now e, s')

-- `_token_seq += 1` and the new token in the entry, which is now HALF_OPEN
grant_probe : String → HealthEntry → HealthStore → Option CallPermit × HealthStore
grant_probe m e s =
    let token = s.token_seq + 1 in
    (
      some (record { model_id = m; token = token }),
      set_entry m (record e { state = half_open; half_open_token = token })
          (record s { token_seq = token }),
    )

allow_entry : ℕ → String → HealthEntry → HealthStore → Option CallPermit × HealthStore
unfolding grant_probe
allow_entry now m e s = elim e.state [
  | closed ↦ (some (record { model_id = m; token = 0 }), s)
  | opened ↦ if ltb now e.open_until then (none, s) else grant_probe m e s
  | half_open ↦ if not (e.half_open_token == 0) then (none, s) else grant_probe m e s
]

unfoldable pub allow_call : ℕ → String → HealthStore → Option CallPermit × HealthStore
unfolding allow_entry entry
allow_call now m s = let (e, s') = entry m s in allow_entry now m e s'

unfoldable pub mark_success : String → HealthStore → HealthStore
mark_success m s = set_entry m fresh_entry s

abbrev pub fail_entry : ℕ → ℕ → ℕ → HealthEntry → HealthEntry
fail_entry threshold duration now e = elim e.state [
  | half_open ↦ record e {
    state = opened;
    open_until = now + duration;
    consecutive_failures = 0;
    half_open_token = 0;
  }
  | opened ↦ e
  | closed ↦
      if leb threshold (e.consecutive_failures + 1)
      then record e { state = opened; open_until = now + duration; consecutive_failures = 0 }
      else record e { consecutive_failures = e.consecutive_failures + 1 }
]

unfoldable pub mark_failure : ℕ → String → HealthStore → HealthStore
unfolding entry
mark_failure now m s =
    let (e, s') = entry m s in set_entry m (fail_entry s.failure_threshold s.open_duration now e) s'

abbrev pub holds_token : ℕ → HealthEntry → Bool
holds_token token e = elim e.state [ half_open ↦ e.half_open_token == token | _ ↦ false ]

release_entry : CallPermit → HealthEntry → HealthStore → Bool × HealthStore
release_entry p e s =
    if holds_token p.token e
    then (true, set_entry p.model_id (record e { half_open_token = 0 }) s)
    else (false, s)

unfoldable pub release_half_open_permit : CallPermit → HealthStore → Bool × HealthStore
unfolding release_entry entry
release_half_open_permit p s =
    if not (is_probe p)
    then (false, s)
    else (let (e, s') = entry p.model_id s in release_entry p e s')

unfoldable pub snapshot : String → HealthStore → (CircuitState × ℕ × ℕ) × HealthStore
unfolding entry
snapshot m s = let (e, s') = entry m s in ((e.state, e.consecutive_failures, e.open_until), s')
