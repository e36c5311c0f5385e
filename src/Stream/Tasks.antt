-- ===== src/Stream/Tasks.antt =====
-- `StreamTaskManager` of app/framework/stream_tasks.py. A section that an entry's lock guards holds no
-- wait, so each method changes the table in one step; the callbacks that it then runs, which may raise
-- without harm, are returned in order with the label that `_run` logs. Times are in seconds.
pub mod Table
pub mod Once
pub mod Orders
use rag_agent.Prelude.{
  ℕ, ◌+◌, max, String, Bool, true, false, not, ◌&&◌, Option, none, some, List, [], ◌∷◌, ◌==◌, ltb,
  leb, length, if◌then◌else◌,
}
use rag_agent.Dict.{get, put, remove}

-- `A` is the type of the callbacks
pub record TaskEntry (A : Type 0) : Type 0 where
  pub user_id : ℕ
  pub created_at : ℕ
  pub finalizer : A
  pub cancel_action : Option A
  pub cancelled : Bool

pub record StreamTaskManager (A : Type 0) : Type 0 where
  pub entries : List (String × TaskEntry A)
  pub max_entries : ℕ
  pub ttl_seconds : ℕ

-- a callback that was run, by its label
pub data Ran (A : Type 0) : Type 0 where
  late_cancel_action : A → Ran A
  cancel_action : A → Ran A
  cancel_finalizer : A → Ran A

module _ {A : Type 0} where
  unfoldable pub init : ℕ → ℕ → StreamTaskManager A
  init max_entries ttl_seconds = record {
    entries = [];
    max_entries = max 1 max_entries;
    ttl_seconds = max 1 ttl_seconds;
  }

  abbrev pub set_entries : List (String × TaskEntry A) → StreamTaskManager A → StreamTaskManager A
  set_entries d m = record m { entries = d }

  abbrev pub is_expired : ℕ → ℕ → TaskEntry A → Bool
  is_expired now ttl e = ltb (e.created_at + ttl) now

  unfoldable pub prune_entries : ℕ → ℕ → List (String × TaskEntry A) → List (String × TaskEntry A)
  prune_entries now ttl [] = []
  prune_entries now ttl ((t, e) ∷ d) =
      let rest = prune_entries now ttl d in if is_expired now ttl e then rest else (t, e) ∷ rest

  unfoldable pub prune : ℕ → StreamTaskManager A → StreamTaskManager A
  prune now m = set_entries (prune_entries now m.ttl_seconds m.entries) m

  -- `min(entries, key=created_at)`: the first of the least
  unfoldable pub oldest_from : String → ℕ → List (String × TaskEntry A) → String
  oldest_from t c [] = t
  oldest_from t c ((t', e) ∷ d) =
      if ltb e.created_at c then oldest_from t' e.created_at d else oldest_from t c d

  unfoldable pub evict : List (String × TaskEntry A) → List (String × TaskEntry A)
  evict [] = []
  evict ((t, e) ∷ d) = remove (oldest_from t e.created_at d) ((t, e) ∷ d)

  abbrev pub new_entry : ℕ → ℕ → A → TaskEntry A
  new_entry now user f = record {
    user_id = user;
    created_at = now;
    finalizer = f;
    cancel_action = none;
    cancelled = false;
  }

  -- `if len(entries) >= max_entries`
  abbrev pub make_room : ℕ → List (String × TaskEntry A) → List (String × TaskEntry A)
  make_room cap d = if leb cap (length d) then evict d else d

  unfoldable pub register : ℕ → String → ℕ → A → StreamTaskManager A → StreamTaskManager A
  register now task user f m =
      let d = prune_entries now m.ttl_seconds m.entries in
      set_entries (put task (new_entry now user f) (make_room m.max_entries d)) m

  abbrev pub ran_actions : Option A → List (Ran A) → List (Ran A)
  ran_actions none rest = rest
  ran_actions (some a) rest = cancel_action a ∷ rest

  unfoldable pub bind_cancel :
      String → A → StreamTaskManager A → Bool × (StreamTaskManager A × List (Ran A))
  bind_cancel task a m = elim (get task m.entries) [
    | none ↦ (false, (m, []))
    | some e ↦ (
      true,
      (
        set_entries (put task (record e { cancel_action = some a }) m.entries) m,
        if e.cancelled then late_cancel_action a ∷ [] else [],
      ),
    )
  ]

  -- `cancel` for the entry that it finds in the pruned table
  unfoldable pub cancel_found :
      String
      → ℕ
      → StreamTaskManager A
      → Option (TaskEntry A)
      → Bool × (StreamTaskManager A × List (Ran A))
  cancel_found task user m none = (false, (m, []))
  cancel_found task user m (some e) =
      if (e.user_id == user) && not e.cancelled
      then (
        true,
        (
          set_entries (put task (record e { cancelled = true }) m.entries) m,
          ran_actions e.cancel_action (cancel_finalizer e.finalizer ∷ []),
        ),
      )
      else (false, (m, []))

  unfoldable pub cancel :
      ℕ → String → ℕ → StreamTaskManager A → Bool × (StreamTaskManager A × List (Ran A))
  cancel now task user m = let m' = prune now m in cancel_found task user m' (get task m'.entries)

  unfoldable pub is_cancelled : String → StreamTaskManager A → Bool
  is_cancelled task m = elim (get task m.entries) [ none ↦ false | some e ↦ e.cancelled ]

  unfoldable pub unregister : String → StreamTaskManager A → StreamTaskManager A
  unregister task m = set_entries (remove task m.entries) m

  unfoldable pub owner : String → StreamTaskManager A → Option ℕ
  owner task m = elim (get task m.entries) [ none ↦ none | some e ↦ some e.user_id ]
