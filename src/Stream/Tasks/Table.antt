-- ===== src/Stream/Tasks/Table.antt =====
-- The table of tasks: its size, and the callbacks that are run.
use rag_agent.Prelude.{
  ℕ, suc, ◌≤◌, String, eq_iff, ◌≡◌, ◌⊎◌, refl, ap, Bool, true, false, Option, none, some, List, [],
  ◌∷◌, ◌++◌, ltb, length, if◌then◌else◌, arith, inl, inr, str_eq-cases, Option-cases,
}
use rag_agent.Dict.{get, put, remove}
use rag_agent.Stream.Tasks.{
  TaskEntry, StreamTaskManager, init, Ran, prune_entries, prune, oldest_from, evict, new_entry,
  make_room, register, bind_cancel, cancel_found, cancel, unregister,
}

-- The calls of a manager, with the time of those that read the clock.
pub data Call (A : Type 0) : Type 0 where
  registers : ℕ → String → ℕ → A → Call A
  binds : String → A → Call A
  cancels : ℕ → String → ℕ → Call A
  unregisters : String → Call A

module _ {A : Type 0} where
  unfoldable pub call : Call A → StreamTaskManager A → StreamTaskManager A × List (Ran A)
  call (registers now t u f) m = (register now t u f m, [])
  call (binds t a) m = (bind_cancel t a m).1
  call (cancels now t u) m = (cancel now t u m).1
  call (unregisters t) m = (unregister t m, [])

  -- the manager after the calls, and all that was run
  unfoldable pub calls : List (Call A) → StreamTaskManager A → StreamTaskManager A × List (Ran A)
  calls [] m = (m, [])
  calls (c ∷ cs) m = let (m', ran) = call c m in let (m'', more) = calls cs m' in (m'', ran ++ more)

  length-put :
      (t : String) (e : TaskEntry A) (d : List (String × TaskEntry A))
      → length (put t e d) ≤ suc (length d)
  unfolding put
  length-put t e [] = omega arith
  length-put t e ((s, x) ∷ d) = ground (arith, length-put t e d)

  length-put_held :
      (t : String) (e : TaskEntry A) (d : List (String × TaskEntry A)) {x : TaskEntry A}
      → get t d ≡ some x
      → length (put t e d) ≡ length d
  unfolding get put
  length-put_held t e [] h = absurd (cc)
  length-put_held t e ((s, y) ∷ d) {x} h = elim (str_eq-cases s t) [
    | inl (p, q) ↦ rw q refl
    | inr (p, q) ↦ rw q (ap suc (length-put_held t e d {x = x} (ground arith)))
  ]

  length-remove : (t : String) (d : List (String × TaskEntry A)) → length (remove t d) ≤ length d
  unfolding remove
  length-remove t [] = omega arith
  length-remove t ((s, x) ∷ d) = ground (arith, length-remove t d)

  length-prune :
      (now ttl : ℕ) (d : List (String × TaskEntry A)) → length (prune_entries now ttl d) ≤ length d
  unfolding prune_entries
  length-prune now ttl [] = omega arith
  length-prune now ttl ((s, x) ∷ d) = ground (arith, length-prune now ttl d)

  abbrev HasKey : String → List (String × TaskEntry A) → Type 0
  HasKey t [] = ⊥
  HasKey t ((s, x) ∷ d) = (s ≡ t) ⊎ HasKey t d

  length-remove_key :
      (t : String) (d : List (String × TaskEntry A))
      → HasKey t d
      → suc (length (remove t d)) ≤ length d
  unfolding remove
  length-remove_key t [] h = absurd h
  length-remove_key t ((s, x) ∷ d) (inl e) = ground (arith, eq_iff s t, length-remove t d)
  length-remove_key t ((s, x) ∷ d) (inr h) = ground (arith, length-remove_key t d h)

  if-HasKey :
      (b : Bool) (s t : String) (d : List (String × TaskEntry A))
      → HasKey s d
      → HasKey t d
      → HasKey (if b then s else t) d
  if-HasKey true s t d h k = h
  if-HasKey false s t d h k = k

  oldest-HasKey :
      (t : String) (c : ℕ) (e : TaskEntry A) (d : List (String × TaskEntry A))
      → HasKey (oldest_from t c d) ((t, e) ∷ d)
  unfolding oldest_from
  oldest-HasKey t c e [] = inl refl
  oldest-HasKey t c e ((s, x) ∷ d) =
      if-HasKey (ltb x.created_at c) (oldest_from s x.created_at d) (oldest_from t c d)
        ((t, e) ∷ (s, x) ∷ d) (inr (oldest-HasKey s x.created_at x d))
        (elim (oldest-HasKey t c e d) [ inl p ↦ inl p | inr p ↦ inr (inr p) ])

  length-make_room :
      (cap : ℕ) (d : List (String × TaskEntry A))
      → 1 ≤ cap
      → length d ≤ cap
      → suc (length (make_room cap d)) ≤ cap
  unfolding evict
  length-make_room cap [] h k = ground arith
  length-make_room cap ((t, e) ∷ d) h k = ground (
    arith,
    length-remove_key (oldest_from t e.created_at d) ((t, e) ∷ d)
        (oldest-HasKey t e.created_at e d),
  )

  -- The table has room for its entries.
  abbrev pub IsBounded : StreamTaskManager A → Type 0
  IsBounded m = (1 ≤ m.max_entries) × (length m.entries ≤ m.max_entries)

  cancel_found-IsBounded :
      (t : String) (u : ℕ) (m : StreamTaskManager A) (o : Option (TaskEntry A))
      → get t m.entries ≡ o
      → IsBounded m
      → IsBounded (cancel_found t u m o).1.0
  unfolding cancel_found
  cancel_found-IsBounded t u m none q h = h
  cancel_found-IsBounded t u m (some e) q h =
      ground (arith, length-put_held t (record e { cancelled = true }) m.entries {x = e} q)

  prune-IsBounded : (now : ℕ) (m : StreamTaskManager A) → IsBounded m → IsBounded (prune now m)
  unfolding prune
  prune-IsBounded now m h = ground (arith, length-prune now m.ttl_seconds m.entries)

  bind_cancel-IsBounded :
      (t : String) (a : A) (m : StreamTaskManager A)
      → IsBounded m
      → IsBounded (bind_cancel t a m).1.0
  unfolding bind_cancel
  bind_cancel-IsBounded t a m h = elim (Option-cases (get t m.entries)) [
    | inl q ↦ rw (q, bind_cancel) h
    | inr (e, q) ↦
        rw (q, bind_cancel)
          (
            h.0,
            omega (
              arith,
              length-put_held t (record e { cancel_action = some a }) m.entries {x = e} q,
            ),
          )
  ]

  call-IsBounded : (c : Call A) (m : StreamTaskManager A) → IsBounded m → IsBounded (call c m).0
  unfolding call
  call-IsBounded (registers now t u f) m h =
      let d = prune_entries now m.ttl_seconds m.entries in
      unfold register in
      (
        h.0,
        omega (
          arith,
          length-prune now m.ttl_seconds m.entries,
          length-put t (new_entry now u f) (make_room m.max_entries d),
          length-make_room m.max_entries d h.0,
        ),
      )
  call-IsBounded (binds t a) m h = bind_cancel-IsBounded t a m h
  call-IsBounded (cancels now t u) m h =
      unfold cancel in cancel_found-IsBounded t u (prune now m) _ refl (prune-IsBounded now m h)
  call-IsBounded (unregisters t) m h =
      unfold unregister in (h.0, omega (arith, length-remove t m.entries))

  calls_any-IsBounded :
      (cs : List (Call A)) (m : StreamTaskManager A) → IsBounded m → IsBounded (calls cs m).0
  unfolding calls
  calls_any-IsBounded [] m h = h
  calls_any-IsBounded (c ∷ cs) m h = calls_any-IsBounded cs (call c m).0 (call-IsBounded c m h)

  -- In whatever order a new manager's methods are called, it never holds more tasks than its limit, or
  -- than one if that is zero.
  calls-IsBounded :
      (cs : List (Call A)) (max_entries ttl_seconds : ℕ)
      → length (calls cs (init max_entries ttl_seconds)).0.entries
        ≤ (calls cs (init max_entries ttl_seconds)).0.max_entries
  calls-IsBounded cs max_entries ttl_seconds =
      (calls_any-IsBounded cs (init max_entries ttl_seconds)
        (unfold init in (omega arith, omega arith))).1
