-- ===== src/Stream/Tasks/Once.antt =====
-- A finalizer is run at most once for each time it is registered.
use rag_agent.Prelude.{
  to_count, ℕ, ◌+◌, ◌≤◌, String, ◌≡◌, refl, Bool, true, false, not, ◌&&◌, Option, none, some, List,
  [], ◌∷◌, ◌++◌, ◌==◌, if◌then◌else◌, arith, inl, inr, Bool-cases, Option-cases,
}
use rag_agent.Dict.Total.{total, total-put_new, total-put_held, total-remove}
use rag_agent.Dict.{get, put}
use rag_agent.Stream.Tasks.{
  TaskEntry, StreamTaskManager, init, Ran, late_cancel_action, cancel_action, cancel_finalizer,
  is_expired, prune_entries, prune, oldest_from, evict, new_entry, make_room, ran_actions, register,
  bind_cancel, cancel_found, cancel, unregister,
}
use rag_agent.Stream.Tasks.Table.{Call, registers, binds, cancels, unregisters, call, calls}

to_run_live : (b : Bool) → to_count (b && not false) ≡ to_count b
to_run_live true = refl
to_run_live false = refl

to_run_dead : (b : Bool) → to_count (b && not true) ≡ 0
to_run_dead true = refl
to_run_dead false = refl

-- `p` picks out the finalizers that are counted.
module _ {A : Type 0} (p : A → Bool) where
  abbrev pub finalizers_run : List (Ran A) → ℕ
  finalizers_run [] = 0
  finalizers_run (late_cancel_action a ∷ ran) = finalizers_run ran
  finalizers_run (cancel_action a ∷ ran) = finalizers_run ran
  finalizers_run (cancel_finalizer a ∷ ran) = to_count (p a) + finalizers_run ran

  abbrev pub registered : List (Call A) → ℕ
  registered [] = 0
  registered (registers now t u f ∷ cs) = to_count (p f) + registered cs
  registered (binds t a ∷ cs) = registered cs
  registered (cancels now t u ∷ cs) = registered cs
  registered (unregisters t ∷ cs) = registered cs

  registered-cons :
      (c : Call A) (cs : List (Call A)) → registered (c ∷ cs) ≡ registered (c ∷ []) + registered cs
  registered-cons (registers now t u f) cs = omega arith
  registered-cons (binds t a) cs = omega arith
  registered-cons (cancels now t u) cs = omega arith
  registered-cons (unregisters t) cs = omega arith

  abbrev to_run : TaskEntry A → ℕ
  to_run e = to_count (p e.finalizer && not e.cancelled)

  -- how many may still be run
  abbrev live : List (String × TaskEntry A) → ℕ
  live d = total to_run d

  live-put :
      (t : String) (e : TaskEntry A) (d : List (String × TaskEntry A))
      → live (put t e d) ≤ to_run e + live d
  live-put t e d = elim (Option-cases (get t d)) [
    | inl q ↦ omega (arith, total-put_new to_run t e d q)
    | inr (x, q) ↦ omega (arith, total-put_held to_run t e d {x = x} q)
  ]

  live-prune :
      (now ttl : ℕ) (d : List (String × TaskEntry A)) → live (prune_entries now ttl d) ≤ live d
  unfolding prune_entries
  live-prune now ttl [] = omega arith
  live-prune now ttl ((s, x) ∷ d) = elim (Bool-cases (is_expired now ttl x)) [
    | inl q ↦ rw (q, prune_entries) (omega (arith, live-prune now ttl d))
    | inr q ↦ rw (q, prune_entries) (omega (arith, live-prune now ttl d))
  ]

  live-make_room : (cap : ℕ) (d : List (String × TaskEntry A)) → live (make_room cap d) ≤ live d
  unfolding evict
  live-make_room cap [] = ground arith
  live-make_room cap ((t, e) ∷ d) =
      ground (arith, total-remove to_run (oldest_from t e.created_at d) ((t, e) ∷ d))

  finalizers_run-append :
      (a b : List (Ran A)) → finalizers_run (a ++ b) ≡ finalizers_run a + finalizers_run b
  finalizers_run-append [] b = omega arith
  finalizers_run-append (late_cancel_action x ∷ a) b = finalizers_run-append a b
  finalizers_run-append (cancel_action x ∷ a) b = finalizers_run-append a b
  finalizers_run-append (cancel_finalizer x ∷ a) b = omega (arith, finalizers_run-append a b)

  -- What the step runs and leaves to be run was there before, or is registered by it.
  abbrev IsCovered : ℕ → StreamTaskManager A → StreamTaskManager A × List (Ran A) → Type 0
  IsCovered n m (m', ran) = finalizers_run ran + live m'.entries ≤ n + live m.entries

  finalizers_run-ran_actions :
      (o : Option A) (f : A)
      → finalizers_run (ran_actions o (cancel_finalizer f ∷ [])) ≡ to_count (p f)
  finalizers_run-ran_actions none f = omega arith
  finalizers_run-ran_actions (some a) f = omega arith

  finalizers_run-late :
      (b : Bool) (a : A) → finalizers_run (if b then late_cancel_action a ∷ [] else []) ≡ 0
  finalizers_run-late true a = refl
  finalizers_run-late false a = refl

  cancel_found-IsCovered :
      (t : String) (u : ℕ) (m : StreamTaskManager A) (o : Option (TaskEntry A))
      → get t m.entries ≡ o
      → IsCovered 0 m (cancel_found t u m o).1
  unfolding cancel_found
  cancel_found-IsCovered t u m none q = omega arith
  cancel_found-IsCovered t u m (some e) q =
      elim (Bool-cases ((e.user_id == u) && not e.cancelled)) [
        | inl h ↦
            let c : e.cancelled ≡ false = ground arith in
            let g : to_run e ≡ to_count (p e.finalizer) = rw c (to_run_live (p e.finalizer)) in
            rw (h, cancel_found)
              (omega (
                arith,
                total-put_held to_run t (record e { cancelled = true }) m.entries {x = e} q,
                g,
                to_run_dead (p e.finalizer),
                finalizers_run-ran_actions e.cancel_action e.finalizer,
              ))
        | inr h ↦ rw (h, cancel_found) (omega arith)
      ]

  bind_cancel-IsCovered :
      (t : String) (a : A) (m : StreamTaskManager A) → IsCovered 0 m (bind_cancel t a m).1
  unfolding bind_cancel
  bind_cancel-IsCovered t a m = elim (Option-cases (get t m.entries)) [
    | inl q ↦ rw (q, bind_cancel) (omega arith)
    | inr (e, q) ↦
        rw (q, bind_cancel)
          (omega (
            arith,
            total-put_held to_run t (record e { cancel_action = some a }) m.entries {x = e} q,
            finalizers_run-late e.cancelled a,
          ))
  ]

  call-IsCovered :
      (c : Call A) (m : StreamTaskManager A) → IsCovered (registered (c ∷ [])) m (call c m)
  unfolding call
  call-IsCovered (registers now t u f) m =
      let d = prune_entries now m.ttl_seconds m.entries in
      unfold register in
      omega (
        arith,
        live-prune now m.ttl_seconds m.entries,
        live-put t (new_entry now u f) (make_room m.max_entries d),
        live-make_room m.max_entries d,
        to_run_live (p f),
      )
  call-IsCovered (binds t a) m = bind_cancel-IsCovered t a m
  call-IsCovered (cancels now t u) m =
      unfold cancel prune in
      omega (
        arith,
        cancel_found-IsCovered t u (prune now m) _ refl,
        live-prune now m.ttl_seconds m.entries,
      )
  call-IsCovered (unregisters t) m =
      unfold unregister in omega (arith, total-remove to_run t m.entries)

  calls-IsCovered :
      (cs : List (Call A)) (m : StreamTaskManager A) → IsCovered (registered cs) m (calls cs m)
  unfolding calls
  calls-IsCovered [] m = omega arith
  calls-IsCovered (c ∷ cs) m = omega (
    arith,
    call-IsCovered c m,
    calls-IsCovered cs (call c m).0,
    finalizers_run-append (call c m).1 (calls cs (call c m).0).1,
    registered-cons c cs,
  )

  -- In whatever order a new manager's methods are called, and however often a task is cancelled, the
  -- finalizers that a test picks out are run at most as often as such finalizers were registered.
  pub calls-finalizers_run :
      (cs : List (Call A)) (max_entries ttl_seconds : ℕ)
      → finalizers_run (calls cs (init max_entries ttl_seconds)).1 ≤ registered cs
  unfolding init
  calls-finalizers_run cs max_entries ttl_seconds =
      omega (arith, calls-IsCovered cs (init max_entries ttl_seconds))
