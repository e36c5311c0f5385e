-- ===== src/Stream/Tasks/Orders.antt =====
-- The cancel action may be bound before the cancellation or after it.
use rag_agent.Prelude.{
  ℕ, String, str_eq, eq_iff, ◌≡◌, refl, ap, ◌∙◌, Bool, true, false, some, List, [], ◌∷◌,
  if◌then◌else◌, arith, inl, inr, str_eq-cases,
}
use rag_agent.Dict.{get, put, get-put}
use rag_agent.Stream.Tasks.{
  TaskEntry, StreamTaskManager, Ran, late_cancel_action, cancel_action, cancel_finalizer,
  is_expired, prune_entries, prune, ran_actions, bind_cancel, cancel_found, cancel,
}

module _ {A : Type 0} where
  get-if :
      (b : Bool) (t s : String) (x : TaskEntry A) (d : List (String × TaskEntry A))
      → str_eq s t ≡ false
      → get t (if b then d else (s, x) ∷ d) ≡ get t d
  unfolding get
  get-if true t s x d q = refl
  get-if false t s x d q = rw q refl

  get-prune_entries :
      (now ttl : ℕ) (t : String) (d : List (String × TaskEntry A)) {e : TaskEntry A}
      → get t d ≡ some e
      → is_expired now ttl e ≡ false
      → get t (prune_entries now ttl d) ≡ some e
  unfolding get prune_entries
  get-prune_entries now ttl t [] h k = h
  get-prune_entries now ttl t ((s, x) ∷ d) {e} h k = elim (str_eq-cases s t) [
    | inl (_, q) ↦ let g : x ≡ e = ground arith in rw g (rw k (rw q refl))
    | inr (_, q) ↦
        get-if _ t s x (prune_entries now ttl d) q
        ∙ get-prune_entries now ttl t d {e = e} (ground arith) k
  ]

  pub get-put_same :
      (t : String) (e : TaskEntry A) (d : List (String × TaskEntry A)) → get t (put t e d) ≡ some e
  get-put_same t e d = ground (arith, get-put t t e d, eq_iff t t)

  module _ (now : ℕ) (task : String) (e : TaskEntry A) (m : StreamTaskManager A)
      (h : get task m.entries ≡ some e) (k : e.cancelled ≡ false)
      (l : is_expired now m.ttl_seconds e ≡ false) where
    pub cancel_lem : cancel now task e.user_id m ≡ (
      true,
      (
        record m {
          entries =
              put task (record e { cancelled = true }) (prune_entries now m.ttl_seconds m.entries);
        },
        ran_actions e.cancel_action (cancel_finalizer e.finalizer ∷ []),
      ),
    )
    unfolding cancel prune cancel_found
    cancel_lem =
        rw (get-prune_entries now m.ttl_seconds task m.entries {e = e} h l, cancel_found)
          (rw k (ground arith))

  -- a cancelled entry is not cancelled again
  cancel_again :
      (now : ℕ) (task : String) (user : ℕ) (e : TaskEntry A) (m : StreamTaskManager A)
      → get task m.entries ≡ some e
      → e.cancelled ≡ true
      → is_expired now m.ttl_seconds e ≡ false
      → cancel now task user m ≡ (false, (prune now m, []))
  unfolding cancel prune cancel_found
  cancel_again now task user e m h k l =
      rw (get-prune_entries now m.ttl_seconds task m.entries {e = e} h l, cancel_found)
        (rw k (ground arith))

  pub bind_cancel_lem :
      (task : String) (a : A) (e : TaskEntry A) (m : StreamTaskManager A)
      → get task m.entries ≡ some e
      → bind_cancel task a m ≡ (
        true,
        (
          record m { entries = put task (record e { cancel_action = some a }) m.entries },
          if e.cancelled then late_cancel_action a ∷ [] else [],
        ),
      )
  unfolding bind_cancel
  bind_cancel_lem task a e m h = rw (h, bind_cancel) refl

  -- An owner's cancellation of a task that is there, not cancelled and not expired runs the bound cancel
  -- action, if any, and then the finalizer. An action that is bound before it is run by it, an action
  -- that is bound after it is run at once, and a further cancellation, before the task expires, runs
  -- nothing and answers no.
  cancel-bind_cancel :
      (now later : ℕ) (task : String) (a : A) (user : ℕ) (e : TaskEntry A) (m : StreamTaskManager A)
      → get task m.entries ≡ some e
      → e.cancelled ≡ false
      → is_expired now m.ttl_seconds e ≡ false
      → is_expired later m.ttl_seconds e ≡ false
      → let bound = (bind_cancel task a m).1.0 in
        let m' = (cancel now task e.user_id m).1.0 in
        ((cancel now task e.user_id m).1.1
          ≡ ran_actions e.cancel_action (cancel_finalizer e.finalizer ∷ []))
        × ((cancel now task e.user_id bound).1.1
            ≡ cancel_action a ∷ cancel_finalizer e.finalizer ∷ [])
        × ((bind_cancel task a m').1.1 ≡ late_cancel_action a ∷ [])
        × (cancel later task user m' ≡ (false, (prune later m', [])))
  cancel-bind_cancel now later task a user e m h k l l' =
      let e' : TaskEntry A = record e { cancelled = true } in
      let b : TaskEntry A = record e { cancel_action = some a } in
      let d = prune_entries now m.ttl_seconds m.entries in
      rw (cancel_lem now task e m h k l, bind_cancel_lem task a e m h)
        (
          refl,
          ap (λ (r : Bool × (StreamTaskManager A × List (Ran A))). r.1.1)
              (cancel_lem now task b (record m { entries = put task b m.entries })
                (get-put_same task b m.entries) k l),
          ap (λ (r : Bool × (StreamTaskManager A × List (Ran A))). r.1.1)
              (bind_cancel_lem task a e' (record m { entries = put task e' d })
                (get-put_same task e' d)),
          cancel_again later task user e' (record m { entries = put task e' d })
              (get-put_same task e' d) refl l',
        )
