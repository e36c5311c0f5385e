-- ===== src/Idempotency/Worker/Once.antt =====
-- A task whose work succeeded is not worked on again, one whose work failed is.
use rag_agent.Prelude.{
  ℕ, ◌+◌, ◌<◌, String, eq_refl, ◌≡◌, refl, sym, ap, subst, ◌∙◌, true, none, some, arith,
}
use rag_agent.Dict
use rag_agent.Dict.{get-put}
use rag_agent.Idempotency.Keys.{Keys, read, set, delete, Held, read-Held, set-Held, get-delete}
use rag_agent.Idempotency.Locks.{
  ConsumeMarks, first_run, consumed, mark_key, running_mark, try_begin, mark_consumed, rollback,
  pop_token,
}
use rag_agent.Idempotency.Worker.{
  Outcome, returned, raised, finished, skipped, work_raised, Process, Reachable, begin_task,
  end_task, run_task, go_on, handle,
}

consumed_keys :
    (later : ℕ) (b token : String) (ends : ℕ) (m : ConsumeMarks) (s : Keys)
    → Held (mark_key m b) (running_mark token) ends s
    → later < ends
    → Dict.get b m.tokens ≡ some token
    → mark_consumed later b m s
      ≡ (true, pop_token b m, set (later + m.consumed_ms) (mark_key m b) "1" s)
unfolding mark_consumed
consumed_keys later b token ends m s h p g =
    rw (g, read-Held later (mark_key m b) (running_mark token) ends s h p, mark_consumed)
      (rw (eq_refl (running_mark token)) refl)

rolled_back_keys :
    (later : ℕ) (b token : String) (ends : ℕ) (m : ConsumeMarks) (s : Keys)
    → Held (mark_key m b) (running_mark token) ends s
    → later < ends
    → Dict.get b m.tokens ≡ some token
    → rollback later b m s ≡ (true, pop_token b m, delete (mark_key m b) s)
unfolding rollback
rolled_back_keys later b token ends m s h p g =
    rw (g, read-Held later (mark_key m b) (running_mark token) ends s h p, rollback)
      (rw (eq_refl (running_mark token)) refl)

begin_consumed :
    (now : ℕ) (t b : String) (ends : ℕ) (m : ConsumeMarks) (s : Keys)
    → Held (mark_key m b) "1" ends s
    → now < ends
    → try_begin now t b m s ≡ (some consumed, m, s)
unfolding try_begin
begin_consumed now t b ends m s h p =
    rw (read-Held now (mark_key m b) "1" ends s h p, try_begin) refl

module _ {D : Type 0} (work : Keys → D → Outcome × Keys × D) (now later : ℕ) (token b : String)
    (p : Process D) where
  -- the keys with which the work begins
  abbrev pub begun_keys : Keys
  begun_keys = set (now + p.marks.consuming_ms) (mark_key p.marks b) (running_mark token) p.keys

  -- what the run leaves when its work has ended
  abbrev pub owner : ConsumeMarks
  owner = record p.marks { tokens = Dict.put b token p.marks.tokens }

  begin_free :
      read now (mark_key p.marks b) p.keys ≡ none
      → try_begin now token b p.marks p.keys ≡ (some first_run, owner, begun_keys)
  unfolding try_begin
  begin_free r = rw (r, try_begin) refl

  handle-first :
      (o : Outcome) (s : Keys) (d : D)
      → read now (mark_key p.marks b) p.keys ≡ none
      → work begun_keys p.domain ≡ (o, s, d)
      → handle work true true now later token b p
        ≡ end_task true true later b o (record { marks = owner; keys = s; domain = d })
  unfolding handle begin_task go_on run_task
  handle-first o s d r e =
      ap (λ x. go_on work true later b x.0 (record { marks = x.1; keys = x.2; domain = p.domain }))
        (begin_free r)
      ∙ ap
          (λ y. end_task true true later b y.0 (record { marks = owner; keys = y.1; domain = y.2 }))
          e

  abbrev finished_process : Keys → D → Process D
  finished_process s d = record {
    marks = pop_token b owner;
    keys = set (later + p.marks.consumed_ms) (mark_key p.marks b) "1" s;
    domain = d;
  }

  has_token : Dict.get b owner.tokens ≡ some token
  has_token = ground (arith, get-put b b token p.marks.tokens, eq_refl b)

  finish_returned :
      (s : Keys) (d : D)
      → Held (mark_key p.marks b) (running_mark token) (now + p.marks.consuming_ms) s
      → later < now + p.marks.consuming_ms
      → end_task true true later b returned (record { marks = owner; keys = s; domain = d })
        ≡ (finished, finished_process s d)
  unfolding end_task
  finish_returned s d h q =
      ap (λ x. (finished, record { marks = x.1; keys = x.2; domain = d }))
        (consumed_keys later b token (now + p.marks.consuming_ms) owner s h q has_token)

  skip_consumed :
      (again after : ℕ) (other : String) (up : Reachable)
      → again < later + p.marks.consumed_ms
      → (s : Keys) (d : D)
      → handle work true up again after other b (finished_process s d)
        ≡ (skipped, finished_process s d)
  unfolding handle begin_task go_on
  skip_consumed again after other up l s d =
      ap (λ x. go_on work up after b x.0 (record { marks = x.1; keys = x.2; domain = d }))
        (begin_consumed again other b (later + p.marks.consumed_ms) (pop_token b owner)
          (finished_process s d).keys
          (set-Held (mark_key p.marks b) "1" (later + p.marks.consumed_ms) s) l)

  -- The work of an event runs once: with its mark free, and the work done while the mark is still
  -- there, the task is finished, and a later delivery of the event to the process, while the consumed
  -- mark lasts, is skipped and changes nothing.
  pub handle_once :
      (s : Keys) (d : D) (again after : ℕ) (other : String) (up : Reachable)
      → read now (mark_key p.marks b) p.keys ≡ none
      → work begun_keys p.domain ≡ (returned, s, d)
      → Held (mark_key p.marks b) (running_mark token) (now + p.marks.consuming_ms) s
      → later < now + p.marks.consuming_ms
      → again < later + p.marks.consumed_ms
      → ((handle work true true now later token b p).0 ≡ finished)
        × (handle work true up again after other b (handle work true true now later token b p).1
            ≡ (skipped, (handle work true true now later token b p).1))
  handle_once s d again after other up r e h q l =
      let f = handle-first returned s d r e ∙ finish_returned s d h q in
      (
        ap (λ x. x.0) f,
        subst (λ x. handle work true up again after other b x ≡ (skipped, x))
            (sym (ap (λ x. x.1) f)) (skip_consumed again after other up l s d),
      )

  abbrev failed_process : Keys → D → Process D
  failed_process s d = record {
    marks = pop_token b owner;
    keys = delete (mark_key p.marks b) s;
    domain = d;
  }

  finish_raised :
      (s : Keys) (d : D)
      → Held (mark_key p.marks b) (running_mark token) (now + p.marks.consuming_ms) s
      → later < now + p.marks.consuming_ms
      → end_task true true later b raised (record { marks = owner; keys = s; domain = d })
        ≡ (work_raised, failed_process s d)
  unfolding end_task
  finish_raised s d h q =
      ap (λ x. (work_raised, record { marks = x.1; keys = x.2; domain = d }))
        (rolled_back_keys later b token (now + p.marks.consuming_ms) owner s h q has_token)

  free_again :
      (again : ℕ) (other : String) (s : Keys)
      → (try_begin again other b (pop_token b owner) (delete (mark_key p.marks b) s)).0
        ≡ some first_run
  unfolding try_begin read
  free_again again other s =
      ground (
        arith,
        get-delete (mark_key p.marks b) (mark_key p.marks b) s,
        eq_refl (mark_key p.marks b),
      )

  -- A task whose work raises can be tried again at once: with its mark free, and the work ended while
  -- the mark is still there, `handle` raises what the work raised and gives the mark back, and any
  -- later begin is the first run again.
  pub handle_retry :
      (s : Keys) (d : D) (again : ℕ) (other : String)
      → read now (mark_key p.marks b) p.keys ≡ none
      → work begun_keys p.domain ≡ (raised, s, d)
      → Held (mark_key p.marks b) (running_mark token) (now + p.marks.consuming_ms) s
      → later < now + p.marks.consuming_ms
      → ((handle work true true now later token b p).0 ≡ work_raised)
        × ((try_begin again other b
              (handle work true true now later token b p).1.marks
              (handle work true true now later token b p).1.keys).0
            ≡ some first_run)
  handle_retry s d again other r e h q =
      let f = handle-first raised s d r e ∙ finish_raised s d h q in
      (
        ap (λ x. x.0) f,
        subst (λ x. (try_begin again other b x.marks x.keys).0 ≡ some first_run)
            (sym (ap (λ x. x.1) f)) (free_again again other s),
      )
