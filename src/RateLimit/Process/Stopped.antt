-- ===== src/RateLimit/Process/Stopped.antt =====
-- An exception of a claim stops the process's dispatcher for good.
use rag_agent.Prelude.{
  String, ◌≡◌, ◌≢◌, refl, ap, sym, subst, ◌∙◌, Bool, true, false, Option, none, some, List, [], ◌∷◌,
  arith, All, inl, inr, Option-cases,
}
use rag_agent.Dict.Size.{remove_absent}
use rag_agent.RateLimit.Process.{
  Future, waiting, cancelled, result, future_of, awaited, register, end_acquire,
}
use rag_agent.RateLimit.Process.Futures.{
  of_option, held, AreDistinct, create_future-Holds, end_acquire-Holds,
}
use rag_agent.RateLimit.Process.Ledger.{run_from-IsBalanced}
use rag_agent.RateLimit.Process.Steps.{
  Cleanup, passes, raises, Dispatcher, absent, idle, ended, asking, holding, World, new_world, Act,
  starts, registers, begins, grants, settles, wakes, gives_up, closes, fails, opens, add,
  start_acquire, begin_dispatch, run_claim, settle_dispatch, finish, wake, end_dispatcher,
  open_dispatcher, act, run,
}

abbrev pub is_close : Act → Bool
is_close closes = true
is_close (starts f) = false
is_close (registers r v) = false
is_close (begins now) = false
is_close (grants o) = false
is_close (settles now) = false
is_close (wakes c r f) = false
is_close (gives_up c r f) = false
is_close fails = false
is_close opens = false

abbrev pub any : String → Bool
any permit = true

-- The dispatcher has ended, no future holds a permit, and so many were returned.
abbrev IsStopped : List String → World → Type 0
IsStopped l w =
    (w.dispatcher ≡ ended) × AreDistinct w.process × (held any w.process ≡ 0) × (w.returned ≡ l)

no_permit : (o : Option String) → of_option any o ≡ 0 → o ≡ none
no_permit none h = refl
no_permit (some x) h = absurd (omega (arith, h))

start_acquire-IsStopped :
    (l : List String) (f : String) (w : World)
    → IsStopped l w
    → IsStopped l (start_acquire (future_of f w.process) f w)
start_acquire-IsStopped l f w h = elim (Option-cases (future_of f w.process)) [
  | inl e ↦
      let c = create_future-Holds any f w.process e h.1 in
      rw e (h.0, c.1, omega (arith, c.0, h.2), h.3)
  | inr (x, e) ↦ rw e h
]

wake-IsStopped :
    (l : List String) (c : Cleanup) (o : Option Future) (r f : String) (w : World)
    → future_of f w.process ≡ o
    → IsStopped l w
    → IsStopped l (wake c (awaited o) r f w)
wake-IsStopped l c none r f w e h = h
wake-IsStopped l c (some waiting) r f w e h = h
wake-IsStopped l c (some cancelled) r f w e h = h
wake-IsStopped l passes (some (result o)) r f w e h =
    let c = end_acquire-Holds any r f o w.process {x = result o} h.1 e in
    (
      h.0,
      c.1,
      omega (arith, c.0, h.2),
      ap (λ x. add x w.returned) (no_permit o (omega (arith, c.0, h.2))) ∙ h.3,
    )
wake-IsStopped l raises (some (result o)) r f w e h =
    let c = end_acquire-Holds any r f o w.process {x = result o} h.1 e in
    (h.0, c.1, omega (arith, c.0, h.2), h.3)

give_up-IsStopped :
    (l : List String) (c : Cleanup) (o : Option Future) (r f : String) (w : World)
    → future_of f w.process ≡ o
    → IsStopped l w
    → IsStopped l (finish c none (end_acquire r f none w.process) w)
unfolding end_acquire
give_up-IsStopped l passes none r f w e h = rw (remove_absent f w.process.futures e) h
give_up-IsStopped l raises none r f w e h = rw (remove_absent f w.process.futures e) h
give_up-IsStopped l passes (some x) r f w e h =
    let c = end_acquire-Holds any r f none w.process {x = x} h.1 e in
    (h.0, c.1, omega (arith, c.0, h.2), h.3)
give_up-IsStopped l raises (some x) r f w e h =
    let c = end_acquire-Holds any r f none w.process {x = x} h.1 e in
    (h.0, c.1, omega (arith, c.0, h.2), h.3)

act-IsStopped :
    (l : List String) (a : Act) (w : World)
    → is_close a ≡ false
    → IsStopped l w
    → IsStopped l (act a w)
unfolding act register
act-IsStopped l (starts f) w n h = start_acquire-IsStopped l f w h
act-IsStopped l (registers r v) w n h = h
act-IsStopped l (begins now) w n h = subst (λ d. IsStopped l (begin_dispatch d now w)) (sym h.0) h
act-IsStopped l (grants o) w n h = subst (λ d. IsStopped l (run_claim d o w)) (sym h.0) h
act-IsStopped l (settles now) w n h = subst (λ d. IsStopped l (settle_dispatch d now w)) (sym h.0) h
act-IsStopped l (wakes c r f) w n h = wake-IsStopped l c (future_of f w.process) r f w refl h
act-IsStopped l (gives_up c r f) w n h = give_up-IsStopped l c (future_of f w.process) r f w refl h
act-IsStopped l closes w n h = absurd (cc)
act-IsStopped l fails w n h = subst (λ d. IsStopped l (end_dispatcher d w)) (sym h.0) h
act-IsStopped l opens w n h = subst (λ d. IsStopped l (open_dispatcher d w)) (sym h.0) h

run-IsStopped :
    (l : List String) (acts : List Act) (w : World)
    → All (λ a. is_close a ≡ false) acts
    → IsStopped l w
    → IsStopped l (run acts w)
unfolding run
run-IsStopped l [] w n h = h
run-IsStopped l (a ∷ acts) w n h = run-IsStopped l acts (act a w) n.1 (act-IsStopped l a w n.0 h)

fails-IsStopped :
    (d : Dispatcher) (w : World)
    → w.dispatcher ≡ d
    → d ≢ absent
    → AreDistinct w.process
    → held any w.process ≡ 0
    → IsStopped w.returned (end_dispatcher d w)
fails-IsStopped absent w i n d h = absurd (n refl)
fails-IsStopped idle w i n d h = (refl, d, h, refl)
fails-IsStopped ended w i n d h = (i, d, h, refl)
fails-IsStopped (asking r v) w i n d h = (refl, d, h, refl)
fails-IsStopped (holding r v permit) w i n d h = (refl, d, h, refl)

-- After any steps of a new process, an exception that comes while its dispatcher is there, and while no
-- future holds a permit, stops it: until `close` is called, no `acquire` returns a permit again,
-- however often `start` is called.
pub run-stopped :
    (before after : List Act)
    → (run before new_world).dispatcher ≢ absent
    → held any (run before new_world).process ≡ 0
    → All (λ a. is_close a ≡ false) after
    → (run after (act fails (run before new_world))).returned ≡ (run before new_world).returned
unfolding act
run-stopped before after s h n =
    let w = run before new_world in
    (run-IsStopped w.returned after (end_dispatcher w.dispatcher w) n (
      fails-IsStopped w.dispatcher w refl s (run_from-IsBalanced any before new_world (tt, refl)).0
        h)).3
