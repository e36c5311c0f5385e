-- ===== src/RateLimit/Process/Ledger.antt =====
-- What becomes of the permits that Redis grants to a process.
use rag_agent.Prelude.{
  ℕ, ◌+◌, String, ◌≡◌, refl, ap, Bool, true, false, Option, none, some, List, [], ◌∷◌, arith,
  to_count, count, length, ◌≤◌, inl, inr, Option-cases,
}
use rag_agent.Dict.Size.{remove_absent}
use rag_agent.RateLimit.Process.{
  Future, waiting, cancelled, result, Waiter, Process, Chosen, nothing_pending, expired, chosen,
  future_of, awaited, orphan_of, create_future, register, choose, deliver, end_acquire, close,
}
use rag_agent.RateLimit.Process.Futures.{
  of_option, in_future, held, AreDistinct, Holds, Delivers, ChosenHolds, close_waiters-Holds,
  create_future-Holds, deliver-Delivers, end_acquire-Holds, choose-ChosenHolds,
}
use rag_agent.RateLimit.Process.Losses.{loses, run-Drops}
use rag_agent.RateLimit.Process.Steps.{
  Cleanup, passes, raises, Dispatcher, absent, idle, ended, asking, holding, World, Act, starts,
  registers, begins, grants, settles, wakes, gives_up, closes, fails, opens, add, start_acquire,
  begin_with, begin_dispatch, run_claim, settle_with, settle_dispatch, finish, wake, end_dispatcher,
  open_dispatcher, act, run, new_world,
}

-- `p` picks out the permits that are counted.
module _ (p : String → Bool) where
  abbrev pub in_hand : Dispatcher → ℕ
  in_hand absent = 0
  in_hand idle = 0
  in_hand ended = 0
  in_hand (asking r v) = 0
  in_hand (holding r v permit) = to_count (p permit)

  abbrev pub on_their_way : World → ℕ
  on_their_way w = in_hand w.dispatcher + held p w.process

  -- The permits that were granted are with callers, released, dropped or on their way.
  abbrev pub IsBalanced : World → Type 0
  IsBalanced w =
      AreDistinct w.process
      × (count p w.granted
          ≡ count p w.returned + count p w.released + count p w.dropped + on_their_way w)

  process-IsBalanced :
      (q : Process) (w : World)
      → Holds p 0 w.process q
      → IsBalanced w
      → IsBalanced (record w { process = q })
  process-IsBalanced q w h b = (h.1, omega (arith, h.0, b.1))

  start_acquire-IsBalanced :
      (f : String) (w : World)
      → IsBalanced w
      → IsBalanced (start_acquire (future_of f w.process) f w)
  start_acquire-IsBalanced f w b = elim (Option-cases (future_of f w.process)) [
    | inl e ↦ rw e (
        process-IsBalanced (create_future f w.process) w (create_future-Holds p f w.process e b.0)
          b)
    | inr (x, e) ↦ rw e b
  ]

  begin_with-IsBalanced :
      (c : Chosen) (w : World)
      → w.dispatcher ≡ idle
      → ChosenHolds p w.process c
      → IsBalanced w
      → IsBalanced (begin_with c w)
  begin_with-IsBalanced nothing_pending w i h b = b
  begin_with-IsBalanced (expired q) w i h b = process-IsBalanced q w h b
  begin_with-IsBalanced (chosen r v) w i h b = (b.0, omega (arith, b.1, ap in_hand i))

  begin_dispatch-IsBalanced :
      (d : Dispatcher) (now : ℕ) (w : World)
      → w.dispatcher ≡ d
      → IsBalanced w
      → IsBalanced (begin_dispatch d now w)
  begin_dispatch-IsBalanced idle now w i b =
      begin_with-IsBalanced (choose now w.process) w i (choose-ChosenHolds p now w.process b.0) b
  begin_dispatch-IsBalanced absent now w i b = b
  begin_dispatch-IsBalanced ended now w i b = b
  begin_dispatch-IsBalanced (asking r v) now w i b = b
  begin_dispatch-IsBalanced (holding r v permit) now w i b = b

  run_claim-IsBalanced :
      (d : Dispatcher) (o : Option String) (w : World)
      → w.dispatcher ≡ d
      → IsBalanced w
      → IsBalanced (run_claim d o w)
  run_claim-IsBalanced idle o w i b = b
  run_claim-IsBalanced absent o w i b = b
  run_claim-IsBalanced ended o w i b = b
  run_claim-IsBalanced (asking r v) none w i b = (b.0, omega (arith, b.1, ap in_hand i))
  run_claim-IsBalanced (asking r v) (some permit) w i b = (b.0, omega (arith, b.1, ap in_hand i))
  run_claim-IsBalanced (holding r v permit) o w i b = b

  settle_with-IsBalanced :
      (r : String) (v : Waiter) (permit : String) (x : Bool × Process) (w : World)
      → w.dispatcher ≡ holding r v permit
      → Delivers p (to_count (p permit)) w.process x
      → IsBalanced w
      → IsBalanced (settle_with permit x w)
  settle_with-IsBalanced r v permit (true, q) w i h b = (h.1, omega (arith, b.1, ap in_hand i, h.0))
  settle_with-IsBalanced r v permit (false, q) w i h b =
      (h.1, omega (arith, b.1, ap in_hand i, h.0))

  settle_dispatch-IsBalanced :
      (d : Dispatcher) (now : ℕ) (w : World)
      → w.dispatcher ≡ d
      → IsBalanced w
      → IsBalanced (settle_dispatch d now w)
  settle_dispatch-IsBalanced idle now w i b = b
  settle_dispatch-IsBalanced absent now w i b = b
  settle_dispatch-IsBalanced ended now w i b = b
  settle_dispatch-IsBalanced (asking r v) now w i b = b
  settle_dispatch-IsBalanced (holding r v permit) now w i b =
      settle_with-IsBalanced r v permit (deliver now r v permit w.process) w i
        (deliver-Delivers p now r v permit w.process b.0) b

  end_dispatcher-IsBalanced :
      (d : Dispatcher) (w : World)
      → w.dispatcher ≡ d
      → IsBalanced w
      → IsBalanced (end_dispatcher d w)
  end_dispatcher-IsBalanced absent w i b = b
  end_dispatcher-IsBalanced idle w i b = (b.0, omega (arith, b.1, ap in_hand i))
  end_dispatcher-IsBalanced ended w i b = b
  end_dispatcher-IsBalanced (asking r v) w i b = (b.0, omega (arith, b.1, ap in_hand i))
  end_dispatcher-IsBalanced (holding r v permit) w i b = (b.0, omega (arith, b.1, ap in_hand i))

  -- an ended dispatcher has nothing in its hand, and the process is as it was
  end_dispatcher_lem :
      (d : Dispatcher) (w : World)
      → w.dispatcher ≡ d
      → on_their_way (end_dispatcher d w) ≡ held p w.process
  end_dispatcher_lem absent w i = omega (arith, ap in_hand i)
  end_dispatcher_lem idle w i = omega arith
  end_dispatcher_lem ended w i = omega (arith, ap in_hand i)
  end_dispatcher_lem (asking r v) w i = omega arith
  end_dispatcher_lem (holding r v permit) w i = omega arith

  open_dispatcher-IsBalanced :
      (d : Dispatcher) (w : World)
      → w.dispatcher ≡ d
      → IsBalanced w
      → IsBalanced (open_dispatcher d w)
  open_dispatcher-IsBalanced absent w i b = (b.0, omega (arith, b.1, ap in_hand i))
  open_dispatcher-IsBalanced idle w i b = b
  open_dispatcher-IsBalanced ended w i b = b
  open_dispatcher-IsBalanced (asking r v) w i b = b
  open_dispatcher-IsBalanced (holding r v permit) w i b = b

  count-add :
      (o : Option String) (xs : List String) → count p (add o xs) ≡ of_option p o + count p xs
  count-add none xs = omega arith
  count-add (some x) xs = omega arith

  -- the end of an `acquire` that would return `o`, of a future that holds as much as it and its orphan
  finish-IsBalanced :
      (c : Cleanup) (o : Option String) (r f : String) (w : World) {x : Future}
      → future_of f w.process ≡ some x
      → of_option p o + of_option p (end_acquire r f o w.process).0 ≡ in_future p x
      → IsBalanced w
      → IsBalanced (finish c o (end_acquire r f o w.process) w)
  finish-IsBalanced passes o r f w {x} h e b =
      let q = end_acquire-Holds p r f o w.process {x = x} b.0 h in
      (
        q.1,
        omega (
          arith,
          b.1,
          q.0,
          e,
          count-add o w.returned,
          count-add (end_acquire r f o w.process).0 w.released,
        ),
      )
  finish-IsBalanced raises o r f w {x} h e b =
      let q = end_acquire-Holds p r f o w.process {x = x} b.0 h in
      (
        q.1,
        omega (
          arith,
          b.1,
          q.0,
          e,
          count-add o w.dropped,
          count-add (end_acquire r f o w.process).0 (add o w.dropped),
        ),
      )

  orphan_of-result :
      (o : Option String)
      → of_option p o + of_option p (orphan_of o (some (result o))) ≡ of_option p o
  orphan_of-result none = omega arith
  orphan_of-result (some x) = omega arith

  wake-IsBalanced :
      (c : Cleanup) (o : Option Future) (r f : String) (w : World)
      → future_of f w.process ≡ o
      → IsBalanced w
      → IsBalanced (wake c (awaited o) r f w)
  unfolding end_acquire
  wake-IsBalanced c none r f w h b = b
  wake-IsBalanced c (some waiting) r f w h b = b
  wake-IsBalanced c (some cancelled) r f w h b = b
  wake-IsBalanced c (some (result o)) r f w h b =
      finish-IsBalanced c o r f w {x = result o} h (rw h (orphan_of-result o)) b

  orphan_of-none : (x : Future) → of_option p (orphan_of none (some x)) ≡ in_future p x
  orphan_of-none waiting = refl
  orphan_of-none cancelled = refl
  orphan_of-none (result o) = refl

  give_up-IsBalanced :
      (c : Cleanup) (o : Option Future) (r f : String) (w : World)
      → future_of f w.process ≡ o
      → IsBalanced w
      → IsBalanced (finish c none (end_acquire r f none w.process) w)
  unfolding end_acquire
  give_up-IsBalanced passes none r f w h b = rw (h, remove_absent f w.process.futures h) b
  give_up-IsBalanced raises none r f w h b = rw (h, remove_absent f w.process.futures h) b
  give_up-IsBalanced c (some x) r f w h b =
      finish-IsBalanced c none r f w {x = x} h (rw h (omega (arith, orphan_of-none x))) b

  act-IsBalanced : (a : Act) (w : World) → IsBalanced w → IsBalanced (act a w)
  unfolding act register close
  act-IsBalanced (starts f) w b = start_acquire-IsBalanced f w b
  act-IsBalanced (registers r v) w b = b
  act-IsBalanced (begins now) w b = begin_dispatch-IsBalanced w.dispatcher now w refl b
  act-IsBalanced (grants o) w b = run_claim-IsBalanced w.dispatcher o w refl b
  act-IsBalanced (settles now) w b = settle_dispatch-IsBalanced w.dispatcher now w refl b
  act-IsBalanced (wakes c r f) w b = wake-IsBalanced c (future_of f w.process) r f w refl b
  act-IsBalanced (gives_up c r f) w b = give_up-IsBalanced c (future_of f w.process) r f w refl b
  act-IsBalanced closes w b =
      let e = end_dispatcher-IsBalanced w.dispatcher w refl b in
      let q = close_waiters-Holds p w.process.pending w.process b.0 in
      (q.1, omega (arith, e.1, q.0, end_dispatcher_lem w.dispatcher w refl))
  act-IsBalanced fails w b = end_dispatcher-IsBalanced w.dispatcher w refl b
  act-IsBalanced opens w b = open_dispatcher-IsBalanced w.dispatcher w refl b

  pub run_from-IsBalanced : (acts : List Act) (w : World) → IsBalanced w → IsBalanced (run acts w)
  unfolding run
  run_from-IsBalanced [] w b = b
  run_from-IsBalanced (a ∷ acts) w b = run_from-IsBalanced acts (act a w) (act-IsBalanced a w b)

-- Whatever the callers, the dispatcher and the closing of the limiter do, and in whatever order: of the
-- permits that Redis grants to a process each is with a caller, was given to `release`, is on its way in
-- the dispatcher or in a future that its caller has still to take, or is lost; of the permits that a
-- test picks out there are as many there as were granted. No more permits are lost than there were
-- exceptions of the dispatcher, calls of `close`, and ends of an `acquire` whose clean-up raised.
pub run-IsBalanced :
    (p : String → Bool) (acts : List Act)
    → let w = run acts new_world in
      (count p w.granted
        ≡ count p w.returned + count p w.released + count p w.dropped + on_their_way p w)
      × (length w.dropped ≤ count loses acts)
run-IsBalanced p acts =
    ((run_from-IsBalanced p acts new_world (tt, refl)).1, omega (arith, run-Drops acts new_world))
