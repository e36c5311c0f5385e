-- ===== src/RateLimit/Process/Losses.antt =====
-- How many permits a process loses.
use rag_agent.Prelude.{
  ℕ, ◌+◌, ◌≤◌, String, Bool, true, false, Option, none, some, List, [], ◌∷◌, arith, length, count,
  to_count, inl, inr, Option-cases,
}
use rag_agent.RateLimit.Process.{
  Future, waiting, cancelled, result, Process, Chosen, nothing_pending, expired, chosen, future_of,
  awaited, orphan_of, choose, deliver, end_acquire,
}
use rag_agent.RateLimit.Process.Steps.{
  passes, raises, Dispatcher, absent, idle, ended, asking, holding, World, Act, starts, registers,
  begins, grants, settles, wakes, gives_up, closes, fails, opens, add, begin_with, begin_dispatch,
  run_claim, settle_with, settle_dispatch, wake, end_dispatcher, open_dispatcher, act, run,
}

-- Losses are charged to the steps that may lose a permit.
abbrev pub loses : Act → Bool
loses fails = true
loses closes = true
loses (wakes raises r f) = true
loses (gives_up raises r f) = true
loses (starts f) = false
loses (registers r v) = false
loses (begins now) = false
loses (grants o) = false
loses (settles now) = false
loses (wakes passes r f) = false
loses (gives_up passes r f) = false
loses opens = false

abbrev pub Drops : ℕ → World → World → Type 0
Drops n w w' = length w'.dropped ≤ length w.dropped + n

length-orphan :
    (o : Option String) (x : Option Future) (d : List String)
    → length (add (orphan_of o x) (add o d)) ≤ length d + 1
length-orphan none none d = omega arith
length-orphan none (some waiting) d = omega arith
length-orphan none (some cancelled) d = omega arith
length-orphan none (some (result none)) d = omega arith
length-orphan none (some (result (some x))) d = omega arith
length-orphan (some g) none d = omega arith
length-orphan (some g) (some waiting) d = omega arith
length-orphan (some g) (some cancelled) d = omega arith
length-orphan (some g) (some (result o)) d = omega arith

wake-Drops :
    (o : Option (Option String)) (r f : String) (w : World)
    → Drops 0 w (wake passes o r f w) × Drops 1 w (wake raises o r f w)
unfolding end_acquire
wake-Drops none r f w = (omega arith, omega arith)
wake-Drops (some o) r f w = (omega arith, length-orphan o (future_of f w.process) w.dropped)

end_dispatcher-Drops : (d : Dispatcher) (w : World) → Drops 1 w (end_dispatcher d w)
end_dispatcher-Drops absent w = omega arith
end_dispatcher-Drops idle w = omega arith
end_dispatcher-Drops ended w = omega arith
end_dispatcher-Drops (asking r v) w = omega arith
end_dispatcher-Drops (holding r v permit) w = omega arith

act-Drops : (a : Act) (w : World) → Drops (to_count (loses a)) w (act a w)
unfolding act
act-Drops (starts f) w = elim (Option-cases (future_of f w.process)) [
  | inl e ↦ rw e (omega arith)
  | inr (x, e) ↦ rw e (omega arith)
]
act-Drops (registers r v) w = omega arith
act-Drops (begins now) w = begin w.dispatcher
  where
    begun : (c : Chosen) → Drops 0 w (begin_with c w)
    begun nothing_pending = omega arith
    begun (expired q) = omega arith
    begun (chosen r v) = omega arith

    begin : (d : Dispatcher) → Drops 0 w (begin_dispatch d now w)
    begin absent = omega arith
    begin idle = begun (choose now w.process)
    begin ended = omega arith
    begin (asking r v) = omega arith
    begin (holding r v permit) = omega arith
act-Drops (grants o) w = ran w.dispatcher o
  where
    ran : (d : Dispatcher) (x : Option String) → Drops 0 w (run_claim d x w)
    ran absent x = omega arith
    ran idle x = omega arith
    ran ended x = omega arith
    ran (asking r v) none = omega arith
    ran (asking r v) (some permit) = omega arith
    ran (holding r v permit) x = omega arith
act-Drops (settles now) w = settled w.dispatcher
  where
    settled : (d : Dispatcher) → Drops 0 w (settle_dispatch d now w)
    settled absent = omega arith
    settled idle = omega arith
    settled ended = omega arith
    settled (asking r v) = omega arith
    settled (holding r v permit) = put_down (deliver now r v permit w.process)
      where
        put_down : (x : Bool × Process) → Drops 0 w (settle_with permit x w)
        put_down (true, q) = omega arith
        put_down (false, q) = omega arith
act-Drops (wakes passes r f) w = (wake-Drops (awaited (future_of f w.process)) r f w).0
act-Drops (wakes raises r f) w = (wake-Drops (awaited (future_of f w.process)) r f w).1
act-Drops (gives_up passes r f) w = (wake-Drops (some none) r f w).0
act-Drops (gives_up raises r f) w = (wake-Drops (some none) r f w).1
act-Drops closes w = end_dispatcher-Drops w.dispatcher w
act-Drops fails w = end_dispatcher-Drops w.dispatcher w
act-Drops opens w = reopened w.dispatcher
  where
    reopened : (d : Dispatcher) → Drops 0 w (open_dispatcher d w)
    reopened absent = omega arith
    reopened idle = omega arith
    reopened ended = omega arith
    reopened (asking r v) = omega arith
    reopened (holding r v permit) = omega arith

pub run-Drops : (acts : List Act) (w : World) → Drops (count loses acts) w (run acts w)
unfolding run
run-Drops [] w = omega arith
run-Drops (a ∷ acts) w = omega (arith, act-Drops a w, run-Drops acts (act a w))
