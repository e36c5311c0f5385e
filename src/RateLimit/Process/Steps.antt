-- ===== src/RateLimit/Process/Steps.antt =====
-- A process's waiters and its dispatcher as a sequence of steps, with a ledger of the permits that
-- Redis has granted to it. A claim is granted when Redis runs its script: `holding` begins there, and the
-- answer may still be lost, by an exception or by `close`. The end of an `acquire`, with the awaits of
-- its clean-up, is one step: behind its first part it changes nothing that the process reads.
use rag_agent.Prelude.{ℕ, String, Bool, true, false, Option, none, some, List, [], ◌∷◌}
use rag_agent.RateLimit.Process.{
  Future, Waiter, Process, Chosen, nothing_pending, expired, chosen, future_of, awaited,
  create_future, register, choose, deliver, end_acquire, close,
}

-- Where `_dispatch` stands: `absent` before `start` and after `close`, `ended` by an exception.
pub data Dispatcher : Type 0 where
  absent idle ended : Dispatcher
  asking : String → Waiter → Dispatcher
  holding : String → Waiter → String → Dispatcher

-- the permits that were granted, that callers have got, that were given to `release`, and that are lost:
-- an ended dispatcher held them, or an `acquire` whose clean-up raised
pub record World : Type 0 where
  pub process : Process
  pub dispatcher : Dispatcher
  pub granted : List String
  pub returned : List String
  pub released : List String
  pub dropped : List String

-- how `await self._cleanup_waiter(…)` ends: `raises` is an error of Redis or a cancellation
pub data Cleanup : Type 0 where
  passes raises : Cleanup

pub data Act : Type 0 where
  starts : String → Act
  registers : String → Waiter → Act
  begins : ℕ → Act
  grants : Option String → Act
  settles : ℕ → Act
  wakes : Cleanup → String → String → Act
  gives_up : Cleanup → String → String → Act
  closes : Act
  fails : Act
  opens : Act

abbrev pub add : Option String → List String → List String
add none xs = xs
add (some x) xs = x ∷ xs

-- `acquire` starts with a new future
abbrev pub start_acquire : Option Future → String → World → World
start_acquire none f w = record w { process = create_future f w.process }
start_acquire (some x) f w = w

abbrev pub begin_with : Chosen → World → World
begin_with nothing_pending w = w
begin_with (expired p) w = record w { process = p }
begin_with (chosen r v) w = record w { dispatcher = asking r v }

-- `_dispatch_once` up to the claim, if the dispatcher is at its start
abbrev pub begin_dispatch : Dispatcher → ℕ → World → World
begin_dispatch idle now w = begin_with (choose now w.process) w
begin_dispatch absent now w = w
begin_dispatch ended now w = w
begin_dispatch (asking r v) now w = w
begin_dispatch (holding r v permit) now w = w

-- Redis runs the claim script, and its answer is on its way to the dispatcher
abbrev pub run_claim : Dispatcher → Option String → World → World
run_claim idle o w = w
run_claim absent o w = w
run_claim ended o w = w
run_claim (asking r v) none w = record w { dispatcher = idle }
run_claim (asking r v) (some permit) w = record w {
  dispatcher = holding r v permit;
  granted = permit ∷ w.granted;
}
run_claim (holding r v permit) o w = w

abbrev pub settle_with : String → Bool × Process → World → World
settle_with permit (true, p) w = record w {
  process = p;
  dispatcher = idle;
  released = permit ∷ w.released;
}
settle_with permit (false, p) w = record w { process = p; dispatcher = idle }

-- `_dispatch_once` behind the claim
abbrev pub settle_dispatch : Dispatcher → ℕ → World → World
settle_dispatch idle now w = w
settle_dispatch absent now w = w
settle_dispatch ended now w = w
settle_dispatch (asking r v) now w = w
settle_dispatch (holding r v permit) now w = settle_with permit (deliver now r v permit w.process) w

-- The end of an `acquire` that would return `granted`, with the orphan that it found. If the clean-up
-- raises, it returns nothing and releases nothing.
abbrev pub finish : Cleanup → Option String → Option String × Process → World → World
finish passes granted (orphan, p) w = record w {
  process = p;
  returned = add granted w.returned;
  released = add orphan w.released;
}
finish raises granted (orphan, p) w = record w {
  process = p;
  dropped = add orphan (add granted w.dropped);
}

-- the wait of `acquire` ends with the future's result
abbrev pub wake : Cleanup → Option (Option String) → String → String → World → World
wake c none r f w = w
wake c (some o) r f w = finish c o (end_acquire r f o w.process) w

-- an exception of `_dispatch_once`, which `_dispatch` does not catch; what it held is dropped
abbrev pub end_dispatcher : Dispatcher → World → World
end_dispatcher absent w = w
end_dispatcher idle w = record w { dispatcher = ended }
end_dispatcher ended w = w
end_dispatcher (asking r v) w = record w { dispatcher = ended }
end_dispatcher (holding r v permit) w = record w {
  dispatcher = ended;
  dropped = permit ∷ w.dropped;
}

-- `close`: the dispatcher is cancelled, and then the waiters
abbrev pub shut : World → World
shut w = record (end_dispatcher w.dispatcher w) { process = close w.process; dispatcher = absent }

-- `if self._dispatcher_task is None` of `start`
abbrev pub open_dispatcher : Dispatcher → World → World
open_dispatcher absent w = record w { dispatcher = idle }
open_dispatcher idle w = w
open_dispatcher ended w = w
open_dispatcher (asking r v) w = w
open_dispatcher (holding r v permit) w = w

unfoldable pub act : Act → World → World
act (starts f) w = start_acquire (future_of f w.process) f w
act (registers r v) w = record w { process = register r v w.process }
act (begins now) w = begin_dispatch w.dispatcher now w
act (grants o) w = run_claim w.dispatcher o w
act (settles now) w = settle_dispatch w.dispatcher now w
act (wakes c r f) w = wake c (awaited (future_of f w.process)) r f w
act (gives_up c r f) w = finish c none (end_acquire r f none w.process) w
act closes w = shut w
act fails w = end_dispatcher w.dispatcher w
act opens w = open_dispatcher w.dispatcher w

unfoldable pub run : List Act → World → World
run [] w = w
run (a ∷ acts) w = run acts (act a w)

abbrev pub new_world : World
new_world = record {
  process = record { pending = []; futures = [] };
  dispatcher = absent;
  granted = [];
  returned = [];
  released = [];
  dropped = [];
}
