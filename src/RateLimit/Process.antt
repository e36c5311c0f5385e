-- ===== src/RateLimit/Process.antt =====
-- The waiters of `FairDistributedRateLimiter` in one process, app/rag/ratelimit/fair_limiter.py. A
-- future is named by a text; `futures` holds those whose `acquire` still runs. What stands between two
-- awaits of a method is one function here; the commands that it awaits are Claim's.
pub mod Steps
pub mod Futures
pub mod Losses
pub mod Ledger
pub mod Stopped
mod Examples
use rag_agent.Prelude.{
  ℕ, String, str_eq, Bool, true, false, not, ◌||◌, ◌&&◌, Option, none, some, List, [], ◌∷◌, ltb,
  leb, if◌then◌else◌,
}
use rag_agent.Dict.{get, put, remove}

pub data Future : Type 0 where
  waiting cancelled : Future
  result : Option String → Future

pub record Waiter : Type 0 where
  pub score : ℕ
  pub deadline : ℕ
  pub future : String

pub record Process : Type 0 where
  pub pending : List (String × Waiter)
  pub futures : List (String × Future)

-- a future whose `acquire` has ended is done
abbrev pub is_done : Option Future → Bool
is_done none = true
is_done (some waiting) = false
is_done (some cancelled) = true
is_done (some (result o)) = true

abbrev pub future_of : String → Process → Option Future
future_of f p = get f p.futures

abbrev pub set_future : String → Future → Process → Process
set_future f x p = record p { futures = put f x p.futures }

-- `create_future`
unfoldable pub create_future : String → Process → Process
create_future f p = set_future f waiting p

-- `self._pending[request_id] = _Waiter(...)`
unfoldable pub register : String → Waiter → Process → Process
register r w p = record p { pending = put r w p.pending }

-- of a waiter and the least of those behind it the one with the smaller score
abbrev pub lesser : String → Waiter → Option (String × Waiter) → Option (String × Waiter)
lesser r w none = some (r, w)
lesser r w (some (s, v)) = if ltb v.score w.score then some (s, v) else some (r, w)

-- `min(pending, key=score)` of the waiters whose future is not done: the first of the least
unfoldable pub next_waiter : List (String × Waiter) → Process → Option (String × Waiter)
next_waiter [] p = none
next_waiter ((r, w) ∷ ws) p =
    let rest = next_waiter ws p in if is_done (future_of w.future p) then rest else lesser r w rest

-- how `_dispatch_once` goes on: it returns, or asks Redis for the waiter
pub data Chosen : Type 0 where
  nothing_pending : Chosen
  expired : Process → Chosen
  chosen : String → Waiter → Chosen

unfoldable pub choose : ℕ → Process → Chosen
choose now p = elim (next_waiter p.pending p) [
  | none ↦ nothing_pending
  | some (r, w) ↦
      if leb w.deadline now then expired (set_future w.future (result none) p) else chosen r w
]

-- `current is waiter`: a waiter is told by its future
abbrev pub is_current : Option Waiter → Waiter → Bool
is_current none w = false
is_current (some v) w = str_eq v.future w.future

-- `_dispatch_once` behind the claim: whether the permit is released as an orphan
unfoldable pub deliver : ℕ → String → Waiter → String → Process → Bool × Process
deliver now r w permit p =
    let current = is_current (get r p.pending) w in
    let is_over = is_done (future_of w.future p) in
    if not current || is_over || leb w.deadline now
    then (true, if current && not is_over then set_future w.future (result none) p else p)
    else (false, set_future w.future (result (some permit)) p)

-- `granted is None and future.done() and not future.cancelled()`, after `future.cancel()` if it is
-- not done
abbrev pub orphan_of : Option String → Option Future → Option String
orphan_of granted none = none
orphan_of granted (some waiting) = none
orphan_of granted (some cancelled) = none
orphan_of none (some (result o)) = o
orphan_of (some g) (some (result o)) = none

-- The `finally` of `acquire` up to its awaits, and the orphan that it finds; the awaits behind it are
-- `finish` of Steps. The lock that it takes is never held across an await, so nothing interrupts it there.
-- The future goes with the `acquire`.
unfoldable pub end_acquire : String → String → Option String → Process → Option String × Process
end_acquire r f granted p = (
  orphan_of granted (future_of f p),
  record p { pending = remove r p.pending; futures = remove f p.futures },
)

-- what `asyncio.shield(future)` gives, once the future has a result
abbrev pub awaited : Option Future → Option (Option String)
awaited none = none
awaited (some waiting) = none
awaited (some cancelled) = none
awaited (some (result o)) = some o

-- the loop of `close` over the pending waiters
unfoldable pub close_waiters : List (String × Waiter) → Process → Process
close_waiters [] p = p
close_waiters ((r, w) ∷ ws) p =
    close_waiters ws
      (if is_done (future_of w.future p) then p else set_future w.future (result none) p)

unfoldable pub close : Process → Process
close p = close_waiters p.pending p
