-- ===== src/RateLimit/Semaphore.antt =====
-- `PermitExpirableSemaphore` of app/rag/ratelimit/semaphore.py with its Lua scripts. The state is
-- what Redis holds under the semaphore's keys: the counter, and the sorted set of the permits with
-- the times at which their leases end. Times and leases are in milliseconds.
pub mod Capacity
mod Examples
use rag_agent.Prelude.{
  ℕ, ◌+◌, ◌-◌, String, Bool, true, false, Option, none, some, List, [], ◌∷◌, length, leb, ltb, ◌==◌,
  if◌then◌else◌,
}
use rag_agent.Dict

pub record Semaphore : Type 0 where
  pub counter : Option ℕ
  pub permits : List (String × ℕ)

-- what a Python method gives: an answer, or a `ValueError`
pub data Checked (A : Type 0) : Type 0 where
  answer : A → Checked A
  value_error : Checked A

-- `tonumber(redis.call('GET', key) or '0')`
unfoldable pub counter_of : Semaphore → ℕ
counter_of s = elim s.counter [ none ↦ 0 | some n ↦ n ]

-- the permits whose lease lasts beyond `now`
unfoldable pub live : ℕ → List (String × ℕ) → List (String × ℕ)
live now [] = []
live now ((id, ends) ∷ ps) =
    let rest = live now ps in if leb ends now then rest else (id, ends) ∷ rest

-- `#expired`: the members of ZRANGEBYSCORE -inf now
unfoldable pub expired_count : ℕ → List (String × ℕ) → ℕ
expired_count now [] = 0
expired_count now ((id, ends) ∷ ps) =
    let rest = expired_count now ps in if leb ends now then rest + 1 else rest

-- the first lines of the three scripts: ZREM of the expired permits and INCRBY of their number
unfoldable pub reclaim : ℕ → Semaphore → Semaphore
unfolding live expired_count counter_of
reclaim now s =
    if ltb 0 (expired_count now s.permits)
    then record {
      counter = some (counter_of s + expired_count now s.permits);
      permits = live now s.permits;
    }
    else s

-- INIT
unfoldable pub try_set_permits : ℕ → Semaphore → Checked Bool × Semaphore
try_set_permits permits s = if leb permits 0 then (value_error, s) else elim s.counter [
  | none ↦ (answer true, record s { counter = some permits })
  | some _ ↦ (answer false, s)
]

-- the lines of ACQUIRE behind the reclaiming
unfoldable pub take_permit : ℕ → String → Semaphore → Option String × Semaphore
unfolding counter_of
take_permit ends id s = if leb (counter_of s) 0 then (none, s) else (
  some id,
  record { counter = some (counter_of s - 1); permits = Dict.put id ends s.permits },
)

-- `id` is the new identifier, `now` the server's time
unfoldable pub try_acquire : ℕ → ℕ → String → Semaphore → Checked (Option String) × Semaphore
unfolding take_permit reclaim
try_acquire now lease id s =
    if leb lease 0
    then (value_error, s)
    else (let (granted, s') = take_permit (now + lease) id (reclaim now s) in (answer granted, s'))

unfoldable pub available_permits : ℕ → Semaphore → ℕ × Semaphore
unfolding reclaim counter_of
available_permits now s = let s' = reclaim now s in (counter_of s', s')

-- RELEASE
unfoldable pub try_release : String → Semaphore → Bool × Semaphore
unfolding counter_of
try_release id s = elim (Dict.get id s.permits) [
  | none ↦ (false, s)
  | some _ ↦
      (true, record { counter = some (counter_of s + 1); permits = Dict.remove id s.permits })
]
