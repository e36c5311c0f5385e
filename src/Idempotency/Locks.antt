-- ===== src/Idempotency/Locks.antt =====
-- `SubmitLockExecutor` and `ConsumeMarkExecutor` of app/framework/idempotency.py. Each call of Redis
-- is one step; `token` is the identifier that is drawn. The tokens of a consume executor are those of
-- its process, the keys are shared.
use Prim.Native.String.{◌++◌ as text_append}
use text.Mathlib.Text.{starts_with}
use rag_agent.Prelude.{
  ℕ, ◌+◌, String, str_eq, Bool, true, false, ◌||◌, Option, none, some, List, if◌then◌else◌,
}
use rag_agent.Dict
use rag_agent.Idempotency.Keys.{Keys, read, set, delete}

-- what `redis.call('GET', key) == text` says
abbrev pub is_text : Option String → String → Bool
is_text none v = false
is_text (some w) v = str_eq w v

pub record SubmitLock : Type 0 where
  pub prefix : String
  pub ttl_ms : ℕ

abbrev pub lock_key : SubmitLock → String → String
lock_key e value = text_append e.prefix value

-- SET NX PX
unfoldable pub try_lock : SubmitLock → ℕ → String → String → Keys → Option String × Keys
try_lock e now token value s = elim (read now (lock_key e value) s) [
  | none ↦ (some token, set (now + e.ttl_ms) (lock_key e value) token s)
  | some _ ↦ (none, s)
]

-- UNLOCK
unfoldable pub unlock : SubmitLock → ℕ → String → String → Keys → Bool × Keys
unlock e now value token s =
    if is_text (read now (lock_key e value) s) token
    then (true, delete (lock_key e value) s)
    else (false, s)

pub data ConsumeState : Type 0 where
  first_run consuming consumed : ConsumeState

-- a process's executor; the times of its two markers are in milliseconds
pub record ConsumeMarks : Type 0 where
  pub prefix : String
  pub consuming_ms : ℕ
  pub consumed_ms : ℕ
  pub tokens : List (String × String)

abbrev pub mark_key : ConsumeMarks → String → String
mark_key m business_key = text_append m.prefix business_key

abbrev pub running_mark : String → String
running_mark token = text_append "0:" token

-- the answers of `try_begin` for a value that was there; `none` is its `RuntimeError`
abbrev pub state_of : String → Option ConsumeState
state_of v =
    if str_eq v "0" || starts_with v "0:"
    then some consuming
    else if str_eq v "1"
    then some consumed
    else none

unfoldable pub try_begin :
    ℕ → String → String → ConsumeMarks → Keys → Option ConsumeState × ConsumeMarks × Keys
try_begin now token business_key m s = elim (read now (mark_key m business_key) s) [
  | none ↦ (
    some first_run,
    record m { tokens = Dict.put business_key token m.tokens },
    set (now + m.consuming_ms) (mark_key m business_key) (running_mark token) s,
  )
  | some v ↦ (state_of v, m, s)
]

-- the token that a process has for a key, which is taken out
abbrev pub pop_token : String → ConsumeMarks → ConsumeMarks
pop_token business_key m = record m { tokens = Dict.remove business_key m.tokens }

-- MARK_CONSUMED
unfoldable pub mark_consumed : ℕ → String → ConsumeMarks → Keys → Bool × ConsumeMarks × Keys
mark_consumed now business_key m s = elim (Dict.get business_key m.tokens) [
  | none ↦ (false, m, s)
  | some token ↦
      if is_text (read now (mark_key m business_key) s) (running_mark token)
      then (
        true,
        pop_token business_key m,
        set (now + m.consumed_ms) (mark_key m business_key) "1" s,
      )
      else (false, pop_token business_key m, s)
]

-- ROLLBACK_CONSUME
unfoldable pub rollback : ℕ → String → ConsumeMarks → Keys → Bool × ConsumeMarks × Keys
rollback now business_key m s = elim (Dict.get business_key m.tokens) [
  | none ↦ (false, m, s)
  | some token ↦
      if is_text (read now (mark_key m business_key) s) (running_mark token)
      then (true, pop_token business_key m, delete (mark_key m business_key) s)
      else (false, pop_token business_key m, s)
]
