-- ===== src/RateLimit/Claim.antt =====
-- The queue of `FairDistributedRateLimiter` in Redis, app/rag/ratelimit/fair_limiter.py: the sorted
-- set of the waiting requests, the entry key of each with its expiry, the sequence counter, and the
-- semaphore. The three awaits of an enqueue are separate operations, so that enqueues may interleave.
pub mod Grant
pub mod Sorted
pub mod Fifo
pub mod Progress
pub mod Permits
pub mod Interrupted
mod Examples
use Prim.Native.String.{◌++◌ as text_append}
use rag_agent.Prelude.{
  ℕ, zero, suc, ◌+◌, String, str_eq, Bool, true, false, ◌||◌, Option, none, some, List, [], ◌∷◌,
  ltb, leb, if◌then◌else◌,
}
use rag_agent.Dict
use rag_agent.RateLimit.Semaphore.{Semaphore, reclaim, take_permit}

pub record Limiter : Type 0 where
  pub queue : List (String × ℕ)  -- in the order of the scores
  pub entries : List (String × ℕ)  -- the time at which each entry key expires
  pub sequence : ℕ
  pub semaphore : Semaphore

-- EXISTS entry:member, at a time
unfoldable pub alive : ℕ → List (String × ℕ) → String → Bool
alive now entries m = elim (Dict.get m entries) [ none ↦ false | some ends ↦ ltb now ends ]

-- The loop over ZRANGE 0 16, on the places left of the 17: the first live member, and the queue
-- without the dead ones before it.
unfoldable pub first_live :
    ℕ → List (String × ℕ) → ℕ → List (String × ℕ) → Option String × List (String × ℕ)
first_live now entries zero q = (none, q)
first_live now entries (suc n) [] = (none, [])
first_live now entries (suc n) ((m, score) ∷ q) = elim (alive now entries m) [
  | true ↦ (some m, (m, score) ∷ q)
  | false ↦ first_live now entries n q
]

abbrev pub permit_of : String → String
permit_of r = text_append r ":permit"

abbrev pub is_some_text : Option String → String → Bool
is_some_text none r = false
is_some_text (some m) r = str_eq m r

-- The last lines of the script: the head has been found, and leaves the queue with its permit.
unfoldable pub take_head : ℕ → String → Limiter → Option String × Limiter
take_head ends r l =
    let (granted, s) = take_permit ends (permit_of r) l.semaphore in
    elim granted [
      | none ↦ (none, record l { semaphore = s })
      | some id ↦ (
        some id,
        record l {
          queue = Dict.remove r l.queue;
          entries = Dict.remove r l.entries;
          semaphore = s;
        },
      )
    ]

-- The script behind the loop, for what the loop left: `head` is `first_live`, `q` the queue.
unfoldable pub claim_head :
    ℕ → ℕ → String → Limiter → Option String → List (String × ℕ) → Option String × Limiter
claim_head now lease r l head q =
    if is_some_text head r
    then take_head (now + lease) r (record l { queue = q; semaphore = reclaim now l.semaphore })
    else (none, record l { queue = q })

-- CLAIM_AND_ACQUIRE, as `_try_claim` calls it for the request `r` at the server's time `now`.
unfoldable pub try_claim : ℕ → ℕ → String → Limiter → Option String × Limiter
try_claim now lease r l =
    let (head, q) = first_live now l.entries 17 l.queue in claim_head now lease r l head q

-- SET entry 1 PX ttl
unfoldable pub set_entry_key : ℕ → ℕ → String → Limiter → Limiter
set_entry_key now ttl r l = record l { entries = Dict.put r (now + ttl) l.entries }

-- INCR sequence
unfoldable pub next_score : Limiter → ℕ × Limiter
next_score l = (l.sequence + 1, record l { sequence = l.sequence + 1 })

-- a new member of a sorted set, behind the smaller scores
unfoldable pub insert_score : String → ℕ → List (String × ℕ) → List (String × ℕ)
insert_score m score [] = (m, score) ∷ []
insert_score m score ((j, other) ∷ q) =
    if ltb score other then (m, score) ∷ (j, other) ∷ q else (j, other) ∷ insert_score m score q

-- ZADD queue score r: a member that is there moves to its new score
unfoldable pub enqueue : ℕ → String → Limiter → Limiter
enqueue score r l = record l { queue = insert_score r score (Dict.remove r l.queue) }

-- The commands of `acquire` before its `try`, with no other process between them.
unfoldable pub enqueue_request : ℕ → ℕ → String → Limiter → Limiter
enqueue_request now ttl r l =
    let (score, l') = next_score (set_entry_key now ttl r l) in enqueue score r l'

-- `_cleanup_waiter`: ZREM and DEL. What they answer decides only whether a message is published.
unfoldable pub cleanup_waiter : String → Limiter → Limiter
cleanup_waiter r l = record l { queue = Dict.remove r l.queue; entries = Dict.remove r l.entries }
