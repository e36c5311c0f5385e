-- ===== src/RateLimit/Claim/Permits.antt =====
-- The limiter's permits are conserved.
use rag_agent.Prelude.{
  ℕ, ◌+◌, String, ◌≡◌, ◌⊎◌, sym, subst, Option, none, List, [], ◌∷◌, length, arith, inl, inr,
}
use rag_agent.Dict.{get}
use rag_agent.RateLimit.Semaphore.{Semaphore, reclaim, take_permit, counter_of}
use rag_agent.RateLimit.Semaphore.Capacity.{
  IsValid, permits-reclaim, reclaim-IsValid, take_permit-IsValid, get-live-none,
  try_release-IsValid,
}
use rag_agent.RateLimit.Claim.{
  Limiter, first_live, permit_of, take_head, claim_head, try_claim, set_entry_key, next_score,
  enqueue, cleanup_waiter,
}
use rag_agent.RateLimit.Claim.Fifo.{
  Call, put_key, count_up, add, clean, claim, release, apply, run, new_limiter,
}

-- A claim leaves the semaphore as it is, or reclaims and tries to take a permit.
claim_head-semaphore :
    (now lease : ℕ) (r : String) (l : Limiter) (head : Option String) (q : List (String × ℕ))
    → ((claim_head now lease r l head q).1.semaphore ≡ l.semaphore)
      ⊎ ((claim_head now lease r l head q).1.semaphore
          ≡ (take_permit (now + lease) (permit_of r) (reclaim now l.semaphore)).1)
unfolding claim_head take_head take_permit
claim_head-semaphore now lease r l head q = ground arith

try_claim-IsValid :
    {n : ℕ} (now lease : ℕ) (r : String) (l : Limiter)
    → IsValid n l.semaphore
    → get (permit_of r) l.semaphore.permits ≡ none
    → IsValid n (try_claim now lease r l).1.semaphore
unfolding try_claim
try_claim-IsValid {n} now lease r l v new =
    let x = first_live now l.entries 17 l.queue in
    elim (claim_head-semaphore now lease r l x.0 x.1) [
      | inl e ↦ subst (IsValid n) (sym e) v
      | inr e ↦ subst (IsValid n) (sym e) (
          take_permit-IsValid (now + lease) (permit_of r) (reclaim now l.semaphore)
            (reclaim-IsValid now l.semaphore v)
            (simp (permits-reclaim now l.semaphore v)
              (get-live-none now l.semaphore.permits (permit_of r) new)))
    ]

-- A claim is made for a request whose permit is not held.
abbrev pub NewPermit : Call → Limiter → Type 0
NewPermit (claim now lease r) l = get (permit_of r) l.semaphore.permits ≡ none
NewPermit _ l = Unit

unfoldable pub NewPermits : List Call → Limiter → Type 0
NewPermits [] l = Unit
NewPermits (c ∷ cs) l = NewPermit c l × NewPermits cs (apply c l)

apply-IsValid :
    {n : ℕ} (c : Call) (l : Limiter)
    → NewPermit c l
    → IsValid n l.semaphore
    → IsValid n (apply c l).semaphore
unfolding apply set_entry_key next_score enqueue cleanup_waiter
apply-IsValid (put_key now ttl r) l new v = v
apply-IsValid count_up l new v = v
apply-IsValid (add score r) l new v = v
apply-IsValid (clean r) l new v = v
apply-IsValid (claim now lease r) l new v = try_claim-IsValid now lease r l v new
apply-IsValid (release id) l new v = try_release-IsValid id l.semaphore v

run-IsValid :
    {n : ℕ} (cs : List Call) (l : Limiter)
    → NewPermits cs l
    → IsValid n l.semaphore
    → IsValid n (run cs l).semaphore
unfolding run NewPermits
run-IsValid [] l new v = v
run-IsValid (c ∷ cs) l new v = run-IsValid cs (apply c l) new.1 (apply-IsValid c l new.0 v)

-- Enqueues, claims, releases and clean-ups of any processes, in any order, on a semaphore of `n`
-- permits, if no claim is made for a request whose permit is held: free and held permits stay `n`
-- together, so at most `n` requests run at a time and no permit is lost.
pub limiter_conserved :
    {n : ℕ} (s : Semaphore) (cs : List Call)
    → IsValid n s
    → NewPermits cs (new_limiter s)
    → counter_of (run cs (new_limiter s)).semaphore
        + length (run cs (new_limiter s)).semaphore.permits
      ≡ n
limiter_conserved s cs v new = (run-IsValid cs (new_limiter s) new v).conserved
