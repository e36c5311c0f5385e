-- ===== src/RateLimit/Claim/Interrupted.antt =====
-- What a cancellation before the `try` of `acquire` leaves behind.
use rag_agent.Prelude.{
  ℕ, ◌+◌, ◌<◌, ◌≤◌, String, eq_iff, str_eq-false, ◌≡◌, ◌≢◌, refl, sym, ◌∙◌, Option, none, some,
  List, [], ◌∷◌, arith, lt→ltb, All, ap, ◌⊎◌, inl, inr, eq_refl,
}
use rag_agent.Dict
use rag_agent.Dict.{get-put, get-remove}
use rag_agent.RateLimit.Claim.Fifo.{Call, put_key, count_up, add, clean, claim, release, apply}
use rag_agent.RateLimit.Claim.Grant.{first_live-found}
use rag_agent.RateLimit.Claim.{
  Limiter, alive, claim_head, try_claim, set_entry_key, next_score, insert_score, enqueue,
  enqueue_request, cleanup_waiter,
}

-- The awaits of `acquire` on Redis at which a cancellation may come, each after its command has run, and
-- the wait for the future, which alone stands in the `try`.
pub data Await : Type 0 where
  setting counting adding publishing waiting : Await

-- What an `acquire` that is cancelled there leaves in Redis.
unfoldable pub cancelled_acquire : Await → ℕ → ℕ → String → Limiter → Limiter
cancelled_acquire setting now ttl r l = set_entry_key now ttl r l
cancelled_acquire counting now ttl r l = (next_score (set_entry_key now ttl r l)).1
cancelled_acquire adding now ttl r l = enqueue_request now ttl r l
cancelled_acquire publishing now ttl r l = enqueue_request now ttl r l
cancelled_acquire waiting now ttl r l = cleanup_waiter r (enqueue_request now ttl r l)

-- the permits that a sequence of operations grants
abbrev pub granted_by : Call → Limiter → Option String
granted_by (claim now lease r) l = (try_claim now lease r l).0
granted_by (put_key now ttl r) l = none
granted_by count_up l = none
granted_by (add score r) l = none
granted_by (clean r) l = none
granted_by (release id) l = none

unfoldable pub grants : List Call → Limiter → List String
grants [] l = []
grants (c ∷ cs) l = elim (granted_by c l) [
  | none ↦ grants cs (apply c l)
  | some id ↦ id ∷ grants cs (apply c l)
]

-- An operation for another request: it adds with a greater score, and claims before a time.
abbrev pub ForOther : String → ℕ → ℕ → Call → Type 0
ForOther r score ends (put_key now ttl s) = r ≢ s
ForOther r score ends count_up = Unit
ForOther r score ends (add other s) = (r ≢ s) × (score < other)
ForOther r score ends (clean s) = r ≢ s
ForOther r score ends (claim now lease s) = (r ≢ s) × (now < ends)
ForOther r score ends (release id) = Unit

behind :
    (score : ℕ) (s : String) (other : ℕ) (r : String) (rest : List (String × ℕ))
    → score ≤ other
    → insert_score s other ((r, score) ∷ rest) ≡ (r, score) ∷ insert_score s other rest
unfolding insert_score
behind score s other r rest h = ground arith

-- A request stands first in the queue, with a live entry key.
data Blocks (r : String) (score ends : ℕ) (l : Limiter) : Type 0 where
  blocks :
      (rest : List (String × ℕ))
      → l.queue ≡ (r, score) ∷ rest
      → Dict.get r l.entries ≡ some ends
      → Blocks r score ends l

remove-other :
    (r s : String) (score : ℕ) (rest q : List (String × ℕ))
    → r ≢ s
    → q ≡ (r, score) ∷ rest
    → Dict.remove s q ≡ (r, score) ∷ Dict.remove s rest
unfolding Dict.remove
remove-other r s score rest q n e = ap (Dict.remove s) e ∙ rw (str_eq-false r s n) refl

-- a claim for another request grants nothing and changes nothing
try_claim-Blocks :
    (t lease : ℕ) (r s : String) (score ends : ℕ) (l : Limiter)
    → r ≢ s
    → t < ends
    → Blocks r score ends l
    → ((try_claim t lease s l).0 ≡ none) × Blocks r score ends (try_claim t lease s l).1
unfolding try_claim claim_head
try_claim-Blocks t lease r s score ends l n h (blocks rest q e) =
    rw (q, try_claim)
      (rw
        (
          first_live-found t l.entries 17 [] r score rest tt
              (unfold alive in rw (e, alive) (lt→ltb t ends h)) (omega arith),
          claim_head,
        )
        (rw (str_eq-false r s n) (refl, blocks rest refl e)))

apply-Blocks :
    (c : Call) (r : String) (score ends : ℕ) (l : Limiter)
    → ForOther r score ends c
    → Blocks r score ends l
    → (granted_by c l ≡ none) × Blocks r score ends (apply c l)
unfolding apply set_entry_key next_score enqueue cleanup_waiter
apply-Blocks (put_key now ttl s) r score ends l n (blocks rest q e) = (
  refl,
  blocks rest q (get-put s r (now + ttl) l.entries ∙ rw (str_eq-false s r (λ p. n (sym p))) e),
)
apply-Blocks count_up r score ends l n (blocks rest q e) = (refl, blocks rest q e)
apply-Blocks (add other s) r score ends l n (blocks rest q e) = (
  refl,
  blocks (insert_score s other (Dict.remove s rest))
      (ap (insert_score s other) (remove-other r s score rest l.queue n.0 q)
        ∙ behind score s other r (Dict.remove s rest) (omega (arith, n.1)))
      e,
)
apply-Blocks (clean s) r score ends l n (blocks rest q e) = (
  refl,
  blocks (Dict.remove s rest) (remove-other r s score rest l.queue n q)
      (get-remove s r l.entries ∙ rw (str_eq-false s r (λ p. n (sym p))) e),
)
apply-Blocks (claim now lease s) r score ends l n b =
    try_claim-Blocks now lease r s score ends l n.0 n.1 b
apply-Blocks (release id) r score ends l n (blocks rest q e) = (refl, blocks rest q e)

grants-Blocks :
    (cs : List Call) (r : String) (score ends : ℕ) (l : Limiter)
    → All (ForOther r score ends) cs
    → Blocks r score ends l
    → grants cs l ≡ []
unfolding grants
grants-Blocks [] r score ends l n b = refl
grants-Blocks (c ∷ cs) r score ends l n b =
    let x = apply-Blocks c r score ends l n.0 b in
    rw (x.0, grants) (grants-Blocks cs r score ends (apply c l) n.1 x.1)

enqueue_request-Blocks :
    (now ttl : ℕ) (r : String) (l : Limiter)
    → l.queue ≡ []
    → Blocks r (l.sequence + 1) (now + ttl) (enqueue_request now ttl r l)
unfolding enqueue_request set_entry_key next_score enqueue
enqueue_request-Blocks now ttl r l q =
    blocks []
      (ap (λ x. insert_score r (l.sequence + 1) (Dict.remove r x)) q
        ∙ (unfold insert_score Dict.remove in refl))
      (get-put r r (now + ttl) l.entries ∙ ground (arith, eq_iff r r))

cleaned :
    (r : String) (l : Limiter)
    → (Dict.get r (cleanup_waiter r l).queue ≡ none)
      × (Dict.get r (cleanup_waiter r l).entries ≡ none)
unfolding cleanup_waiter
cleaned r l = (
  get-remove r r l.queue ∙ ground (arith, eq_refl r),
  get-remove r r l.entries ∙ ground (arith, eq_refl r),
)

-- An `acquire` is cancelled while it awaits ZADD or the publishing, before its `try`, with the queue empty
-- before. Whatever other requests do afterwards, in any order, if they count up after it and ask before
-- its entry key expires, no permit is granted to any of them, however many are free. An `acquire`
-- that is cancelled while it waits for its future leaves neither a place in the queue nor a key.
pub interrupted_blocks :
    (a : Await) (now ttl : ℕ) (r : String) (cs : List Call) (l : Limiter)
    → (a ≡ adding) ⊎ (a ≡ publishing)
    → l.queue ≡ []
    → All (ForOther r (l.sequence + 1) (now + ttl)) cs
    → (grants cs (cancelled_acquire a now ttl r l) ≡ [])
      × (Dict.get r (cancelled_acquire waiting now ttl r l).queue ≡ none)
      × (Dict.get r (cancelled_acquire waiting now ttl r l).entries ≡ none)
unfolding cancelled_acquire
interrupted_blocks a now ttl r cs l at q n =
    let b =
      grants-Blocks cs r (l.sequence + 1) (now + ttl) (enqueue_request now ttl r l) n
        (enqueue_request-Blocks now ttl r l q) in
    let c = cleaned r (enqueue_request now ttl r l) in
    elim at [ inl e ↦ rw e (b, c.0, c.1) | inr e ↦ rw e (b, c.0, c.1) ]
