-- ===== src/RateLimit/Claim/Fifo.antt =====
-- The queue is served in the order of its scores.
use rag_agent.Prelude.{
  ℕ, ◌<◌, String, eq_refl, eq_iff, ◌≡◌, ◌≢◌, ◌⊎◌, sym, subst, false, Option, none, some, List, [],
  ◌∷◌, ◌++◌, arith, All, inl, inr, str_eq-cases,
}
use rag_agent.Dict.{get, remove, get-remove}
use rag_agent.Dict.Size.{remove-DistinctKeys}
use rag_agent.RateLimit.Semaphore.{Semaphore, try_release}
use rag_agent.RateLimit.Claim.{
  Limiter, alive, first_live, take_head, claim_head, try_claim, enqueue, set_entry_key,
  cleanup_waiter, next_score,
}
use rag_agent.RateLimit.Claim.Grant.{Dead, first_live-Found}
use rag_agent.RateLimit.Claim.Sorted.{
  Queue, IsOrdered, remove-IsOrdered, NewScore, first_live-IsOrdered, remove-Ascending,
  insert-Ascending, insert-DistinctKeys,
}

-- Who is granted a permit was the first live member.
granted-head :
    (now lease : ℕ) (r : String) (l : Limiter) (head : Option String) (q : Queue) {p : String}
    → (claim_head now lease r l head q).0 ≡ some p
    → head ≡ some r
unfolding claim_head
granted-head now lease r l none q h = cc
granted-head now lease r l (some m) q h = ground (arith, eq_iff m r)

All-get : (a : ℕ) (m : String) (q : Queue) {s : ℕ} → All (λ x. a < x.1) q → get m q ≡ some s → a < s
unfolding get
All-get a m [] h e = cc
All-get a m (x ∷ q) {s} h e = ground (arith, h.0, All-get a m q {s = s} h.1)

get-middle :
    (dead : Queue) (r : String) (s : ℕ) (rest : Queue) → get r (dead ++ (r, s) ∷ rest) ≢ none
unfolding get
get-middle [] r s rest h = ground (arith, eq_refl r)
get-middle (e ∷ dead) r s rest h = ground (arith, get-middle dead r s rest)

before-Dead :
    (now : ℕ) (entries dead : Queue) (r m : String) (s sr sm : ℕ) (rest : Queue)
    → All (Dead now entries) dead
    → IsOrdered (dead ++ (r, s) ∷ rest)
    → get r (dead ++ (r, s) ∷ rest) ≡ some sr
    → get m (dead ++ (r, s) ∷ rest) ≡ some sm
    → sm < sr
    → alive now entries m ≡ false
unfolding get
before-Dead now entries [] r m s sr sm rest d o er em lt =
    absurd (ground (arith, eq_iff r m, eq_refl r, All-get s m rest {s = sm} o.ascending.0))
before-Dead now entries (e ∷ dead) r m s sr sm rest d o er em lt = elim (str_eq-cases e.0 m) [
  | inl (p, q) ↦ subst (λ i. alive now entries i ≡ false) p d.0
  | inr (p, q) ↦ elim (str_eq-cases e.0 r) [
    | inl (p', q') ↦ absurd (
        get-middle dead r s rest
          (subst (λ i. get i (dead ++ (r, s) ∷ rest) ≡ none) p' o.distinct.0))
    | inr (p', q') ↦
        before-Dead now entries dead r m s sr sm rest d.1
          (record { ascending = o.ascending.1; distinct = o.distinct.1 }) (ground arith)
          (ground arith) lt
  ]
]

-- The operations on the limiter, at the time at which they run.
pub data Call : Type 0 where
  put_key : ℕ → ℕ → String → Call
  count_up : Call
  add : ℕ → String → Call
  clean : String → Call
  claim : ℕ → ℕ → String → Call
  release : String → Call

unfoldable pub apply : Call → Limiter → Limiter
apply (put_key now ttl r) l = set_entry_key now ttl r l
apply count_up l = (next_score l).1
apply (add score r) l = enqueue score r l
apply (clean r) l = cleanup_waiter r l
apply (claim now lease r) l = (try_claim now lease r l).1
apply (release id) l = record l { semaphore = (try_release id l.semaphore).1 }

unfoldable pub run : List Call → Limiter → Limiter
run [] l = l
run (c ∷ cs) l = run cs (apply c l)

-- A request that is added has a score that is none of the queue's.
abbrev pub NewAdd : Call → Limiter → Type 0
NewAdd (add score r) l = NewScore score (remove r l.queue)
NewAdd _ l = Unit

unfoldable pub NewAdds : List Call → Limiter → Type 0
NewAdds [] l = Unit
NewAdds (c ∷ cs) l = NewAdd c l × NewAdds cs (apply c l)

claim_head-queue :
    (now lease : ℕ) (r : String) (l : Limiter) (head : Option String) (q : Queue)
    → ((claim_head now lease r l head q).1.queue ≡ q)
      ⊎ ((claim_head now lease r l head q).1.queue ≡ remove r q)
unfolding claim_head take_head
claim_head-queue now lease r l head q = ground arith

try_claim-IsOrdered :
    (now lease : ℕ) (r : String) (l : Limiter)
    → IsOrdered l.queue
    → IsOrdered (try_claim now lease r l).1.queue
unfolding try_claim
try_claim-IsOrdered now lease r l h =
    let x = first_live now l.entries 17 l.queue in
    let o = first_live-IsOrdered now l.entries 17 l.queue h in
    elim (claim_head-queue now lease r l x.0 x.1) [
      | inl e ↦ subst IsOrdered (sym e) o
      | inr e ↦ subst IsOrdered (sym e) (remove-IsOrdered r x.1 o)
    ]

apply-IsOrdered :
    (c : Call) (l : Limiter) → NewAdd c l → IsOrdered l.queue → IsOrdered (apply c l).queue
unfolding apply set_entry_key next_score enqueue cleanup_waiter
apply-IsOrdered (put_key now ttl r) l new h = h
apply-IsOrdered count_up l new h = h
apply-IsOrdered (add score r) l new h = record {
  ascending =
      insert-Ascending r score (remove r l.queue) (remove-Ascending r l.queue h.ascending) new;
  distinct =
      insert-DistinctKeys r score (remove r l.queue)
        (ground (arith, get-remove r r l.queue, eq_refl r))
        (remove-DistinctKeys r l.queue h.distinct);
}
apply-IsOrdered (clean r) l new h = remove-IsOrdered r l.queue h
apply-IsOrdered (claim now lease r) l new h = try_claim-IsOrdered now lease r l h
apply-IsOrdered (release id) l new h = h

run-IsOrdered :
    (cs : List Call) (l : Limiter) → NewAdds cs l → IsOrdered l.queue → IsOrdered (run cs l).queue
unfolding run NewAdds
run-IsOrdered [] l new h = h
run-IsOrdered (c ∷ cs) l new h = run-IsOrdered cs (apply c l) new.1 (apply-IsOrdered c l new.0 h)

abbrev pub new_limiter : Semaphore → Limiter
new_limiter s = record { queue = []; entries = []; sequence = 0; semaphore = s }

-- First in, first out, across all processes: after any operations on the queue, in any order, if no
-- two waiting requests ever have one score, a request that is granted a permit overtakes nobody who
-- lives: the entry key of every waiting request with a smaller score has expired or is deleted.
pub claim_fifo :
    (s : Semaphore) (cs : List Call) (now lease : ℕ) (r m : String) {p : String} (sr sm : ℕ)
    → NewAdds cs (new_limiter s)
    → (try_claim now lease r (run cs (new_limiter s))).0 ≡ some p
    → get r (run cs (new_limiter s)).queue ≡ some sr
    → get m (run cs (new_limiter s)).queue ≡ some sm
    → sm < sr
    → alive now (run cs (new_limiter s)).entries m ≡ false
unfolding try_claim
claim_fifo s cs now lease r m {p} sr sm new granted er em lt =
    let l = run cs (new_limiter s) in
    let x = first_live now l.entries 17 l.queue in
    let f =
      first_live-Found now l.entries 17 l.queue r
        (granted-head now lease r l x.0 x.1 {p = p} granted) in
    let o = run-IsOrdered cs (new_limiter s) new (record { ascending = tt; distinct = tt }) in
    before-Dead now l.entries f.dead r m f.score sr sm f.rest f.all_dead (subst IsOrdered f.split o)
      (subst (λ q. get r q ≡ some sr) f.split er) (subst (λ q. get m q ≡ some sm) f.split em) lt
