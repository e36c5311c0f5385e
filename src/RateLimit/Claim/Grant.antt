-- ===== src/RateLimit/Claim/Grant.antt =====
-- When a claim is granted.
use rag_agent.Prelude.{
  ℕ, zero, suc, ◌+◌, ◌≤◌, ◌<◌, String, eq_refl, ◌≡◌, refl, ap, subst, ◌∙◌, true, false, Option,
  none, some, List, [], ◌∷◌, ◌++◌, length, drop, arith, All, ltb, if◌then◌else◌, inl, inr,
  Bool-cases,
}
use rag_agent.RateLimit.Semaphore.{live, reclaim, take_permit}
use rag_agent.RateLimit.Semaphore.Capacity.{IsValid, counter-reclaim}
use rag_agent.RateLimit.Claim.{
  Limiter, alive, first_live, permit_of, take_head, claim_head, try_claim,
}

-- The entry key of the member has expired or was deleted.
abbrev pub Dead : ℕ → List (String × ℕ) → String × ℕ → Type 0
Dead now entries e = alive now entries e.0 ≡ false

module _ (now : ℕ) (entries : List (String × ℕ)) where
  pub first_live-found :
      (n : ℕ) (dead : List (String × ℕ)) (r : String) (score : ℕ) (rest : List (String × ℕ))
      → All (Dead now entries) dead
      → alive now entries r ≡ true
      → length dead < n
      → first_live now entries n (dead ++ (r, score) ∷ rest) ≡ (some r, (r, score) ∷ rest)
  unfolding first_live
  first_live-found zero dead r score rest d a h = absurd (omega arith)
  first_live-found (suc n) [] r score rest d a h = rw (a, first_live)
  first_live-found (suc n) (e ∷ dead) r score rest d a h =
      rw (d.0, first_live) (first_live-found n dead r score rest d.1 a (omega arith))

  pub first_live-skipped :
      (n : ℕ) (dead q : List (String × ℕ))
      → All (Dead now entries) dead
      → n ≤ length dead
      → first_live now entries n (dead ++ q) ≡ (none, drop n dead ++ q)
  unfolding first_live
  first_live-skipped zero dead q d h = refl
  first_live-skipped (suc n) [] q d h = absurd (omega arith)
  first_live-skipped (suc n) (e ∷ dead) q d h =
      rw (d.0, first_live) (first_live-skipped n dead q d.1 (omega arith))

  -- what a found head says of the queue
  pub record Found (n : ℕ) (q : List (String × ℕ)) (r : String) (q' : List (String × ℕ))
      : Type 0 where
    pub dead : List (String × ℕ)
    pub score : ℕ
    pub rest : List (String × ℕ)
    pub split : q ≡ dead ++ (r, score) ∷ rest
    pub after : q' ≡ (r, score) ∷ rest
    pub all_dead : All (Dead now entries) dead
    pub live_head : alive now entries r ≡ true
    pub few : length dead < n

  pub first_live-Found :
      (n : ℕ) (q : List (String × ℕ)) (r : String)
      → (first_live now entries n q).0 ≡ some r
      → Found n q r (first_live now entries n q).1
  unfolding first_live
  first_live-Found zero q r h = absurd (ground arith)
  first_live-Found (suc n) [] r h = absurd (ground arith)
  first_live-Found (suc n) ((m, score) ∷ q) r h = elim (Bool-cases (alive now entries m)) [
    | inl a ↦
        rw (a, first_live)
          (let p : m ≡ r = ground arith in
            record {
              dead = [];
              score = score;
              rest = q;
              split = ap (λ i. (i, score) ∷ q) p;
              after = ap (λ i. (i, score) ∷ q) p;
              all_dead = tt;
              live_head = subst (λ i. alive now entries i ≡ true) p a;
              few = omega arith;
            })
    | inr a ↦
        rw (a, first_live)
          (let f = first_live-Found n q r (ground arith) in
            record {
              dead = (m, score) ∷ f.dead;
              score = f.score;
              rest = f.rest;
              split = ap (◌∷◌ (m, score)) f.split;
              after = f.after;
              all_dead = (a, f.all_dead);
              live_head = f.live_head;
              few = omega (arith, f.few);
            })
  ]

module _ {n : ℕ} (now lease : ℕ) (r : String) (l : Limiter) (v : IsValid n l.semaphore) where
  -- the end of a claim whose request was found at the head
  abbrev reclaimed : List (String × ℕ) → Limiter
  reclaimed q = record l { queue = q; semaphore = reclaim now l.semaphore }

  pub take_head-answer :
      (q : List (String × ℕ))
      → (take_head (now + lease) r (reclaimed q)).0
        ≡ (if ltb (length (live now l.semaphore.permits)) n then some (permit_of r) else none)
  unfolding take_head take_permit
  take_head-answer q = ground (arith, counter-reclaim now l.semaphore v)

-- A claim goes by what the loop over the queue's head leaves.
pub try_claim-head :
    (now lease : ℕ) (r : String) (l : Limiter) {head : Option String} {q : List (String × ℕ)}
    → first_live now l.entries 17 l.queue ≡ (head, q)
    → try_claim now lease r l ≡ claim_head now lease r l head q
unfolding try_claim
try_claim-head now lease r l e = ap (λ x. claim_head now lease r l x.0 x.1) e

pub claim_head_self :
    (now lease : ℕ) (r : String) (l : Limiter) (q : List (String × ℕ))
    → claim_head now lease r l (some r) q
      ≡ take_head (now + lease) r (record l { queue = q; semaphore = reclaim now l.semaphore })
unfolding claim_head
claim_head_self now lease r l q = rw (eq_refl r)

-- A request whose entry key is live, with only dead requests before it, sixteen at most: it gets its
-- permit exactly if fewer than `n` permits have a lease that lasts.
pub try_claim_lem :
    {n : ℕ} (now lease : ℕ) (r : String) (l : Limiter) (dead : List (String × ℕ)) (score : ℕ)
    (rest : List (String × ℕ))
    → IsValid n l.semaphore
    → l.queue ≡ dead ++ (r, score) ∷ rest
    → All (Dead now l.entries) dead
    → alive now l.entries r ≡ true
    → length dead < 17
    → (try_claim now lease r l).0
      ≡ (if ltb (length (live now l.semaphore.permits)) n then some (permit_of r) else none)
try_claim_lem now lease r l dead score rest v e d a h =
    let q = (r, score) ∷ rest in
    ap (λ x. x.0)
      (try_claim-head now lease r l (
          ap (first_live now l.entries 17) e
          ∙ first_live-found now l.entries 17 dead r score rest d a h)
        ∙ claim_head_self now lease r l q)
    ∙ take_head-answer now lease r l v q
