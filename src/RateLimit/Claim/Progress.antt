-- ===== src/RateLimit/Claim/Progress.antt =====
-- Dead requests before a live one do not block it for ever.
use rag_agent.Prelude.{
  ℕ, zero, suc, ◌*◌, ◌≤◌, ◌<◌, String, ◌≡◌, refl, ap, ◌∙◌, true, Option, none, some, List, ◌∷◌,
  ◌++◌, length, drop, length-drop, arith, All, All-drop, leb, leb→le, inl, inr, Bool-cases,
}
use rag_agent.RateLimit.Semaphore.{live}
use rag_agent.RateLimit.Semaphore.Capacity.{IsValid}
use rag_agent.RateLimit.Claim.{Limiter, alive, first_live, permit_of, claim_head, try_claim}
use rag_agent.RateLimit.Claim.Grant.{Dead, first_live-skipped, try_claim-head, try_claim_lem}

or_again : (Limiter → Option String × Limiter) → Option String × Limiter → Option String × Limiter
or_again again (some id, l) = (some id, l)
or_again again (none, l) = again l

-- `_dispatch` claims again for one request, at most so many times.
pub claims : ℕ → ℕ → ℕ → String → Limiter → Option String × Limiter
unfolding or_again
claims zero now lease r l = (none, l)
claims (suc k) now lease r l = or_again (claims k now lease r) (try_claim now lease r l)

or_again-some :
    (again : Limiter → Option String × Limiter) (x : Option String × Limiter) {id : String}
    → x.0 ≡ some id
    → (or_again again x).0 ≡ some id
unfolding or_again
or_again-some again (some id, l) h = h
or_again-some again (none, l) h = cc

-- a claim that finds seventeen dead requests removes them, and nothing else
skipped :
    (now lease : ℕ) (r : String) (l : Limiter) (dead q : List (String × ℕ))
    → l.queue ≡ dead ++ q
    → All (Dead now l.entries) dead
    → 17 ≤ length dead
    → try_claim now lease r l ≡ (none, record l { queue = drop 17 dead ++ q })
skipped now lease r l dead q e d h =
    try_claim-head now lease r l
      (ap (first_live now l.entries 17) e ∙ first_live-skipped now l.entries 17 dead q d h)
    ∙ unfold claim_head in refl

-- A live request with fewer than 17 * k dead ones before it, while fewer than `n` permits have a
-- lease that lasts: one of the first k claims for it gets the permit, if nothing else happens
-- between them.
pub claims_progress :
    {n : ℕ} (k now lease : ℕ) (r : String) (l : Limiter) (dead : List (String × ℕ)) (score : ℕ)
    (rest : List (String × ℕ))
    → IsValid n l.semaphore
    → length (live now l.semaphore.permits) < n
    → l.queue ≡ dead ++ (r, score) ∷ rest
    → All (Dead now l.entries) dead
    → alive now l.entries r ≡ true
    → length dead < 17 * k
    → (claims k now lease r l).0 ≡ some (permit_of r)
unfolding claims
claims_progress zero now lease r l dead score rest v room e d a h = absurd (omega arith)
claims_progress (suc k) now lease r l dead score rest v room e d a h =
    elim (Bool-cases (leb 17 (length dead))) [
      | inl long ↦
          ap (λ x. (or_again (claims k now lease r) x).0)
            (skipped now lease r l dead ((r, score) ∷ rest) e d (ground arith))
          ∙ claims_progress k now lease r (record l { queue = drop 17 dead ++ (r, score) ∷ rest })
              (drop 17 dead) score rest v room refl (All-drop (Dead now l.entries) 17 dead d) a
              (omega (arith, length-drop 17 dead, leb→le 17 (length dead) long))
      | inr short ↦
          or_again-some (claims k now lease r) (try_claim now lease r l)
            (ground (arith, try_claim_lem now lease r l dead score rest v e d a))
    ]
