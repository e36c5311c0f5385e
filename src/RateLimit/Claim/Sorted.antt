-- ===== src/RateLimit/Claim/Sorted.antt =====
-- The order of the queue's scores, and what keeps it.
use rag_agent.Prelude.{
  ℕ, zero, suc, ◌<◌, String, str_eq, eq_iff, ◌≡◌, ◌≢◌, refl, none, some, List, [], ◌∷◌, arith, All,
  ltb, if◌then◌else◌, inl, inr, Bool-cases,
}
use rag_agent.Dict.{get, remove}
use rag_agent.Dict.Size.{DistinctKeys, remove-DistinctKeys}
use rag_agent.RateLimit.Claim.{alive, first_live, insert_score}

abbrev pub Queue : Type 0
Queue = List (String × ℕ)

-- Each score is below those behind it.
abbrev pub Ascending : Queue → Type 0
Ascending [] = Unit
Ascending (e ∷ q) = All (λ x. e.1 < x.1) q × Ascending q

pub record IsOrdered (q : Queue) : Type 0 where
  pub ascending : Ascending q
  pub distinct : DistinctKeys q

-- a bound on all scores is one on those of a part
pub All-remove : (P : String × ℕ → Type 0) (m : String) (q : Queue) → All P q → All P (remove m q)
unfolding remove
All-remove P m [] h = tt
All-remove P m (e ∷ q) h = elim (Bool-cases (str_eq e.0 m)) [
  | inl p ↦ rw (p, remove) (All-remove P m q h.1)
  | inr p ↦ rw (p, remove) (h.0, All-remove P m q h.1)
]

pub remove-Ascending : (m : String) (q : Queue) → Ascending q → Ascending (remove m q)
unfolding remove
remove-Ascending m [] h = tt
remove-Ascending m (e ∷ q) h = elim (Bool-cases (str_eq e.0 m)) [
  | inl p ↦ rw (p, remove) (remove-Ascending m q h.1)
  | inr p ↦ rw (p, remove) (All-remove _ m q h.0, remove-Ascending m q h.1)
]

pub remove-IsOrdered : (m : String) (q : Queue) → IsOrdered q → IsOrdered (remove m q)
remove-IsOrdered m q h = record {
  ascending = remove-Ascending m q h.ascending;
  distinct = remove-DistinctKeys m q h.distinct;
}

-- The score is none of the queue's.
abbrev pub NewScore : ℕ → Queue → Type 0
NewScore score = All (λ e. e.1 ≢ score)

pub All-insert :
    (P : String × ℕ → Type 0) (m : String) (score : ℕ) (q : Queue)
    → P (m, score)
    → All P q
    → All P (insert_score m score q)
unfolding insert_score
All-insert P m score [] p h = (p, tt)
All-insert P m score (e ∷ q) p h = elim (Bool-cases (ltb score e.1)) [
  | inl t ↦ rw (t, insert_score) (p, h)
  | inr t ↦ rw (t, insert_score) (h.0, All-insert P m score q p h.1)
]

pub above : (a b : ℕ) (q : Queue) → a < b → All (λ x. b < x.1) q → All (λ x. a < x.1) q
above a b [] l h = tt
above a b (e ∷ q) l h = (omega arith, above a b q l h.1)

pub insert-Ascending :
    (m : String) (score : ℕ) (q : Queue)
    → Ascending q
    → NewScore score q
    → Ascending (insert_score m score q)
unfolding insert_score
insert-Ascending m score [] h new = (tt, tt)
insert-Ascending m score (e ∷ q) h new = elim (Bool-cases (ltb score e.1)) [
  | inl t ↦ rw (t, insert_score) ((ground arith, above score e.1 q (ground arith) h.0), h)
  | inr t ↦
      rw (t, insert_score)
        (All-insert _ m score q (ground arith) h.0, insert-Ascending m score q h.1 new.1)
]

pub get-insert_ne :
    (m j : String) (score : ℕ) (q : Queue)
    → get m q ≡ none
    → get j (insert_score m score q) ≡ (if str_eq m j then some score else get j q)
unfolding get insert_score
get-insert_ne m j score [] h = refl
get-insert_ne m j score (e ∷ q) h =
    ground (arith, eq_iff e.0 m, eq_iff e.0 j, eq_iff m j, get-insert_ne m j score q)

pub insert-DistinctKeys :
    (m : String) (score : ℕ) (q : Queue)
    → get m q ≡ none
    → DistinctKeys q
    → DistinctKeys (insert_score m score q)
unfolding insert_score get
insert-DistinctKeys m score [] h d = (refl, tt)
insert-DistinctKeys m score ((j, other) ∷ q) h d = elim (Bool-cases (ltb score other)) [
  | inl t ↦ rw (t, insert_score) (h, d)
  | inr t ↦
      rw (t, insert_score)
        (
          ground (arith, get-insert_ne m j score q, eq_iff j m, eq_iff m j),
          insert-DistinctKeys m score q (ground arith) d.1,
        )
]

pub first_live-IsOrdered :
    (now : ℕ) (entries : List (String × ℕ)) (n : ℕ) (q : Queue)
    → IsOrdered q
    → IsOrdered (first_live now entries n q).1
unfolding first_live
first_live-IsOrdered now entries zero q h = h
first_live-IsOrdered now entries (suc n) [] h = h
first_live-IsOrdered now entries (suc n) (e ∷ q) h = elim (Bool-cases (alive now entries e.0)) [
  | inl a ↦ rw (a, first_live) h
  | inr a ↦
      rw (a, first_live)
        (first_live-IsOrdered now entries n q
          (record { ascending = h.ascending.1; distinct = h.distinct.1 }))
]
