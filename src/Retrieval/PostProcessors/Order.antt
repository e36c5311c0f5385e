-- ===== src/Retrieval/PostProcessors/Order.antt =====
-- The fused chunks come in the order of their scores.
use rag_agent.Prelude.{
  ℕ, suc, String, eq_iff, str_eq-false, ◌≡◌, refl, ap, ◌∙◌, false, none, some, List, [], ◌∷◌,
  length, str_eq-cases, inl, inr, arith, All,
}
use mathlib.Core.Option
use rag_agent.Dict.{get}
use rag_agent.Dict.Size.{DistinctKeys}
use rag_agent.Retrieval.PostProcessors.{
  RetrievedChunk, or_default, Tally, Scores, Ranked, rank_keys, fused_chunks,
}
use rag_agent.Retrieval.PostProcessors.Sorting.{IsHead, IsSorted, precedes-less}
use rag_agent.Retrieval.PostProcessors.Sums.{IsTally, own}

-- the entries have the scores of their keys
module _ {S : Type 0} where
  abbrev pub HasScore : List (String × S) → Ranked S → Type 0
  HasScore scores (k, (s, n)) = get k scores ≡ some s

  HasScore-cons :
      (k : String) (s : S) (scores : List (String × S)) (xs : List (Ranked S))
      → get k scores ≡ none
      → All (HasScore scores) xs
      → All (HasScore ((k, s) ∷ scores)) xs
  unfolding get
  HasScore-cons k s scores [] n h = tt
  HasScore-cons k s scores ((j, (a, m)) ∷ xs) n h =
      (rw (str_eq-false k j (λ p. cc (h.0, n, p))) h.0, HasScore-cons k s scores xs n h.1)

  pub rank_keys-HasScore :
      (scores : List (String × S)) (first_seen : List (String × ℕ))
      → DistinctKeys scores
      → All (HasScore scores) (rank_keys scores first_seen)
  unfolding rank_keys
  rank_keys-HasScore [] first_seen d = tt
  rank_keys-HasScore ((k, s) ∷ scores) first_seen d = (
    unfold get in ground (arith, eq_iff k k),
    HasScore-cons k s scores (rank_keys scores first_seen) d.0
        (rank_keys-HasScore scores first_seen d.1),
  )

  pub get-rank_keys :
      (k : String) (scores : List (String × S)) (first_seen : List (String × ℕ))
      → get k (rank_keys scores first_seen)
        ≡ Option.map (λ s. (s, or_default 0 (get k first_seen))) (get k scores)
  unfolding rank_keys get
  get-rank_keys k [] first_seen = refl
  get-rank_keys k ((j, s) ∷ scores) first_seen = elim (str_eq-cases j k) [
    | inl (p, e) ↦ rw e (ap (λ i. some (s, or_default 0 (get i first_seen))) p)
    | inr (p, e) ↦ rw e (get-rank_keys k scores first_seen)
  ]

  pub rank_keys-DistinctKeys :
      (scores : List (String × S)) (first_seen : List (String × ℕ))
      → DistinctKeys scores
      → DistinctKeys (rank_keys scores first_seen)
  unfolding rank_keys
  rank_keys-DistinctKeys [] first_seen d = tt
  rank_keys-DistinctKeys ((k, s) ∷ scores) first_seen d = (
    get-rank_keys k scores first_seen
        ∙ ap (Option.map (λ x. (x, or_default 0 (get k first_seen)))) d.0,
    rank_keys-DistinctKeys scores first_seen d.1,
  )

module _ {S X : Type 0} (ops : Scores S) where
  abbrev IsBelow : S → List (RetrievedChunk S X) → Type 0
  IsBelow a [] = Unit
  IsBelow a (c ∷ cs) = ops.less a c.score ≡ false

  -- No chunk has a greater score than the one before it.
  abbrev pub IsDescending : List (RetrievedChunk S X) → Type 0
  IsDescending [] = Unit
  IsDescending (c ∷ cs) = IsBelow c.score cs × IsDescending cs

  module _ (t : Tally S X) (h : IsTally t) where
    fused_chunks-IsBelow :
        (x : Ranked S) (xs : List (Ranked S))
        → All (HasScore t.scores) xs
        → IsHead ops x xs
        → IsBelow x.1.0 (fused_chunks xs t.representatives)
    unfolding fused_chunks
    fused_chunks-IsBelow x [] a p = tt
    fused_chunks-IsBelow x ((k, (s, n)) ∷ xs) a p =
        rw ((own t k s h a.0).1, fused_chunks) (precedes-less ops x (k, (s, n)) p)

    pub fused_chunks-IsDescending :
        (xs : List (Ranked S))
        → All (HasScore t.scores) xs
        → IsSorted ops xs
        → IsDescending (fused_chunks xs t.representatives)
    unfolding fused_chunks
    fused_chunks-IsDescending [] a p = tt
    fused_chunks-IsDescending ((k, (s, n)) ∷ xs) a p =
        rw ((own t k s h a.0).1, fused_chunks)
          (fused_chunks-IsBelow (k, (s, n)) xs a.1 p.0, fused_chunks-IsDescending xs a.1 p.1)

    pub length-fused_chunks :
        (xs : List (Ranked S))
        → All (HasScore t.scores) xs
        → length (fused_chunks xs t.representatives) ≡ length xs
    unfolding fused_chunks
    length-fused_chunks [] a = refl
    length-fused_chunks ((k, (s, n)) ∷ xs) a =
        rw ((own t k s h a.0).1, fused_chunks) (ap suc (length-fused_chunks xs a.1))
