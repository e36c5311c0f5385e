-- ===== src/Retrieval/PostProcessors/Sorting.antt =====
-- The sorting of the keys by score and by the time at which they were first seen.
use rag_agent.Prelude.{
  ℕ, zero, suc, ◌≡◌, sym, subst, true, false, List, [], ◌∷◌, take, drop, take-append-drop, arith,
  All, All-append_left, Bool-cases, inl, inr,
}
use rag_agent.Retrieval.PostProcessors.{Scores, Ranked, precedes, insert_ranked, sort_ranked}

module _ {S : Type 0} (ops : Scores S) where
  abbrev pub IsHead : Ranked S → List (Ranked S) → Type 0
  IsHead y [] = Unit
  IsHead y (z ∷ zs) = precedes ops z y ≡ false

  -- No entry precedes the one before it.
  abbrev pub IsSorted : List (Ranked S) → Type 0
  IsSorted [] = Unit
  IsSorted (x ∷ xs) = IsHead x xs × IsSorted xs

  precedes-asym :
      ((a b : S) → ops.less a b ≡ true → ops.less b a ≡ false)
      → (x y : Ranked S) → precedes ops y x ≡ true
      → precedes ops x y ≡ false
  precedes-asym asym (j, (a, m)) (k, (b, n)) h = ground (arith, asym a b, asym b a)

  insert-IsHead :
      (x y : Ranked S) (ys : List (Ranked S))
      → precedes ops x y ≡ false
      → IsHead y ys
      → IsHead y (insert_ranked ops x ys)
  unfolding insert_ranked
  insert-IsHead x y [] h k = h
  insert-IsHead x y (z ∷ ys) h k = elim (Bool-cases (precedes ops z x)) [
    | inl q ↦ rw (q, insert_ranked) k
    | inr q ↦ rw (q, insert_ranked) h
  ]

  module _ (asym : (a b : S) → ops.less a b ≡ true → ops.less b a ≡ false) where
    insert-IsSorted :
        (x : Ranked S) (ys : List (Ranked S)) → IsSorted ys → IsSorted (insert_ranked ops x ys)
    unfolding insert_ranked
    insert-IsSorted x [] h = (tt, tt)
    insert-IsSorted x (y ∷ ys) h = elim (Bool-cases (precedes ops y x)) [
      | inl q ↦
          rw (q, insert_ranked)
            (insert-IsHead x y ys (precedes-asym asym x y q) h.0, insert-IsSorted x ys h.1)
      | inr q ↦ rw (q, insert_ranked) (q, h)
    ]

    pub sort-IsSorted : (xs : List (Ranked S)) → IsSorted (sort_ranked ops xs)
    unfolding sort_ranked
    sort-IsSorted [] = tt
    sort-IsSorted (x ∷ xs) = insert-IsSorted x (sort_ranked ops xs) (sort-IsSorted xs)

  pub precedes-less : (x y : Ranked S) → precedes ops y x ≡ false → ops.less x.1.0 y.1.0 ≡ false
  precedes-less (j, (a, m)) (k, (b, n)) h = ground arith

  take-IsHead : (n : ℕ) (y : Ranked S) (xs : List (Ranked S)) → IsHead y xs → IsHead y (take n xs)
  take-IsHead zero y xs h = tt
  take-IsHead (suc n) y [] h = tt
  take-IsHead (suc n) y (x ∷ xs) h = h

  pub take-IsSorted : (n : ℕ) (xs : List (Ranked S)) → IsSorted xs → IsSorted (take n xs)
  take-IsSorted zero xs h = tt
  take-IsSorted (suc n) [] h = tt
  take-IsSorted (suc n) (x ∷ xs) h = (take-IsHead n x xs h.0, take-IsSorted n xs h.1)

  module _ (P : Ranked S → Type 0) where
    insert-All :
        (x : Ranked S) (ys : List (Ranked S)) → P x → All P ys → All P (insert_ranked ops x ys)
    unfolding insert_ranked
    insert-All x [] p h = (p, tt)
    insert-All x (y ∷ ys) p h = elim (Bool-cases (precedes ops y x)) [
      | inl q ↦ rw (q, insert_ranked) (h.0, insert-All x ys p h.1)
      | inr q ↦ rw (q, insert_ranked) (p, h)
    ]

    pub sort-All : (xs : List (Ranked S)) → All P xs → All P (sort_ranked ops xs)
    unfolding sort_ranked
    sort-All [] h = tt
    sort-All (x ∷ xs) h = insert-All x (sort_ranked ops xs) h.0 (sort-All xs h.1)

    pub take-All : (n : ℕ) (xs : List (Ranked S)) → All P xs → All P (take n xs)
    take-All n xs h =
        All-append_left P (take n xs) (drop n xs) (subst (All P) (sym (take-append-drop n xs)) h)
