-- ===== src/Retrieval/PostProcessors/Kept.antt =====
-- Sorting keeps every key, and the entries that `take` drops have no greater score than those it keeps.
use rag_agent.Prelude.{
  ℕ, zero, suc, String, eq_iff, str_eq, str_eq-cases, ◌≡◌, refl, ap, ◌∙◌, false, none, some, List,
  [], ◌∷◌, ◌⊎◌, length, take, drop, if◌then◌else◌, arith, All, Bool-cases, inl, inr,
}
use rag_agent.Dict.{get}
use rag_agent.Dict.Size.{DistinctKeys}
use rag_agent.Retrieval.PostProcessors.{Scores, Ranked, precedes, insert_ranked, sort_ranked}
use rag_agent.Retrieval.PostProcessors.Sorting.{IsHead, IsSorted, precedes-less}

module _ {V : Type 0} where
  pub take-none :
      (n : ℕ) (k : String) (xs : List (String × V)) → get k xs ≡ none → get k (take n xs) ≡ none
  unfolding get
  take-none zero k xs h = refl
  take-none (suc n) k [] h = refl
  take-none (suc n) k ((j, v) ∷ xs) h = ground (arith, take-none n k xs)

  pub take-DistinctKeys :
      (n : ℕ) (xs : List (String × V)) → DistinctKeys xs → DistinctKeys (take n xs)
  take-DistinctKeys zero xs h = tt
  take-DistinctKeys (suc n) [] h = tt
  take-DistinctKeys (suc n) ((j, v) ∷ xs) h = (take-none n j xs h.0, take-DistinctKeys n xs h.1)

  -- An entry is kept, or is among those that are dropped, and then as many are kept as may be.
  abbrev pub Taken : ℕ → String → List (String × V) → V → Type 0
  Taken n k xs v =
      (get k (take n xs) ≡ some v)
      ⊎ ((get k (take n xs) ≡ none) × (get k (drop n xs) ≡ some v) × (length (take n xs) ≡ n))

  Taken-cons :
      (n : ℕ) (k j : String) (v w : V) (xs : List (String × V))
      → str_eq j k ≡ false
      → Taken n k xs v
      → Taken (suc n) k ((j, w) ∷ xs) v
  unfolding get
  Taken-cons n k j v w xs q (inl h) = inl (rw q h)
  Taken-cons n k j v w xs q (inr h) = inr (rw q h.0, h.1, ap suc h.2)

  pub take-Taken :
      (n : ℕ) (k : String) (xs : List (String × V)) {v : V} → get k xs ≡ some v → Taken n k xs v
  unfolding get
  take-Taken zero k xs h = inr (refl, h, refl)
  take-Taken (suc n) k [] h = absurd (cc)
  take-Taken (suc n) k ((j, w) ∷ xs) {v} h = elim (Bool-cases (str_eq j k)) [
    | inl q ↦ inl (ground arith)
    | inr q ↦ Taken-cons n k j v w xs q (take-Taken n k xs {v = v} (ground arith))
  ]

module _ {S : Type 0} (ops : Scores S) where
  get-insert :
      (k : String) (x : Ranked S) (ys : List (Ranked S))
      → get x.0 ys ≡ none
      → get k (insert_ranked ops x ys) ≡ (if str_eq x.0 k then some x.1 else get k ys)
  unfolding insert_ranked get
  get-insert k x [] h = refl
  get-insert k x (y ∷ ys) h = elim (Bool-cases (precedes ops y x)) [
    | inl q ↦
        rw (q, insert_ranked)
          (ground (arith, eq_iff x.0 k, eq_iff y.0 k, eq_iff y.0 x.0, get-insert k x ys))
    | inr q ↦ rw (q, insert_ranked) refl
  ]

  insert-DistinctKeys :
      (x : Ranked S) (ys : List (Ranked S))
      → get x.0 ys ≡ none
      → DistinctKeys ys
      → DistinctKeys (insert_ranked ops x ys)
  unfolding insert_ranked get
  insert-DistinctKeys x [] h d = (h, tt)
  insert-DistinctKeys x (y ∷ ys) h d = elim (Bool-cases (precedes ops y x)) [
    | inl q ↦
        rw (q, insert_ranked)
          (
            ground (arith, eq_iff x.0 y.0, eq_iff y.0 x.0, get-insert y.0 x ys),
            insert-DistinctKeys x ys (ground arith) d.1,
          )
    | inr q ↦ rw (q, insert_ranked) (h, d)
  ]

  pub get-sort :
      (k : String) (xs : List (Ranked S)) → DistinctKeys xs → get k (sort_ranked ops xs) ≡ get k xs
  unfolding sort_ranked get
  get-sort k [] d = refl
  get-sort k (x ∷ xs) d =
      get-insert k x (sort_ranked ops xs) (get-sort x.0 xs d.1 ∙ d.0)
      ∙ ap (λ o. if str_eq x.0 k then some x.1 else o) (get-sort k xs d.1)

  pub sort-DistinctKeys :
      (xs : List (Ranked S)) → DistinctKeys xs → DistinctKeys (sort_ranked ops xs)
  unfolding sort_ranked
  sort-DistinctKeys [] d = tt
  sort-DistinctKeys (x ∷ xs) d =
      insert-DistinctKeys x (sort_ranked ops xs) (get-sort x.0 xs d.1 ∙ d.0)
        (sort-DistinctKeys xs d.1)

  -- the entries with no smaller score than `s`
  abbrev pub NotBelow : S → Ranked S → Type 0
  NotBelow s x = ops.less x.1.0 s ≡ false

  module _
      (trans : (a b c : S)
        → ops.less a b ≡ false
        → ops.less b c ≡ false
        → ops.less a c ≡ false) where
    head-NotBelow :
        (k : String) (x : Ranked S) (xs : List (Ranked S)) {v : S × ℕ}
        → IsHead ops x xs
        → IsSorted ops xs
        → get k xs ≡ some v
        → NotBelow v.0 x
    unfolding get
    head-NotBelow k x [] h s e = absurd (cc)
    head-NotBelow k x (y ∷ ys) {v} h s e = elim (Bool-cases (str_eq y.0 k)) [
      | inl q ↦ let p : y.1 ≡ v = ground arith in rw (← p) (precedes-less ops x y h)
      | inr q ↦
          trans x.1.0 y.1.0 v.0 (precedes-less ops x y h)
            (head-NotBelow k y ys {v = v} s.0 s.1 (ground arith))
    ]

    drop-get :
        (n : ℕ) (k : String) (xs : List (Ranked S)) {v : S × ℕ}
        → DistinctKeys xs
        → get k (drop n xs) ≡ some v
        → get k xs ≡ some v
    unfolding get
    drop-get zero k xs d e = e
    drop-get (suc n) k [] d e = e
    drop-get (suc n) k (x ∷ xs) {v} d e = elim (str_eq-cases x.0 k) [
      | inl (p, q) ↦
          absurd (let h = drop-get n k xs {v = v} d.1 e in cc (d.0, h, ap (λ j. get j xs) p))
      | inr (p, q) ↦ rw q (drop-get n k xs {v = v} d.1 e)
    ]

    -- what is taken has no smaller score than what is not
    pub take-NotBelow :
        (n : ℕ) (k : String) (xs : List (Ranked S)) {v : S × ℕ}
        → DistinctKeys xs
        → IsSorted ops xs
        → get k (drop n xs) ≡ some v
        → All (NotBelow v.0) (take n xs)
    take-NotBelow zero k xs d s e = tt
    take-NotBelow (suc n) k [] d s e = tt
    take-NotBelow (suc n) k (x ∷ xs) {v} d s e = (
      head-NotBelow k x xs {v = v} s.0 s.1 (drop-get n k xs {v = v} d.1 e),
      take-NotBelow n k xs {v = v} d.1 s.1 e,
    )
