-- ===== src/Retrieval/PostProcessors/Best.antt =====
-- The fusion keeps the best keys, each with its first chunk and the sum of its shares.
use rag_agent.Prelude.{
  ℕ, ◌≤◌, String, str_eq, str_eq-cases, ◌≡◌, refl, ap, ◌∙◌, true, false, Option, none, some, List,
  [], ◌∷◌, ◌⊎◌, length, length-take, take, arith, All, inl, inr,
}
use mathlib.Core.Option
use rag_agent.Dict.{get}
use rag_agent.Dict.Size.{DistinctKeys}
use rag_agent.Retrieval.PostProcessors.{
  RetrievedChunk, SearchChannelResult, or_default, Tally, new_tally, Scores, tally_results, Ranked,
  sort_ranked, rank_keys, fused_chunks, fuse_active, fuse, active,
}
use rag_agent.Retrieval.PostProcessors.Distinct.{find_chunk, DistinctChunks}
use rag_agent.Retrieval.PostProcessors.First.{first_of, representatives-tally_results}
use rag_agent.Retrieval.PostProcessors.Kept.{
  take-DistinctKeys, take-none, Taken, take-Taken, get-sort, sort-DistinctKeys, NotBelow,
  take-NotBelow,
}
use rag_agent.Retrieval.PostProcessors.Order.{
  HasScore, rank_keys-HasScore, get-rank_keys, rank_keys-DistinctKeys, IsDescending,
  fused_chunks-IsDescending, length-fused_chunks,
}
use rag_agent.Retrieval.PostProcessors.Sorting.{take-IsSorted, sort-IsSorted, sort-All, take-All}
use rag_agent.Retrieval.PostProcessors.Sums.{
  sum_results, get-tally_results, IsTally, new-IsTally, own,
}

module _ {S X : Type 0} (ops : Scores S) where
  module _ (t : Tally S X) (h : IsTally t) where
    find-fused_chunks :
        (k : String) (xs : List (Ranked S)) (c : RetrievedChunk S X) {s : S} {n : ℕ}
        → All (HasScore t.scores) xs
        → get k t.representatives ≡ some c
        → get k xs ≡ some (s, n)
        → find_chunk k (fused_chunks xs t.representatives) ≡ some (record c { score = s })
    unfolding fused_chunks get
    find-fused_chunks k [] c a r e = absurd (cc)
    find-fused_chunks k ((j, (b, m)) ∷ xs) c {s} {n} a r e =
        let o = own t j b h a.0 in
        elim (str_eq-cases j k) [
          | inl (p, q) ↦
              let same : o.0 ≡ c = ground (arith, ap (λ i. get i t.representatives) p, o.1) in
              rw (o.1, fused_chunks) (ground (arith, o.2, same, ap (λ i. str_eq i k) o.2))
          | inr (p, q) ↦
              rw (o.1, fused_chunks)
                (ground
                  (arith, ap (λ i. str_eq i k) o.2, find-fused_chunks k xs c {s = s} {n = n} a.1 r))
        ]

    find-fused_none :
        (k : String) (xs : List (Ranked S))
        → All (HasScore t.scores) xs
        → get k xs ≡ none
        → find_chunk k (fused_chunks xs t.representatives) ≡ none
    unfolding fused_chunks get
    find-fused_none k [] a e = refl
    find-fused_none k ((j, (b, m)) ∷ xs) a e =
        let o = own t j b h a.0 in
        rw (o.1, fused_chunks) (ground (arith, ap (λ i. str_eq i k) o.2, find-fused_none k xs a.1))

    fused_chunks-DistinctChunks :
        (xs : List (Ranked S))
        → All (HasScore t.scores) xs
        → DistinctKeys xs
        → DistinctChunks (fused_chunks xs t.representatives)
    unfolding fused_chunks
    fused_chunks-DistinctChunks [] a d = tt
    fused_chunks-DistinctChunks ((j, (b, m)) ∷ xs) a d =
        let o = own t j b h a.0 in
        rw (o.1, fused_chunks)
          (
            ap (λ i. find_chunk i (fused_chunks xs t.representatives)) o.2
                ∙ find-fused_none j xs a.1 d.0,
            fused_chunks-DistinctChunks xs a.1 d.1,
          )

    -- the chunks that a score does not exceed
    fused_chunks-All :
        (s : S) (xs : List (Ranked S))
        → All (HasScore t.scores) xs
        → All (NotBelow ops s) xs
        → All (λ c. ops.less c.score s ≡ false) (fused_chunks xs t.representatives)
    unfolding fused_chunks
    fused_chunks-All s [] a d = tt
    fused_chunks-All s ((j, (b, m)) ∷ xs) a d =
        rw ((own t j b h a.0).1, fused_chunks) (d.0, fused_chunks-All s xs a.1 d.1)

  -- What becomes of a key with its first chunk and the sum of its shares, if it has been found: it is in
  -- the answer with both, or the answer is full, and each of its chunks has no smaller score.
  abbrev pub IsKept :
      ℕ → String → List (RetrievedChunk S X) → Option (RetrievedChunk S X) → Option S → Type 0
  IsKept limit k out first none = find_chunk k out ≡ none
  IsKept limit k out none (some s) = ⊥
  IsKept limit k out (some c) (some s) =
      (find_chunk k out ≡ some (record c { score = s }))
      ⊎ ((find_chunk k out ≡ none)
          × (length out ≡ limit)
          × All (λ d. ops.less d.score s ≡ false) out)

  module _ (asym : (a b : S) → ops.less a b ≡ true → ops.less b a ≡ false)
      (trans : (a b c : S) → ops.less a b ≡ false → ops.less b c ≡ false → ops.less a c ≡ false)
      (t : Tally S X) (h : IsTally t) where
    abbrev ranked : List (Ranked S)
    ranked = rank_keys t.scores t.first_seen

    abbrev sorted : List (Ranked S)
    sorted = sort_ranked ops ranked

    ranked-DistinctKeys : DistinctKeys ranked
    ranked-DistinctKeys = rank_keys-DistinctKeys t.scores t.first_seen h.1

    sorted-DistinctKeys : DistinctKeys sorted
    sorted-DistinctKeys = sort-DistinctKeys ops ranked ranked-DistinctKeys

    get-sorted :
        (k : String)
        → get k sorted ≡ Option.map (λ s. (s, or_default 0 (get k t.first_seen))) (get k t.scores)
    get-sorted k = get-sort ops k ranked ranked-DistinctKeys ∙ get-rank_keys k t.scores t.first_seen

    taken-HasScore : (limit : ℕ) → All (HasScore t.scores) (take limit sorted)
    taken-HasScore limit =
        take-All ops (HasScore t.scores) limit sorted
          (sort-All ops (HasScore t.scores) ranked (rank_keys-HasScore t.scores t.first_seen h.1))

    Taken-IsKept :
        (limit : ℕ) (k : String) (c : RetrievedChunk S X) (s : S) (n : ℕ)
        → get k t.representatives ≡ some c
        → Taken limit k sorted (s, n)
        → IsKept limit k (fused_chunks (take limit sorted) t.representatives) (some c) (some s)
    Taken-IsKept limit k c s n r (inl e) =
        inl
          (find-fused_chunks t h k (take limit sorted) c {s = s} {n = n} (taken-HasScore limit) r e)
    Taken-IsKept limit k c s n r (inr e) = inr (
      find-fused_none t h k (take limit sorted) (taken-HasScore limit) e.0,
      length-fused_chunks ops t h (take limit sorted) (taken-HasScore limit) ∙ e.2,
      fused_chunks-All t h s (take limit sorted) (taken-HasScore limit) (
          take-NotBelow ops trans limit k sorted {v = (s, n)} sorted-DistinctKeys
            (sort-IsSorted ops asym ranked) e.1),
    )

    fused-IsKept :
        (limit : ℕ) (k : String) (first : Option (RetrievedChunk S X)) (sum : Option S)
        → get k t.representatives ≡ first
        → get k t.scores ≡ sum
        → IsKept limit k (fused_chunks (take limit sorted) t.representatives) first sum
    fused-IsKept limit k first none r e =
        find-fused_none t h k (take limit sorted) (taken-HasScore limit) (
          take-none limit k sorted
            (get-sorted k ∙ ap (Option.map (λ x. (x, or_default 0 (get k t.first_seen)))) e))
    fused-IsKept limit k none (some s) r e = absurd (let o = own t k s h e in cc (o.1, r))
    fused-IsKept limit k (some c) (some s) r e =
        Taken-IsKept limit k c s (or_default 0 (get k t.first_seen)) r (
          take-Taken limit k sorted {v = (s, or_default 0 (get k t.first_seen))}
            (get-sorted k ∙ ap (Option.map (λ x. (x, or_default 0 (get k t.first_seen)))) e))

  -- With two or more channels that found something, and scores that are ordered (`<` is asymmetric, and
  -- its negation is transitive): the fused chunks have different keys, are no more than the limit, and
  -- none has a greater score than the one before it. Every key that some channel found is among them
  -- with its first chunk and, as its score, the sum of its shares over all channels and ranks; or there
  -- are as many as the limit, and none of them has a smaller score. A key that was not found is not.
  pub fuse_lem :
      (limit : ℕ) (k : String) (results : List (SearchChannelResult S X))
      (r s : SearchChannelResult S X) (rs : List (SearchChannelResult S X))
      → ((a b : S) → ops.less a b ≡ true → ops.less b a ≡ false)
      → ((a b c : S) → ops.less a b ≡ false → ops.less b c ≡ false → ops.less a c ≡ false)
      → active results ≡ r ∷ s ∷ rs
      → DistinctChunks (fuse ops limit results)
        × (length (fuse ops limit results) ≤ limit)
        × IsDescending ops (fuse ops limit results)
        × IsKept limit k
            (fuse ops limit results)
            (first_of ops k (r ∷ s ∷ rs))
            (sum_results ops k (r ∷ s ∷ rs) none)
  unfolding fuse fuse_active
  fuse_lem limit k results r s rs asym trans e =
      let all = r ∷ s ∷ rs in
      let t = tally_results ops all new_tally in
      let h = new-IsTally ops all in
      let xs = take limit (sort_ranked ops (rank_keys t.scores t.first_seen)) in
      let scored = taken-HasScore asym trans t h limit in
      rw (e, fuse)
        (
          fused_chunks-DistinctChunks t h xs scored
              (take-DistinctKeys limit _ (sorted-DistinctKeys asym trans t h)),
          omega (
            arith,
            length-fused_chunks ops t h xs scored,
            length-take limit (sort_ranked ops (rank_keys t.scores t.first_seen)),
          ),
          fused_chunks-IsDescending ops t h xs scored (
              take-IsSorted ops limit _ (sort-IsSorted ops asym (rank_keys t.scores t.first_seen))),
          fused-IsKept asym trans t h limit k (first_of ops k all) (sum_results ops k all none)
              (representatives-tally_results ops k all new_tally ∙ (unfold get in refl))
              (get-tally_results ops k all new_tally ∙ (unfold get in refl)),
        )
