-- ===== src/Retrieval/PostProcessors/Distinct.antt =====
-- Deduplication keeps the first chunk of each key.
use rag_agent.Prelude.{
  String, str_eq, eq_iff, ◌≡◌, refl, ap, ◌∙◌, Option, none, some, List, [], ◌∷◌, if◌then◌else◌,
  arith, Bool-cases, str_eq-cases, inl, inr,
}
use rag_agent.Retrieval.PostProcessors.{
  RetrievedChunk, SearchChannelResult, contains, first_chunks, deduplicate,
}

module _ {S X : Type 0} where
  -- the first chunk of a key
  abbrev pub find_chunk : String → List (RetrievedChunk S X) → Option (RetrievedChunk S X)
  find_chunk k [] = none
  find_chunk k (c ∷ cs) = if str_eq c.key k then some c else find_chunk k cs

  abbrev pub DistinctChunks : List (RetrievedChunk S X) → Type 0
  DistinctChunks [] = Unit
  DistinctChunks (c ∷ cs) = (find_chunk c.key cs ≡ none) × DistinctChunks cs

  find-first_chunks :
      (k : String) (seen : List String) (cs : List (RetrievedChunk S X))
      → find_chunk k (first_chunks seen cs) ≡ (if contains k seen then none else find_chunk k cs)
  unfolding first_chunks
  find-first_chunks k seen [] = ground arith
  find-first_chunks k seen (c ∷ cs) = elim (str_eq-cases c.key k) [
    | inl (p, e) ↦ ground (
      arith,
      e,
      ap (λ j. contains j seen) p,
      find-first_chunks k seen cs,
      find-first_chunks k (c.key ∷ seen) cs,
    )
    | inr (p, e) ↦
        ground (arith, e, find-first_chunks k seen cs, find-first_chunks k (c.key ∷ seen) cs)
  ]

  first_chunks-DistinctChunks :
      (seen : List String) (cs : List (RetrievedChunk S X)) → DistinctChunks (first_chunks seen cs)
  unfolding first_chunks
  first_chunks-DistinctChunks seen [] = tt
  first_chunks-DistinctChunks seen (c ∷ cs) = elim (Bool-cases (contains c.key seen)) [
    | inl q ↦ rw (q, first_chunks) (first_chunks-DistinctChunks seen cs)
    | inr q ↦
        rw (q, first_chunks)
          (
            find-first_chunks c.key (c.key ∷ seen) cs ∙ ground (arith, eq_iff c.key c.key),
            first_chunks-DistinctChunks (c.key ∷ seen) cs,
          )
  ]

  -- Of each channel's chunks the first of each key is kept, and no key stands twice.
  abbrev pub IsDeduplicated :
      String → List (SearchChannelResult S X) → List (SearchChannelResult S X) → Type 0
  IsDeduplicated k [] [] = Unit
  IsDeduplicated k [] (s ∷ ss) = ⊥
  IsDeduplicated k (r ∷ rs) [] = ⊥
  IsDeduplicated k (r ∷ rs) (s ∷ ss) =
      (s.channel_type ≡ r.channel_type)
      × DistinctChunks s.chunks
      × (find_chunk k s.chunks ≡ find_chunk k r.chunks)
      × IsDeduplicated k rs ss

  -- The deduplicated results are one for each channel, in the order and of the type of the given ones.
  -- In each no two chunks have the same key, and each key has the chunk that it has first in the given
  -- result, or none if it has none there.
  pub deduplicate-IsDeduplicated :
      (k : String) (rs : List (SearchChannelResult S X)) → IsDeduplicated k rs (deduplicate rs)
  unfolding deduplicate
  deduplicate-IsDeduplicated k [] = tt
  deduplicate-IsDeduplicated k (r ∷ rs) = (
    refl,
    first_chunks-DistinctChunks [] r.chunks,
    find-first_chunks k [] r.chunks,
    deduplicate-IsDeduplicated k rs,
  )
