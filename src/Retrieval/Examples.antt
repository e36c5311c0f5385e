-- ===== src/Retrieval/Examples.antt =====
-- The theorems on post-processing at concrete results, with natural numbers as scores.
use rag_agent.Prelude.{
  ℕ, ◌+◌, ◌-◌, ◌≤◌, none, String, ◌≡◌, refl, true, false, [], ◌∷◌, length, ltb, arith,
}
use rag_agent.Dict.{get, put}
use rag_agent.Retrieval.PostProcessors.{
  RetrievedChunk, SearchChannelResult, Scores, first_chunks, deduplicate, active, tally_chunk,
  tally_chunks, tally_results, insert_ranked, sort_ranked, rank_keys, fused_chunks, fuse_active,
  fuse,
}
use rag_agent.Retrieval.PostProcessors.Distinct.{
  DistinctChunks, IsDeduplicated, deduplicate-IsDeduplicated,
}
use rag_agent.Retrieval.PostProcessors.Order.{IsDescending}
use rag_agent.Retrieval.PostProcessors.Sums.{sum_results}
use rag_agent.Retrieval.PostProcessors.First.{first_of}
use rag_agent.Retrieval.PostProcessors.Best.{IsKept, fuse_lem}

abbrev found : String → ℕ → RetrievedChunk ℕ ℕ
found key n = record { key = key; score = n; rest = 0 }

abbrev vector : SearchChannelResult ℕ ℕ
vector = record { channel_type = "vector"; chunks = found "a" 9 ∷ found "b" 8 ∷ found "a" 7 ∷ [] }

abbrev keyword : SearchChannelResult ℕ ℕ
keyword = record { channel_type = "keyword"; chunks = found "b" 5 ∷ found "c" 4 ∷ [] }

abbrev ops : Scores ℕ
ops = record { zero_score = 0; plus = λ a b. a + b; less = ltb; share = λ channel rank. 10 - rank }

deduplicate-IsDeduplicated_example :
    IsDeduplicated "a" (vector ∷ keyword ∷ []) (deduplicate (vector ∷ keyword ∷ []))
deduplicate-IsDeduplicated_example = deduplicate-IsDeduplicated "a" (vector ∷ keyword ∷ [])

asym : (a b : ℕ) → ltb a b ≡ true → ltb b a ≡ false
asym a b h = ground arith

trans : (a b c : ℕ) → ltb a b ≡ false → ltb b c ≡ false → ltb a c ≡ false
trans a b c h k = ground arith

-- the limit drops "c"
fuse_lem_example :
    DistinctChunks (fuse ops 2 (vector ∷ keyword ∷ []))
    × (length (fuse ops 2 (vector ∷ keyword ∷ [])) ≤ 2)
    × IsDescending ops (fuse ops 2 (vector ∷ keyword ∷ []))
    × IsKept ops 2 "c"
        (fuse ops 2 (vector ∷ keyword ∷ []))
        (first_of ops "c" (vector ∷ keyword ∷ []))
        (sum_results ops "c" (vector ∷ keyword ∷ []) none)
fuse_lem_example =
    fuse_lem ops 2 "c" (vector ∷ keyword ∷ []) vector keyword [] asym trans (unfold active in refl)

-- "b" is found by both
fused : fuse ops 2 (deduplicate (vector ∷ keyword ∷ [])) ≡ found "b" 19 ∷ found "a" 10 ∷ []
unfolding get put first_chunks deduplicate active tally_chunk tally_chunks tally_results
    insert_ranked sort_ranked rank_keys fused_chunks fuse_active fuse
fused = refl
