-- ===== src/Retrieval/PostProcessors/First.antt =====
-- The representative of a key is its first chunk in any channel.
use rag_agent.Prelude.{
  ℕ, suc, String, str_eq, ◌≡◌, refl, ap, ◌∙◌, Option, none, some, List, [], ◌∷◌, if◌then◌else◌,
  arith,
}
use rag_agent.Dict.{get}
use rag_agent.Retrieval.PostProcessors.{
  RetrievedChunk, SearchChannelResult, or_default, Tally, Scores, tally_chunk, tally_chunks,
  tally_results,
}
use rag_agent.Retrieval.PostProcessors.Distinct.{find_chunk}
use rag_agent.Retrieval.PostProcessors.Sums.{get-set_default}

module _ {S X : Type 0} (ops : Scores S) (k : String) where
  -- of two finds the first
  abbrev or_first :
      Option (RetrievedChunk S X) → Option (RetrievedChunk S X) → Option (RetrievedChunk S X)
  or_first none c = c
  or_first (some c) d = some c

  -- the first chunk of a key in any channel
  abbrev pub first_of : List (SearchChannelResult S X) → Option (RetrievedChunk S X)
  first_of [] = none
  first_of (r ∷ rs) = or_first (find_chunk k r.chunks) (first_of rs)

  or_none : (o : Option (RetrievedChunk S X)) → o ≡ or_first o none
  or_none none = refl
  or_none (some c) = refl

  or_first_assoc :
      (a b c : Option (RetrievedChunk S X)) → or_first (or_first a b) c ≡ or_first a (or_first b c)
  or_first_assoc none b c = refl
  or_first_assoc (some x) b c = refl

  kept_first :
      (c : RetrievedChunk S X) (o : Option (RetrievedChunk S X)) (cs : List (RetrievedChunk S X))
      → or_first (if str_eq c.key k then some (or_default c o) else o) (find_chunk k cs)
        ≡ or_first o (find_chunk k (c ∷ cs))
  kept_first c none cs = ground arith
  kept_first c (some x) cs = ground arith

  representatives-tally_chunks :
      (channel : String) (rank : ℕ) (cs : List (RetrievedChunk S X)) (t : Tally S X)
      → get k (tally_chunks ops channel rank cs t).representatives
        ≡ or_first (get k t.representatives) (find_chunk k cs)
  unfolding tally_chunks tally_chunk
  representatives-tally_chunks channel rank [] t = or_none (get k t.representatives)
  representatives-tally_chunks channel rank (c ∷ cs) t =
      representatives-tally_chunks channel (suc rank) cs (tally_chunk ops channel rank c t)
      ∙ ap (λ o. or_first o (find_chunk k cs)) (get-set_default c.key k c t.representatives)
      ∙ kept_first c (get k t.representatives) cs

  pub representatives-tally_results :
      (rs : List (SearchChannelResult S X)) (t : Tally S X)
      → get k (tally_results ops rs t).representatives
        ≡ or_first (get k t.representatives) (first_of rs)
  unfolding tally_results
  representatives-tally_results [] t = or_none (get k t.representatives)
  representatives-tally_results (r ∷ rs) t =
      representatives-tally_results rs (tally_chunks ops r.channel_type 0 r.chunks t)
      ∙ ap (λ o. or_first o (first_of rs))
          (representatives-tally_chunks r.channel_type 0 r.chunks t)
      ∙ or_first_assoc (get k t.representatives) (find_chunk k r.chunks) (first_of rs)
