-- ===== src/Retrieval/PostProcessors.antt =====
-- `DeduplicationPostProcessor` and `WeightedRrfFusion` of app/rag/retrieval/postprocessors.py. The
-- floating-point scores are a type `S` with their addition, their order and the quotient
-- `weight / (rrf_k + rank + 1)`, as parameters.
pub mod Sorting
pub mod Kept
pub mod Order
pub mod Best
pub mod Sums
pub mod First
pub mod Distinct
use rag_agent.Prelude.{
  ℕ, suc, ◌+◌, String, str_eq, Bool, true, false, not, ◌&&◌, ◌||◌, Option, none, some, List, [],
  ◌∷◌, length, take, ltb, if◌then◌else◌,
}
use rag_agent.Dict.{get, put}

-- the fields that the two processors look at; `X` holds the others
pub record RetrievedChunk (S X : Type 0) : Type 0 where
  pub key : String
  pub score : S
  pub rest : X

pub record SearchChannelResult (S X : Type 0) : Type 0 where
  pub channel_type : String
  pub chunks : List (RetrievedChunk S X)

abbrev pub contains : String → List String → Bool
contains k [] = false
contains k (j ∷ js) = str_eq j k || contains k js

module _ {S X : Type 0} where
  -- the loop over the chunks of a result; `seen` is the set of the keys so far
  unfoldable pub first_chunks : List String → List (RetrievedChunk S X) → List (RetrievedChunk S X)
  first_chunks seen [] = []
  first_chunks seen (c ∷ cs) =
      let known = contains c.key seen in
      let rest = first_chunks (if known then seen else c.key ∷ seen) cs in
      if known then rest else c ∷ rest

  unfoldable pub deduplicate : List (SearchChannelResult S X) → List (SearchChannelResult S X)
  deduplicate [] = []
  deduplicate (r ∷ rs) = record r { chunks = first_chunks [] r.chunks } ∷ deduplicate rs

  abbrev pub is_active : SearchChannelResult S X → Bool
  is_active r = elim r.chunks [ [] ↦ false | c ∷ cs ↦ true ]

  unfoldable pub active : List (SearchChannelResult S X) → List (SearchChannelResult S X)
  active [] = []
  active (r ∷ rs) = let rest = active rs in if is_active r then r ∷ rest else rest

-- `setdefault`
abbrev pub set_default : {V : Type 0} → String → V → List (String × V) → List (String × V)
set_default k v d = elim (get k d) [ none ↦ put k v d | some x ↦ d ]

abbrev pub or_default : {V : Type 0} → V → Option V → V
or_default v none = v
or_default v (some x) = x

-- the three dictionaries and the counter of `process`
pub record Tally (S X : Type 0) : Type 0 where
  pub scores : List (String × S)
  pub representatives : List (String × RetrievedChunk S X)
  pub first_seen : List (String × ℕ)
  pub sequence : ℕ

abbrev pub new_tally : {S X : Type 0} → Tally S X
new_tally = record { scores = []; representatives = []; first_seen = []; sequence = 0 }

-- what the fusion asks of the scores: 0.0, `+`, `<`, and the share of a channel at a rank
pub record Scores (S : Type 0) : Type 0 where
  pub zero_score : S
  pub plus : S → S → S
  pub less : S → S → Bool
  pub share : String → ℕ → S

module _ {S X : Type 0} (ops : Scores S) where
  unfoldable pub tally_chunk : String → ℕ → RetrievedChunk S X → Tally S X → Tally S X
  tally_chunk channel rank c t = record {
    scores =
        put c.key
          (ops.plus (or_default ops.zero_score (get c.key t.scores)) (ops.share channel rank))
          t.scores;
    representatives = set_default c.key c t.representatives;
    first_seen = set_default c.key t.sequence t.first_seen;
    sequence = t.sequence + 1;
  }

  -- `enumerate(result.chunks)`, from a rank on
  unfoldable pub tally_chunks : String → ℕ → List (RetrievedChunk S X) → Tally S X → Tally S X
  tally_chunks channel rank [] t = t
  tally_chunks channel rank (c ∷ cs) t =
      tally_chunks channel (suc rank) cs (tally_chunk channel rank c t)

  unfoldable pub tally_results : List (SearchChannelResult S X) → Tally S X → Tally S X
  tally_results [] t = t
  tally_results (r ∷ rs) t = tally_results rs (tally_chunks r.channel_type 0 r.chunks t)

-- what is sorted: a key with its score and the number at which it was first seen
abbrev pub Ranked : Type 0 → Type 0
Ranked S = String × (S × ℕ)

module _ {S : Type 0} (ops : Scores S) where
  -- `(-scores[key], first_seen[key])`, compared as tuples are
  abbrev pub precedes : Ranked S → Ranked S → Bool
  precedes (j, (a, m)) (k, (b, n)) = ops.less b a || (not (ops.less a b) && ltb m n)

  unfoldable pub insert_ranked : Ranked S → List (Ranked S) → List (Ranked S)
  insert_ranked x [] = x ∷ []
  insert_ranked x (y ∷ ys) =
      let rest = insert_ranked x ys in if precedes y x then y ∷ rest else x ∷ y ∷ ys

  -- `sorted`, which keeps the order of equal keys
  unfoldable pub sort_ranked : List (Ranked S) → List (Ranked S)
  sort_ranked [] = []
  sort_ranked (x ∷ xs) = insert_ranked x (sort_ranked xs)

module _ {S : Type 0} where
  unfoldable pub rank_keys : List (String × S) → List (String × ℕ) → List (Ranked S)
  rank_keys [] first_seen = []
  rank_keys ((k, s) ∷ scores) first_seen =
      (k, (s, or_default 0 (get k first_seen))) ∷ rank_keys scores first_seen

module _ {S X : Type 0} where
  -- `replace(representatives[key], score=scores[key])`; a key with no representative is dropped
  unfoldable pub fused_chunks :
      List (Ranked S) → List (String × RetrievedChunk S X) → List (RetrievedChunk S X)
  fused_chunks [] representatives = []
  fused_chunks ((k, (s, n)) ∷ xs) representatives =
      let rest = fused_chunks xs representatives in
      elim (get k representatives) [ none ↦ rest | some c ↦ record c { score = s } ∷ rest ]

module _ {S X : Type 0} (ops : Scores S) where
  abbrev pub fuse_tally : ℕ → Tally S X → List (RetrievedChunk S X)
  fuse_tally limit t =
      fused_chunks (take limit (sort_ranked ops (rank_keys t.scores t.first_seen)))
        t.representatives

  unfoldable pub fuse_active : ℕ → List (SearchChannelResult S X) → List (RetrievedChunk S X)
  fuse_active limit [] = []
  fuse_active limit (r ∷ []) = take limit r.chunks
  fuse_active limit (r ∷ s ∷ rs) = fuse_tally limit (tally_results ops (r ∷ s ∷ rs) new_tally)

  unfoldable pub fuse : ℕ → List (SearchChannelResult S X) → List (RetrievedChunk S X)
  fuse limit results = fuse_active limit (active results)
