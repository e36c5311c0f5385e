-- ===== src/Intent/Resolver.antt =====
-- `IntentResolver.resolve` of app/rag/intent/resolver.py. The classifier is a parameter, `none` where it
-- raises; `S` are the scores, `at_least` is the comparison with `min_score`, and `less` their order.
pub mod Total
mod Examples
use rag_agent.Prelude.{
  ℕ, zero, suc, ◌+◌, ◌-◌, String, Bool, true, false, Option, none, some, List, [], ◌∷◌, ◌++◌,
  length, take, drop, leb, ltb, if◌then◌else◌,
}

pub data IntentKind : Type 0 where
  kb mcp system : IntentKind

-- `N` holds the other fields
pub record IntentNode (N : Type 0) : Type 0 where
  pub kind : IntentKind
  pub rest : N

pub record NodeScore (S N : Type 0) : Type 0 where
  pub node : IntentNode N
  pub score : S

pub record SubQuestionIntent (S N : Type 0) : Type 0 where
  pub sub_question : String
  pub node_scores : List (NodeScore S N)

pub record IntentResolver (S : Type 0) : Type 0 where
  pub at_least : S → Bool
  pub less : S → S → Bool
  pub max_per_question : ℕ
  pub max_total : ℕ

module _ {S N : Type 0} where
  -- `sum(len(item.node_scores) for item in results)`
  unfoldable pub total_scores : List (SubQuestionIntent S N) → ℕ
  total_scores [] = 0
  total_scores (i ∷ is) = length i.node_scores + total_scores is

  -- `node_scores[:1] if quota else ()`
  abbrev pub first_within : ℕ → List (NodeScore S N) → List (NodeScore S N)
  first_within zero ss = []
  first_within (suc quota) ss = take 1 ss

  -- the first score of each question while the quota lasts, and what is left of the quota
  unfoldable pub keep_first : ℕ → List (SubQuestionIntent S N) → List (SubQuestionIntent S N) × ℕ
  keep_first quota [] = ([], quota)
  keep_first quota (i ∷ is) =
      let scores = first_within quota i.node_scores in
      let (kept, left) = keep_first (quota - length scores) is in
      (record i { node_scores = scores } ∷ kept, left)

  abbrev pub indexed : ℕ → List (NodeScore S N) → List (NodeScore S N × ℕ)
  indexed index [] = []
  indexed index (s ∷ ss) = (s, index) ∷ indexed index ss

  -- `((score, index) for index, item in enumerate(results) for score in item.node_scores[1:])`
  unfoldable pub others : ℕ → List (SubQuestionIntent S N) → List (NodeScore S N × ℕ)
  others index [] = []
  others index (i ∷ is) = indexed index (drop 1 i.node_scores) ++ others (suc index) is

  -- `mutable[index].append(score)`
  unfoldable pub append_at :
      ℕ → NodeScore S N → List (SubQuestionIntent S N) → List (SubQuestionIntent S N)
  append_at index s [] = []
  append_at zero s (i ∷ is) = record i { node_scores = i.node_scores ++ s ∷ [] } ∷ is
  append_at (suc index) s (i ∷ is) = i ∷ append_at index s is

  -- the loop over `rest`
  unfoldable pub distribute :
      ℕ → List (NodeScore S N × ℕ) → List (SubQuestionIntent S N) → List (SubQuestionIntent S N)
  distribute quota [] is = is
  distribute zero ((s, index) ∷ rest) is = is
  distribute (suc quota) ((s, index) ∷ rest) is = distribute quota rest (append_at index s is)

  unfoldable pub all_scores : List (SubQuestionIntent S N) → List (NodeScore S N)
  all_scores [] = []
  all_scores (i ∷ is) = i.node_scores ++ all_scores is

  abbrev pub is_one_system : List (NodeScore S N) → Bool
  is_one_system [] = false
  is_one_system (s ∷ []) = elim s.node.kind [ system ↦ true | kb ↦ false | mcp ↦ false ]
  is_one_system (s ∷ t ∷ ss) = false

  unfoldable pub is_system_only : List (SubQuestionIntent S N) → Bool
  is_system_only is = is_one_system (all_scores is)

module _ {S N : Type 0} (r : IntentResolver S) where
  unfoldable pub good_scores : List (NodeScore S N) → List (NodeScore S N)
  good_scores [] = []
  good_scores (s ∷ ss) = let rest = good_scores ss in if r.at_least s.score then s ∷ rest else rest

  abbrev pub classified : Option (List (NodeScore S N)) → List (NodeScore S N)
  classified none = []
  classified (some ss) = take r.max_per_question (good_scores ss)

  -- `one`, for each question
  unfoldable pub classify_all :
      (String → Option (List (NodeScore S N))) → List String → List (SubQuestionIntent S N)
  classify_all classify [] = []
  classify_all classify (q ∷ qs) =
      record { sub_question = q; node_scores = classified (classify q) } ∷ classify_all classify qs

  unfoldable pub insert_descending :
      NodeScore S N × ℕ → List (NodeScore S N × ℕ) → List (NodeScore S N × ℕ)
  insert_descending x [] = x ∷ []
  insert_descending x (y ∷ ys) =
      let rest = insert_descending x ys in
      if r.less x.0.score y.0.score then y ∷ rest else x ∷ y ∷ ys

  -- `sorted(..., reverse=True)`, which keeps the order of equal scores
  unfoldable pub sort_scores : List (NodeScore S N × ℕ) → List (NodeScore S N × ℕ)
  sort_scores [] = []
  sort_scores (x ∷ xs) = insert_descending x (sort_scores xs)

  -- the cap on the number of all scores
  unfoldable pub cap : List (SubQuestionIntent S N) → List (SubQuestionIntent S N)
  cap results =
      let (kept, quota) = keep_first r.max_total results in
      if leb (total_scores results) r.max_total
      then results
      else distribute quota (sort_scores (others 0 results)) kept

  unfoldable pub resolve :
      (String → Option (List (NodeScore S N))) → List String → List (SubQuestionIntent S N)
  resolve classify questions = cap (classify_all classify questions)
