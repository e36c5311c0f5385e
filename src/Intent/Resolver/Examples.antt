-- ===== src/Intent/Resolver/Examples.antt =====
-- The resolver at three questions, of which one cannot be classified, with natural numbers as scores.
use rag_agent.Prelude.{
  ℕ, min, String, str_eq, ◌≡◌, refl, Option, none, some, List, [], ◌∷◌, ltb, leb, if◌then◌else◌,
}
use rag_agent.Intent.Resolver.{
  kb, NodeScore, IntentResolver, total_scores, keep_first, others, append_at, distribute,
  good_scores, classify_all, insert_descending, sort_scores, cap, resolve,
}
use rag_agent.Intent.Resolver.Total.{questions, resolve-total_scores}

abbrev resolver : IntentResolver ℕ
resolver = record { at_least = leb 35; less = ltb; max_per_question = 3; max_total = 3 }

abbrev node_score : ℕ → NodeScore ℕ ℕ
node_score n = record { node = record { kind = kb; rest = 0 }; score = n }

abbrev classify : String → Option (List (NodeScore ℕ ℕ))
classify q =
    if str_eq q "a"
    then some (node_score 90 ∷ node_score 40 ∷ node_score 10 ∷ [])
    else if str_eq q "b"
    then some (node_score 70 ∷ node_score 60 ∷ [])
    else none

abbrev asked : List String
asked = "a" ∷ "b" ∷ "c" ∷ []

resolve-total_scores_example :
    (questions (resolve resolver classify asked) ≡ asked)
    × (total_scores (resolve resolver classify asked)
        ≡ min (total_scores (classify_all resolver classify asked)) 3)
resolve-total_scores_example = resolve-total_scores resolver classify asked

-- the second score of "b" is better than that of "a"
asked_lem :
    resolve resolver classify asked
    ≡ record { sub_question = "a"; node_scores = node_score 90 ∷ [] }
      ∷ record { sub_question = "b"; node_scores = node_score 70 ∷ node_score 60 ∷ [] }
      ∷ record { sub_question = "c"; node_scores = [] }
      ∷ []
unfolding total_scores keep_first others append_at distribute good_scores classify_all
    insert_descending sort_scores cap resolve
asked_lem = refl
