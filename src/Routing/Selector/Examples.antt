-- ===== src/Routing/Selector/Examples.antt =====
-- The selector's theorems at a concrete registry.
use rag_agent.Prelude.{ℕ, String, ◌≡◌, refl, true, false, none, some, List, [], ◌∷◌, ◌++◌}
use rag_agent.Dict.{get, put}
use rag_agent.Routing.Health.{HealthStore, opened, entry_of, is_unavailable, set_entry}
use rag_agent.Routing.Model.{fast, tier_of, ModelCandidate}
use rag_agent.Routing.Selector.{
  ModelSelector, add_new, preferred_then_plan, resolve_tier_name, accepts, unavailable, targets_of,
  build_tier_targets,
}
use mathlib.Core.List.{Perm}
use rag_agent.Routing.Selector.Candidates.{
  by_id_of, text_less, insert_candidate, sort_others, target_of, usable_targets, select_candidates,
}
use rag_agent.Routing.Selector.Candidates.Ranking.{IsRanked, without}
use rag_agent.Routing.Selector.Candidates.Usable.{usable, default_first, select_candidates-usable}
use rag_agent.Routing.Selector.Targets.{eligible_targets, build_tier_targets-eligible}

ordered : preferred_then_plan (some "b") ("a" ∷ "b" ∷ "" ∷ "a" ∷ []) ≡ "b" ∷ "a" ∷ []
unfolding preferred_then_plan add_new
ordered = refl

abbrev candidate : String → ModelCandidate
candidate id = record {
  id = id;
  provider = "bailian";
  model = id;
  url = none;
  dimension = none;
  priority = 100;
  enabled = true;
  supports_thinking = false;
}

abbrev selector : ModelSelector
selector = record {
  candidates = ("a", candidate "a") ∷ ("b", candidate "b") ∷ [];
  tiers = ("fast", record { candidates = "a" ∷ "b" ∷ []; timeout_ms = 800 }) ∷ [];
  default_tier = "fast";
  deep_thinking_tier = none;
  configured_providers = some ("bailian" ∷ []);
}

-- the circuit of "a" is open until 35
abbrev store : HealthStore
store = record {
  failure_threshold = 2;
  open_duration = 30;
  entries =
      (
        "a",
        record { state = opened; consecutive_failures = 0; open_until = 35; half_open_token = 0 },
      )
      ∷ [];
  token_seq = 0;
}

abbrev clock : String → ℕ
clock m = 10

-- the open circuit is passed over
open_circuit_skipped :
    (build_tier_targets selector clock false none none (some store)).0
    ≡ some (record { candidate = candidate "b"; tier = some fast; timeout_ms = some 800 } ∷ [])
unfolding build_tier_targets resolve_tier_name preferred_then_plan add_new targets_of accepts
    unavailable is_unavailable set_entry entry_of tier_of get put
open_circuit_skipped = refl

build_tier_targets-eligible_example :
    (build_tier_targets selector clock false none none (some store)).0
    ≡ some (
        eligible_targets selector clock false fast 800
          (some store)
          (preferred_then_plan none ("a" ∷ "b" ∷ [])))
unfolding resolve_tier_name tier_of get
build_tier_targets-eligible_example =
    build_tier_targets-eligible selector clock false none none (some store)
      {plan = record { candidates = "a" ∷ "b" ∷ []; timeout_ms = 800 }} {t = fast} refl refl

-- "c" comes before "b" by its priority, and the circuit of "a" is open
abbrev embeddings : List ModelCandidate
embeddings = candidate "b" ∷ record (candidate "c") { priority = 10 } ∷ candidate "a" ∷ []

select_candidates-usable_example :
    (others : List ModelCandidate) × ((select_candidates
        (λ m. 10)
        embeddings
        (some "b")
        (some store)).0
      ≡ usable (λ m. 10) (some store) (default_first (some "b") embeddings ++ others))
    × Perm others (without (some "b") embeddings)
    × IsRanked others
select_candidates-usable_example =
    select_candidates-usable (λ m. 10) embeddings (some "b") (some store)

selected :
    (select_candidates (λ m. 10) embeddings (some "b") (some store)).0
    ≡ target_of (candidate "b") ∷ target_of (record (candidate "c") { priority = 10 }) ∷ []
unfolding get put by_id_of text_less insert_candidate sort_others usable_targets select_candidates
    unavailable is_unavailable entry_of set_entry
selected = refl
