-- ===== src/Routing/Model.antt =====
-- The data types of app/model_runtime/routing.py that the selector and the executor share.
use rag_agent.Prelude.{ℕ, String, str_eq, Bool, Option, List, none, some, if◌then◌else◌}

pub data Tier : Type 0 where
  fast standard deep : Tier

-- `Tier(name)`; `none` is its `ValueError`
unfoldable pub tier_of : String → Option Tier
tier_of name =
    if str_eq name "fast"
    then some fast
    else if str_eq name "standard"
    then some standard
    else if str_eq name "deep"
    then some deep
    else none

pub record ModelCandidate : Type 0 where
  pub id : String
  pub provider : String
  pub model : String
  pub url : Option String
  pub dimension : Option ℕ
  pub priority : ℕ
  pub enabled : Bool
  pub supports_thinking : Bool

pub record TierPlan : Type 0 where
  pub candidates : List String
  pub timeout_ms : ℕ

pub record ModelTarget : Type 0 where
  pub candidate : ModelCandidate
  pub tier : Option Tier
  pub timeout_ms : Option ℕ
