-- ===== src/Routing/Selector.antt =====
-- `ModelSelector` of app/model_runtime/routing.py, for the chat tiers.
mod Order
mod Targets
mod Candidates
mod Examples
use rag_agent.Prelude.{
  contains, ℕ, String, str_eq, Bool, true, false, ◌&&◌, ◌||◌, not, Option, none, some, List, [],
  ◌∷◌, ◌++◌, if◌then◌else◌,
}
use mathlib.Core.Option
use rag_agent.Dict
use rag_agent.Routing.Health.{HealthStore, is_unavailable}
use rag_agent.Routing.Model.{Tier, tier_of, ModelCandidate, TierPlan, ModelTarget}

pub record ModelSelector : Type 0 where
  pub candidates : List (String × ModelCandidate)
  pub tiers : List (String × TierPlan)
  pub default_tier : String
  pub deep_thinking_tier : Option String
  pub configured_providers : Option (List String)

abbrev pub truthy : Option String → Bool
truthy none = false
truthy (some s) = not (str_eq s "")

pub resolve_tier_name : ModelSelector → Bool → Option String → String
resolve_tier_name s thinking override =
    if thinking && truthy s.deep_thinking_tier
    then Option.get_or s.deep_thinking_tier s.default_tier
    else Option.get_or override s.default_tier

-- the loop of `_preferred_then_plan`, over the result so far
pub add_new : List String → List String → List String
add_new result [] = result
add_new result (m ∷ ids) =
    add_new (if not (str_eq m "") && not (contains m result) then result ++ m ∷ [] else result) ids

pub preferred_then_plan : Option String → List String → List String
preferred_then_plan preferred plan_ids =
    add_new [] ((if truthy preferred then Option.get_or preferred "" ∷ [] else []) ++ plan_ids)

-- `candidate.provider not in self.configured_providers`, for other providers than NOOP
provider_ok : Option (List String) → String → Bool
provider_ok none provider = true
provider_ok (some configured) provider = str_eq provider "noop" || contains provider configured

-- the tests of the loop of `build_tier_targets` that do not ask the health store
pub accepts : ModelSelector → Bool → ModelCandidate → Bool
unfolding provider_ok
accepts s thinking c =
    c.enabled
    && (not thinking || c.supports_thinking)
    && provider_ok s.configured_providers c.provider

-- `self.health_store and await self.health_store.is_unavailable(…)`
pub unavailable : ℕ → String → Option HealthStore → Bool × Option HealthStore
unavailable now m none = (false, none)
unavailable now m (some h) = let (answer, h') = is_unavailable now m h in (answer, some h')

module _ (s : ModelSelector) (thinking : Bool) (tier_name : String) (timeout_ms : ℕ) where
  -- The loop over the ordered ids. `clock m` is the clock's reading when `m` is asked for.
  pub targets_of :
      (String → ℕ)
      → List String
      → Option HealthStore
      → Option (List ModelTarget) × Option HealthStore
  targets_of clock [] h = (some [], h)
  targets_of clock (m ∷ ids) h = elim (Dict.get m s.candidates) [
    | none ↦ targets_of clock ids h
    | some c ↦ elim (accepts s thinking c) [
      | false ↦ targets_of clock ids h
      | true ↦
          let (out, h') = unavailable (clock m) c.id h in
          let (rest, h'') = targets_of clock ids h' in
          if out then (rest, h'') else elim (tier_of tier_name) [
            | none ↦ (none, h')
            | some t ↦ (
              Option.map
                  (λ ts. record { candidate = c; tier = some t; timeout_ms = some timeout_ms } ∷ ts)
                  rest,
              h'',
            )
          ]
    ]
  ]

-- `none` is the `ValueError` of an unknown tier.
pub build_tier_targets :
    ModelSelector
    → (String → ℕ)
    → Bool
    → Option String
    → Option String
    → Option HealthStore
    → Option (List ModelTarget) × Option HealthStore
build_tier_targets s clock thinking override preferred h =
    let tier_name = resolve_tier_name s thinking override in
    elim (Dict.get tier_name s.tiers) [
      | none ↦ (some [], h)
      | some plan ↦
          targets_of s thinking tier_name plan.timeout_ms clock
            (preferred_then_plan preferred plan.candidates) h
    ]
