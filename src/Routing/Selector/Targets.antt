-- ===== src/Routing/Selector/Targets.antt =====
-- What `build_tier_targets` returns, from the health store as it is at the start.
use rag_agent.Prelude.{
  ℕ, String, ◌≡◌, refl, Bool, ◌&&◌, not, Option, none, some, List, [], ◌∷◌, arith, inl, inr,
  Option-cases, if◌then◌else◌,
}
use rag_agent.Dict
use rag_agent.Routing.Health.{HealthStore}
use rag_agent.Routing.Health.Laws.{is_unavailable_keeps}
use rag_agent.Routing.Model.{Tier, tier_of, ModelCandidate, TierPlan, ModelTarget}
use rag_agent.Routing.Selector.{
  ModelSelector, resolve_tier_name, preferred_then_plan, accepts, unavailable, targets_of,
  build_tier_targets,
}

pub unavailable_keeps :
    (now later : ℕ) (m j : String) (h : Option HealthStore)
    → (unavailable later j (unavailable now m h).1).0 ≡ (unavailable later j h).0
unfolding unavailable
unavailable_keeps now later m j none = refl
unavailable_keeps now later m j (some h) = is_unavailable_keeps now later m j h

abbrev pub with_target : Tier → ℕ → Option ModelCandidate → List ModelTarget → List ModelTarget
with_target t timeout_ms none rest = rest
with_target t timeout_ms (some c) rest =
    record { candidate = c; tier = some t; timeout_ms = some timeout_ms } ∷ rest

module _ (s : ModelSelector) (clock : String → ℕ) (thinking : Bool) where
  -- The model may be called: it is registered and enabled, it can think if that is asked for, its
  -- provider is configured or NOOP, and its circuit lets calls through.
  pub eligible : Option HealthStore → String → Option ModelCandidate
  eligible h m = elim (Dict.get m s.candidates) [
    | none ↦ none
    | some c ↦ if accepts s thinking c && not (unavailable (clock m) c.id h).0 then some c else none
  ]

  pub eligible_targets : Tier → ℕ → Option HealthStore → List String → List ModelTarget
  eligible_targets t timeout_ms h [] = []
  eligible_targets t timeout_ms h (m ∷ ids) =
      with_target t timeout_ms (eligible h m) (eligible_targets t timeout_ms h ids)

  eligible_keeps :
      (now : ℕ) (j m : String) (h : Option HealthStore)
      → eligible (unavailable now j h).1 m ≡ eligible h m
  unfolding eligible
  eligible_keeps now j m h = elim (Option-cases (Dict.get m s.candidates)) [
    | inl e ↦ rw (e, eligible)
    | inr (c, e) ↦ rw (e, eligible) (rw unavailable_keeps)
  ]

  eligible_targets_keeps :
      (t : Tier) (timeout_ms now : ℕ) (j : String) (h : Option HealthStore) (ids : List String)
      → eligible_targets t timeout_ms (unavailable now j h).1 ids
        ≡ eligible_targets t timeout_ms h ids
  unfolding eligible_targets
  eligible_targets_keeps t timeout_ms now j h [] = refl
  eligible_targets_keeps t timeout_ms now j h (m ∷ ids) =
      rw (eligible_keeps now j m h, eligible_targets_keeps t timeout_ms now j h ids)

  targets_of-eligible :
      (name : String) (t : Tier) (timeout_ms : ℕ) (ids : List String) (h : Option HealthStore)
      → tier_of name ≡ some t
      → (targets_of s thinking name timeout_ms clock ids h).0
        ≡ some (eligible_targets t timeout_ms h ids)
  unfolding targets_of eligible_targets eligible
  targets_of-eligible name t timeout_ms [] h e = refl
  targets_of-eligible name t timeout_ms (m ∷ ids) h e =
      elim (Option-cases (Dict.get m s.candidates)) [
        | inl p ↦ rw (p, targets_of, eligible) (targets_of-eligible name t timeout_ms ids h e)
        | inr (c, p) ↦
            let now = clock m in
            let h' = (unavailable now c.id h).1 in
            ground (
              arith,
              p,
              e,
              targets_of-eligible name t timeout_ms ids h,
              targets_of-eligible name t timeout_ms ids h',
              eligible_targets_keeps t timeout_ms now c.id h ids,
            )
      ]

-- The targets of a known tier: the ordered candidates that are eligible in the health store at the
-- start, all of them and in their order. That the loop asks the store about one candidate after
-- another, and that each question may write to it, makes no difference.
pub build_tier_targets-eligible :
    (s : ModelSelector) (clock : String → ℕ) (thinking : Bool) (override preferred : Option String)
    (h : Option HealthStore) {plan : TierPlan} {t : Tier}
    → Dict.get (resolve_tier_name s thinking override) s.tiers ≡ some plan
    → tier_of (resolve_tier_name s thinking override) ≡ some t
    → (build_tier_targets s clock thinking override preferred h).0
      ≡ some (
          eligible_targets s clock thinking t plan.timeout_ms h
            (preferred_then_plan preferred plan.candidates))
unfolding build_tier_targets
build_tier_targets-eligible s clock thinking override preferred h {plan} {t} e k =
    rw (e, build_tier_targets) (targets_of-eligible s clock thinking _ t plan.timeout_ms _ h k)
