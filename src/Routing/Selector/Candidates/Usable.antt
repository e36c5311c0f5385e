-- ===== src/Routing/Selector/Candidates/Usable.antt =====
-- Which candidates are selected, and in which order.
use rag_agent.Prelude.{
  ℕ, String, str_eq, ◌≡◌, refl, ap, ◌∙◌, not, ◌&&◌, Option, none, some, List, [], ◌∷◌, ◌++◌,
  if◌then◌else◌, arith,
}
use mathlib.Core.List.{Perm}
use rag_agent.Dict
use rag_agent.Dict.{get-put}
use rag_agent.Routing.Health.{HealthStore}
use rag_agent.Routing.Model.{ModelCandidate, ModelTarget}
use rag_agent.Routing.Selector.{unavailable}
use rag_agent.Routing.Selector.Targets.{unavailable_keeps}
use rag_agent.Routing.Selector.Candidates.{
  by_id_of, found_list, default_list, sort_others, ordered_candidates, target_of, usable_targets,
  select_candidates,
}
use rag_agent.Routing.Selector.Candidates.Ranking.{IsRanked, without, sort-IsRanked, sort-perm}

-- the candidates that are enabled and that a store lets through
abbrev pub usable : (String → ℕ) → Option HealthStore → List ModelCandidate → List ModelTarget
usable clock h [] = []
usable clock h (c ∷ cs) =
    if c.enabled && not (unavailable (clock c.id) c.id h).0
    then target_of c ∷ usable clock h cs
    else usable clock h cs

usable_keeps :
    (clock : String → ℕ) (now : ℕ) (j : String) (h : Option HealthStore) (cs : List ModelCandidate)
    → usable clock (unavailable now j h).1 cs ≡ usable clock h cs
usable_keeps clock now j h [] = refl
usable_keeps clock now j h (c ∷ cs) =
    rw (unavailable_keeps now (clock c.id) j c.id h, usable_keeps clock now j h cs) refl

usable_targets-usable :
    (clock : String → ℕ) (cs : List ModelCandidate) (h : Option HealthStore)
    → (usable_targets clock cs h).0 ≡ usable clock h cs
unfolding usable_targets
usable_targets-usable clock [] h = refl
usable_targets-usable clock (c ∷ cs) h = ground (
  arith,
  usable_targets-usable clock cs h,
  usable_targets-usable clock cs (unavailable (clock c.id) c.id h).1,
  usable_keeps clock (clock c.id) c.id h cs,
)

abbrev or_else : {A : Type 0} → Option A → Option A → Option A
or_else none y = y
or_else (some x) y = some x

-- the last candidate with an id
abbrev pub last_of : String → List ModelCandidate → Option ModelCandidate
last_of m [] = none
last_of m (c ∷ cs) = or_else (last_of m cs) (if str_eq c.id m then some c else none)

by_id_of-get :
    (m : String) (cs : List ModelCandidate) (d : List (String × ModelCandidate))
    → Dict.get m (by_id_of cs d) ≡ or_else (last_of m cs) (Dict.get m d)
unfolding by_id_of
by_id_of-get m [] d = refl
by_id_of-get m (c ∷ cs) d =
    by_id_of-get m cs (Dict.put c.id c d) ∙ ground (arith, get-put c.id m c d)

-- the default model, if there is one and it is among the candidates
abbrev pub default_first : Option String → List ModelCandidate → List ModelCandidate
default_first none cs = []
default_first (some m) cs = if str_eq m "" then [] else found_list (last_of m cs)

or_else-none : {A : Type 0} (x : Option A) → or_else x none ≡ x
or_else-none none = refl
or_else-none (some x) = refl

default_list_lem :
    (default_model : Option String) (cs : List ModelCandidate)
    → default_list default_model cs ≡ default_first default_model cs
unfolding Dict.get
default_list_lem none cs = refl
default_list_lem (some m) cs =
    ap (λ o. if str_eq m "" then [] else found_list o)
      (by_id_of-get m cs [] ∙ or_else-none (last_of m cs))

-- The targets are the default model, if one is named that is among the candidates (the last of them, if
-- several have its id), and behind it all the others, none of them lost and none twice, in ascending
-- order of priority and, for the same priority, of id; of these, in that order, exactly those that
-- are enabled and that the health store lets through as it is at the start.
pub select_candidates-usable :
    (clock : String → ℕ) (cs : List ModelCandidate) (default_model : Option String)
    (h : Option HealthStore)
    → (others : List ModelCandidate) × ((select_candidates clock cs default_model h).0
        ≡ usable clock h (default_first default_model cs ++ others))
      × Perm others (without default_model cs)
      × IsRanked others
unfolding select_candidates
select_candidates-usable clock cs default_model h = (
  sort_others default_model cs,
  usable_targets-usable clock (ordered_candidates default_model cs) h
      ∙ ap (λ l. usable clock h (l ++ sort_others default_model cs))
          (default_list_lem default_model cs),
  ∣ sort-perm default_model cs ∣₁,
  sort-IsRanked default_model cs,
)
