-- ===== src/Routing/Selector/Candidates.antt =====
-- `ModelSelector.select_candidates` of app/model_runtime/routing.py, for the models outside the chat tiers.
pub mod Usable
pub mod Ranking
use Prim.Native.Char.{code}
use rag_agent.Prelude.{
  ℕ, String, str_eq, ◌≡◌, refl, Bool, true, false, not, ◌&&◌, ◌||◌, Option, none, some, List, [],
  ◌∷◌, ◌++◌, ◌==◌, ltb, if◌then◌else◌, arith, Bool-cases, inl, inr,
}
use rag_agent.Dict
use rag_agent.Routing.Health.{HealthStore}
use rag_agent.Routing.Model.{ModelCandidate, ModelTarget}
use rag_agent.Routing.Selector.{unavailable}
use rag_agent.Routing.Selector.Targets.{unavailable_keeps}

-- `{candidate.id: candidate for ...}`, from the entries so far
unfoldable pub by_id_of :
    List ModelCandidate → List (String × ModelCandidate) → List (String × ModelCandidate)
by_id_of [] d = d
by_id_of (c ∷ cs) d = by_id_of cs (Dict.put c.id c d)

-- `<` of texts: by the first code point in which they differ, and a prefix first
unfoldable pub text_less : String → String → Bool
text_less String.[] String.[] = false
text_less String.[] (String.◌∷◌ d t) = true
text_less (String.◌∷◌ c s) String.[] = false
text_less (String.◌∷◌ c s) (String.◌∷◌ d t) =
    ltb (code c) (code d) || ((code c == code d) && text_less s t)

-- `(priority, id)`, compared as tuples are
abbrev pub ranks_before : ModelCandidate → ModelCandidate → Bool
ranks_before c d = ltb c.priority d.priority || ((c.priority == d.priority) && text_less c.id d.id)

unfoldable pub insert_candidate : ModelCandidate → List ModelCandidate → List ModelCandidate
insert_candidate c [] = c ∷ []
insert_candidate c (d ∷ ds) =
    let rest = insert_candidate c ds in if ranks_before d c then d ∷ rest else c ∷ d ∷ ds

abbrev pub is_default : Option String → ModelCandidate → Bool
is_default none c = false
is_default (some m) c = str_eq c.id m

-- `sorted` of the candidates that are not the default
unfoldable pub sort_others : Option String → List ModelCandidate → List ModelCandidate
sort_others default_model [] = []
sort_others default_model (c ∷ cs) =
    let rest = sort_others default_model cs in
    if is_default default_model c then rest else insert_candidate c rest

abbrev pub found_list : Option ModelCandidate → List ModelCandidate
found_list none = []
found_list (some c) = c ∷ []

-- `[by_id[default_model]] if default_model and default_model in by_id`
abbrev pub default_list : Option String → List ModelCandidate → List ModelCandidate
default_list none cs = []
default_list (some m) cs = if str_eq m "" then [] else found_list (Dict.get m (by_id_of cs []))

abbrev pub ordered_candidates : Option String → List ModelCandidate → List ModelCandidate
ordered_candidates default_model cs = default_list default_model cs ++ sort_others default_model cs

abbrev pub target_of : ModelCandidate → ModelTarget
target_of c = record { candidate = c; tier = none; timeout_ms = none }

-- the loop over the ordered candidates
unfoldable pub usable_targets :
    (String → ℕ) → List ModelCandidate → Option HealthStore → List ModelTarget × Option HealthStore
usable_targets clock [] h = ([], h)
usable_targets clock (c ∷ cs) h = elim c.enabled [
  | false ↦ usable_targets clock cs h
  | true ↦
      let (out, h') = unavailable (clock c.id) c.id h in
      let (rest, h'') = usable_targets clock cs h' in
      if out then (rest, h'') else (target_of c ∷ rest, h'')
]

unfoldable pub select_candidates :
    (String → ℕ)
    → List ModelCandidate
    → Option String
    → Option HealthStore
    → List ModelTarget × Option HealthStore
select_candidates clock cs default_model h =
    usable_targets clock (ordered_candidates default_model cs) h
