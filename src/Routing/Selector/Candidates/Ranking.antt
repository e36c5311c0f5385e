-- ===== src/Routing/Selector/Candidates/Ranking.antt =====
-- The candidates are ranked by priority and id, and none of them is lost.
use rag_agent.Prelude.{
  String, ◌≡◌, refl, true, false, Option, none, some, List, [], ◌∷◌, str_eq, if◌then◌else◌, arith,
  Bool-cases, inl, inr,
}
use mathlib.Core.List.{Permᴰ}
use mathlib.Core.List.Permᴰ
use rag_agent.Routing.Model.{ModelCandidate}
use rag_agent.Routing.Selector.Candidates.{
  text_less, ranks_before, insert_candidate, is_default, sort_others,
}

text_less-asym : (s t : String) → text_less s t ≡ true → text_less t s ≡ false
unfolding text_less
text_less-asym String.[] String.[] h = absurd (cc)
text_less-asym String.[] (String.◌∷◌ d t) h = refl
text_less-asym (String.◌∷◌ c s) String.[] h = absurd (cc)
text_less-asym (String.◌∷◌ c s) (String.◌∷◌ d t) h = ground (arith, text_less-asym s t)

ranks_before-asym : (c d : ModelCandidate) → ranks_before c d ≡ true → ranks_before d c ≡ false
ranks_before-asym c d h = ground (arith, text_less-asym c.id d.id)

abbrev IsLeast : ModelCandidate → List ModelCandidate → Type 0
IsLeast c [] = Unit
IsLeast c (d ∷ ds) = ranks_before d c ≡ false

-- No candidate ranks before the one that it follows.
abbrev pub IsRanked : List ModelCandidate → Type 0
IsRanked [] = Unit
IsRanked (c ∷ cs) = IsLeast c cs × IsRanked cs

insert-IsLeast :
    (c d : ModelCandidate) (ds : List ModelCandidate)
    → ranks_before c d ≡ false
    → IsLeast d ds
    → IsLeast d (insert_candidate c ds)
unfolding insert_candidate
insert-IsLeast c d [] h k = h
insert-IsLeast c d (e ∷ ds) h k = elim (Bool-cases (ranks_before e c)) [
  | inl q ↦ rw (q, insert_candidate) k
  | inr q ↦ rw (q, insert_candidate) h
]

insert-IsRanked :
    (c : ModelCandidate) (ds : List ModelCandidate) → IsRanked ds → IsRanked (insert_candidate c ds)
unfolding insert_candidate
insert-IsRanked c [] h = (tt, tt)
insert-IsRanked c (d ∷ ds) h = elim (Bool-cases (ranks_before d c)) [
  | inl q ↦
      rw (q, insert_candidate)
        (insert-IsLeast c d ds (ranks_before-asym d c q) h.0, insert-IsRanked c ds h.1)
  | inr q ↦ rw (q, insert_candidate) (q, h)
]

pub sort-IsRanked :
    (default_model : Option String) (cs : List ModelCandidate)
    → IsRanked (sort_others default_model cs)
unfolding sort_others
sort-IsRanked default_model [] = tt
sort-IsRanked default_model (c ∷ cs) = elim (Bool-cases (is_default default_model c)) [
  | inl q ↦ rw (q, sort_others) (sort-IsRanked default_model cs)
  | inr q ↦
      rw (q, sort_others)
        (insert-IsRanked c (sort_others default_model cs) (sort-IsRanked default_model cs))
]

insert-perm :
    (c : ModelCandidate) (ds : List ModelCandidate) → Permᴰ (insert_candidate c ds) (c ∷ ds)
unfolding insert_candidate
insert-perm c [] = Permᴰ.refl (c ∷ [])
insert-perm c (d ∷ ds) = elim (Bool-cases (ranks_before d c)) [
  | inl q ↦
      rw (q, insert_candidate)
        (Permᴰ.trans (Permᴰ.cons refl (insert-perm c ds)) (Permᴰ.swap refl refl))
  | inr q ↦ rw (q, insert_candidate) (Permᴰ.refl (c ∷ d ∷ ds))
]

-- the candidates with another id, in the order of the registry
abbrev pub without : Option String → List ModelCandidate → List ModelCandidate
without none cs = cs
without (some m) [] = []
without (some m) (c ∷ cs) =
    let rest = without (some m) cs in if str_eq c.id m then rest else c ∷ rest

pub sort-perm :
    (default_model : Option String) (cs : List ModelCandidate)
    → Permᴰ (sort_others default_model cs) (without default_model cs)
unfolding sort_others
sort-perm none [] = Permᴰ.refl []
sort-perm none (c ∷ cs) =
    Permᴰ.trans (insert-perm c (sort_others none cs)) (Permᴰ.cons refl (sort-perm none cs))
sort-perm (some m) [] = Permᴰ.refl []
sort-perm (some m) (c ∷ cs) = elim (Bool-cases (str_eq c.id m)) [
  | inl q ↦ rw (q, sort_others) (sort-perm (some m) cs)
  | inr q ↦
      rw (q, sort_others)
        (Permᴰ.trans (insert-perm c (sort_others (some m) cs))
          (Permᴰ.cons refl (sort-perm (some m) cs)))
]
