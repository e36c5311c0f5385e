-- ===== src/Routing/Selector/Order.antt =====
-- The order of the candidates: `_preferred_then_plan`.
use rag_agent.Prelude.{
  contains, contains-append, Distinct, Distinct-snoc, String, str_eq, eq_iff, ◌≡◌, ◌≢◌, refl, false,
  ◌&&◌, ◌||◌, not, some, List, [], ◌∷◌, ◌++◌, arith, inl, inr, Bool-cases, if◌then◌else◌,
  str_eq-false,
}
use mathlib.Core.List.{head?}
use rag_agent.Routing.Selector.{add_new, preferred_then_plan}

abbrev step : List String → String → List String
step r m = if not (str_eq m "") && not (contains m r) then r ++ m ∷ [] else r

step-Distinct : (r : List String) (m : String) → Distinct r → Distinct (step r m)
step-Distinct r m d = elim (Bool-cases (not (str_eq m "") && not (contains m r))) [
  | inl p ↦ rw p (Distinct-snoc r m d (ground arith))
  | inr p ↦ rw p d
]

add_new-Distinct : (r ids : List String) → Distinct r → Distinct (add_new r ids)
unfolding add_new
add_new-Distinct r [] d = d
add_new-Distinct r (m ∷ ids) d = add_new-Distinct (step r m) ids (step-Distinct r m d)

contains-step :
    (a : String) (r : List String) (m : String)
    → a ≢ ""
    → contains a (step r m) ≡ (contains a r || str_eq m a)
contains-step a r m h = ground (arith, eq_iff m "", eq_iff m a, contains-append a r (m ∷ []))

contains-add_new :
    (a : String) (r ids : List String)
    → a ≢ ""
    → contains a (add_new r ids) ≡ (contains a r || contains a ids)
unfolding add_new
contains-add_new a r [] h = ground arith
contains-add_new a r (m ∷ ids) h =
    ground (arith, contains-add_new a (step r m) ids h, contains-step a r m)

empty-add_new : (r ids : List String) → contains "" r ≡ false → contains "" (add_new r ids) ≡ false
unfolding add_new
empty-add_new r [] h = h
empty-add_new r (m ∷ ids) h =
    empty-add_new (step r m) ids (ground (arith, contains-append "" r (m ∷ []), eq_iff m ""))

head-add_new : (x : String) (r ids : List String) → head? (add_new (x ∷ r) ids) ≡ some x
unfolding add_new
head-add_new x r [] = refl
head-add_new x r (m ∷ ids) = elim (Bool-cases (not (str_eq m "") && not (contains m (x ∷ r)))) [
  | inl p ↦ rw p (head-add_new x (r ++ m ∷ []) ids)
  | inr p ↦ rw p (head-add_new x r ids)
]

add_new-first :
    (x : String) (ids : List String) → x ≢ "" → add_new [] (x ∷ ids) ≡ add_new (x ∷ []) ids
unfolding add_new
add_new-first x ids h = rw (str_eq-false x "" h)

-- The ordered candidates: no id twice and no empty id; the preferred id, if there is one, comes
-- first; and the other ids are those of the plan, no more and no less.
preferred_then_plan_order :
    (preferred : String) (plan_ids : List String) (m : String)
    → preferred ≢ ""
    → m ≢ ""
    → Distinct (preferred_then_plan (some preferred) plan_ids)
      × (contains "" (preferred_then_plan (some preferred) plan_ids) ≡ false)
      × (head? (preferred_then_plan (some preferred) plan_ids) ≡ some preferred)
      × (contains m (preferred_then_plan (some preferred) plan_ids)
          ≡ (str_eq preferred m || contains m plan_ids))
unfolding preferred_then_plan
preferred_then_plan_order preferred plan_ids m h k = rw (str_eq-false preferred "" h) (
  add_new-Distinct [] (preferred ∷ plan_ids) tt,
  empty-add_new [] (preferred ∷ plan_ids) refl,
  rw (add_new-first preferred plan_ids h) (head-add_new preferred [] plan_ids),
  contains-add_new m [] (preferred ∷ plan_ids) k,
)
