-- ===== src/Ingestion/Pipeline/Visits.antt =====
-- The nodes that a walk along the links visits.
use rag_agent.Prelude.{
  ℕ, zero, suc, String, eq_iff, eq_refl, ◌≡◌, ◌≢◌, refl, sym, subst, ap, ◌∙◌, true, false, Option,
  none, some, List, [], ◌∷◌, ◌++◌, append_assoc, append-nil, contains, Distinct, All, arith,
  Bool-cases, Option-cases, inl, inr,
}
use mathlib.Core.List.{Memᴰ}
use rag_agent.Dict
use rag_agent.Ingestion.Pipeline.{NodeConfig, ok, next_of, ids, by_id, collect, get_next, walk}
use rag_agent.Ingestion.Pipeline.Walk.{get-by_id}

module _ {S C : Type 0} where
  -- Each node's link names the node behind it, and the last one has none.
  abbrev pub Chain : List (NodeConfig S C) → Type 0
  Chain [] = Unit
  Chain (n ∷ []) = next_of n ≡ none
  Chain (n ∷ m ∷ rest) = (next_of n ≡ some m.node_id) × Chain (m ∷ rest)

  -- The nodes that a walk visits from a node on.
  abbrev pub Follows :
      List (String × NodeConfig S C) → Option (NodeConfig S C) → List (NodeConfig S C) → Type 0
  Follows d none [] = Unit
  Follows d none (m ∷ ms) = ⊥
  Follows d (some n) [] = ⊥
  Follows d (some n) (m ∷ ms) = (m ≡ n) × Follows d (get_next d (next_of n)) ms

  abbrev pub Fresh : List String → List (NodeConfig S C) → Type 0
  Fresh seen [] = Unit
  Fresh seen (n ∷ ns) = (contains n.node_id seen ≡ false) × Fresh (n.node_id ∷ seen) ns

  pub record Walked (d : List (String × NodeConfig S C)) (current : Option (NodeConfig S C))
      (seen : List String) (ordered out : List (NodeConfig S C)) : Type 0 where
    pub visited : List (NodeConfig S C)
    pub out_visited : out ≡ ordered ++ visited
    pub follows : Follows d current visited
    pub fresh : Fresh seen visited

  pub same_answer :
      (ordered : List (NodeConfig S C)) {out : List (NodeConfig S C)}
      → some (ok ordered) ≡ some (ok out)
      → out ≡ ordered
  same_answer ordered e = cc

  ended :
      (ordered : List (NodeConfig S C)) {out : List (NodeConfig S C)}
      → some (ok ordered) ≡ some (ok out)
      → out ≡ ordered ++ []
  ended ordered e = same_answer ordered e ∙ sym (append-nil ordered)

  pub walk_visits :
      (d : List (String × NodeConfig S C)) (fuel : ℕ) (current : Option (NodeConfig S C))
      (seen : List String) (ordered : List (NodeConfig S C)) {out : List (NodeConfig S C)}
      → walk d fuel current seen ordered ≡ some (ok out)
      → Walked d current seen ordered out
  unfolding walk
  walk_visits d zero none seen ordered e = record {
    visited = [];
    out_visited = ended ordered e;
    follows = tt;
    fresh = tt;
  }
  walk_visits d zero (some n) seen ordered e = absurd cc
  walk_visits d (suc fuel) none seen ordered e = record {
    visited = [];
    out_visited = ended ordered e;
    follows = tt;
    fresh = tt;
  }
  walk_visits d (suc fuel) (some n) seen ordered {out} e =
      elim (Bool-cases (contains n.node_id seen)) [
        | inl c ↦ absurd (ground arith)
        | inr c ↦
            let w =
              walk_visits d fuel (get_next d (next_of n)) (n.node_id ∷ seen) (ordered ++ n ∷ [])
                {out = out} (ground arith) in
            record {
              visited = n ∷ w.visited;
              out_visited = w.out_visited ∙ append_assoc ordered (n ∷ []) w.visited;
              follows = (refl, w.follows);
              fresh = (c, w.fresh);
            }
      ]

  module _ (ns : List (NodeConfig S C)) where
    link_step :
        (next : Option String) (m : NodeConfig S C) (ms : List (NodeConfig S C))
        → Follows (by_id ns) (get_next (by_id ns) next) (m ∷ ms)
        → (next ≡ some m.node_id)
          × Memᴰ m ns
          × Follows (by_id ns) (get_next (by_id ns) (next_of m)) ms
    link_step none m ms f = absurd f
    link_step (some t) m ms f = elim (Option-cases (Dict.get t (by_id ns))) [
      | inl e ↦ absurd (subst (λ x. Follows (by_id ns) x (m ∷ ms)) e f)
      | inr (m', e) ↦
          let g = subst (λ x. Follows (by_id ns) x (m ∷ ms)) e f in
          let i = get-by_id ns t e in
          (
            ap some (sym (ap (λ n. n.node_id) g.0 ∙ i.1)),
            subst (λ n. Memᴰ n ns) (sym g.0) i.0,
            subst (λ n. Follows (by_id ns) (get_next (by_id ns) (next_of n)) ms) (sym g.0) g.1,
          )
    ]

    link_end :
        (next : Option String)
        → ((t : String) → next ≡ some t → Dict.get t (by_id ns) ≢ none)
        → Follows (by_id ns) (get_next (by_id ns) next) []
        → next ≡ none
    link_end none h f = refl
    link_end (some t) h f = elim (Option-cases (Dict.get t (by_id ns))) [
      | inl e ↦ absurd (h t refl e)
      | inr (m, e) ↦ absurd (subst (λ x. Follows (by_id ns) x []) e f)
    ]

    module _
        (resolved : (n : NodeConfig S C)
          → Memᴰ n ns
          → (t : String) → next_of n ≡ some t
          → Dict.get t (by_id ns) ≢ none) where
      chain :
          (n : NodeConfig S C) (ms : List (NodeConfig S C))
          → Memᴰ n ns
          → Follows (by_id ns) (get_next (by_id ns) (next_of n)) ms
          → Chain (n ∷ ms) × All (λ m. Memᴰ m ns) (n ∷ ms)
      chain n [] i f = (link_end (next_of n) (resolved n i) f, (i, tt))
      chain n (m ∷ ms) i f =
          let l = link_step (next_of n) m ms f in
          let rest = chain m ms l.1 l.2 in ((l.0, rest.0), (i, rest.1))

  Fresh-Distinct :
      (seen : List String) (ns : List (NodeConfig S C)) (x : String)
      → contains x seen ≡ true
      → Fresh seen ns
      → contains x (ids ns) ≡ false
  Fresh-Distinct seen [] x c f = refl
  Fresh-Distinct seen (n ∷ ns) x c f =
      ground (arith, eq_iff n.node_id x, Fresh-Distinct (n.node_id ∷ seen) ns x)

  pub distinct :
      (seen : List String) (ns : List (NodeConfig S C)) → Fresh seen ns → Distinct (ids ns)
  distinct seen [] f = tt
  distinct seen (n ∷ ns) f = (
    Fresh-Distinct (n.node_id ∷ seen) ns n.node_id (ground (arith, eq_refl n.node_id)) f.1,
    distinct (n.node_id ∷ seen) ns f.1,
  )

  collect_step :
      (d : List (String × NodeConfig S C)) (m : NodeConfig S C) (ms : List (NodeConfig S C))
      (refs : List String) {all : List String}
      → collect d (m ∷ ms) refs ≡ ok all
      → ((t : String) → next_of m ≡ some t → Dict.get t d ≢ none)
        × ((refs' : List String) × (collect d ms refs' ≡ ok all))
  unfolding collect
  collect_step d m ms refs e = elim (Option-cases (next_of m)) [
    | inl q ↦ (λ t p. absurd (cc), (refs, ground arith))
    | inr (u, q) ↦ elim (Option-cases (Dict.get u d)) [
      | inl g ↦ absurd (ground arith)
      | inr (v, g) ↦ (λ t p h. absurd (ground arith), (u ∷ refs, ground arith))
    ]
  ]

  pub collect_resolves :
      (d : List (String × NodeConfig S C)) (ns : List (NodeConfig S C)) (refs : List String)
      {all : List String}
      → collect d ns refs ≡ ok all
      → (n : NodeConfig S C) → Memᴰ n ns
      → (t : String) → next_of n ≡ some t
      → Dict.get t d ≢ none
  collect_resolves d [] refs e n i t p = elim i [ ]
  collect_resolves d (m ∷ ms) refs e n (Memᴰ.head q) t p =
      (collect_step d m ms refs e).0 t (ap next_of (sym q) ∙ p)
  collect_resolves d (m ∷ ms) refs e n (Memᴰ.tail i) t p =
      let s = collect_step d m ms refs e in collect_resolves d ms s.1.0 s.1.1 n i t p

  pub visited-Chain :
      (ns : List (NodeConfig S C)) (refs : List String) (s : NodeConfig S C)
      (ms : List (NodeConfig S C))
      → collect (by_id ns) ns [] ≡ ok refs
      → Memᴰ s ns
      → Follows (by_id ns) (some s) ms
      → Chain ms × All (λ m. Memᴰ m ns) ms
  visited-Chain ns refs s [] c i f = absurd f
  visited-Chain ns refs s (m ∷ ms) c i f =
      chain ns (collect_resolves (by_id ns) ns [] {all = refs} c) m ms
        (subst (λ n. Memᴰ n ns) (sym f.0) i)
        (subst (λ n. Follows (by_id ns) (get_next (by_id ns) (next_of n)) ms) (sym f.0) f.1)
