-- ===== src/Ingestion/Pipeline/Walk.antt =====
-- The walk along the links ends, whatever the links are.
use rag_agent.Prelude.{
  ℕ, zero, suc, ◌≤◌, ◌<◌, String, eq_iff, ◌≡◌, ◌≢◌, refl, sym, subst, ap, ◌∙◌, Bool, true, false,
  Option, none, some, List, [], ◌∷◌, ◌++◌, length, contains, arith, ◌⊎◌, inl, inr, Bool-cases,
  str_eq-cases, ◌==◌, if◌then◌else◌,
}
use mathlib.Core.List.{Memᴰ}
use rag_agent.Dict
use rag_agent.Dict.{get-put}
use rag_agent.Ingestion.Pipeline.{
  NodeConfig, Result, ok, raised, next_of, ids, index, by_id, get_next, walk, all_reached,
  from_starts, from_references, ordered_nodes, starts, collect,
}

-- how many of the texts have not been seen
unseen : List String → List String → ℕ
unseen [] seen = 0
unseen (x ∷ xs) seen =
    let rest = unseen xs seen in elim (contains x seen) [ true ↦ rest | false ↦ suc rest ]

unseen-nil : (xs : List String) → unseen xs [] ≡ length xs
unfolding unseen
unseen-nil [] = refl
unseen-nil (x ∷ xs) = omega (arith, unseen-nil xs)

unseen-less : (xs seen : List String) (x : String) → unseen xs (x ∷ seen) ≤ unseen xs seen
unfolding unseen
unseen-less [] seen x = omega arith
unseen-less (y ∷ xs) seen x = ground (arith, unseen-less xs seen x)

unseen-falls :
    (xs seen : List String) (x : String)
    → contains x xs ≡ true
    → contains x seen ≡ false
    → unseen xs (x ∷ seen) < unseen xs seen
unfolding unseen
unseen-falls [] seen x h e = cc
unseen-falls (y ∷ xs) seen x h e = elim (str_eq-cases y x) [
  | inl (p, q) ↦
      ground
        (arith, unseen-less xs seen x, eq_iff x y, subst (λ i. contains i seen ≡ false) (sym p) e)
  | inr (p, q) ↦ ground (arith, unseen-falls xs seen x, eq_iff x y)
]

module _ {S C : Type 0} where
  -- What a dictionary holds under a text is a node of the list, with that text as its id.
  abbrev pub Indexed : List (NodeConfig S C) → String → NodeConfig S C → Type 0
  Indexed ns t m = Memᴰ m ns × (m.node_id ≡ t)

  get-put_or :
      (n : NodeConfig S C) (d : List (String × NodeConfig S C)) (t : String) {m : NodeConfig S C}
      → Dict.get t (Dict.put n.node_id n d) ≡ some m
      → ((m ≡ n) × (n.node_id ≡ t)) ⊎ (Dict.get t d ≡ some m)
  get-put_or n d t {m} e = elim (str_eq-cases n.node_id t) [
    | inl (p, q) ↦ inl (ground (arith, get-put n.node_id t n d), p)
    | inr (p, q) ↦ inr (ground (arith, get-put n.node_id t n d))
  ]

  get-index :
      (ns : List (NodeConfig S C)) (d : List (String × NodeConfig S C)) (t : String)
      {m : NodeConfig S C}
      → Dict.get t (index ns d) ≡ some m
      → Indexed ns t m ⊎ (Dict.get t d ≡ some m)
  unfolding index
  get-index [] d t e = inr e
  get-index (n ∷ ns) d t {m} e = elim (get-index ns (Dict.put n.node_id n d) t {m = m} e) [
    | inl (i, p) ↦ inl (Memᴰ.tail i, p)
    | inr g ↦ elim (get-put_or n d t g) [
      | inl (q, p) ↦ inl (Memᴰ.head q, ap (λ x. x.node_id) q ∙ p)
      | inr h ↦ inr h
    ]
  ]

  pub get-by_id :
      (ns : List (NodeConfig S C)) (t : String) {m : NodeConfig S C}
      → Dict.get t (by_id ns) ≡ some m
      → Indexed ns t m
  get-by_id ns t e = elim (get-index ns [] t e) [
    | inl i ↦ i
    | inr h ↦ absurd (unfold Dict.get in cc)
  ]

  pub get_next-member :
      (ns : List (NodeConfig S C)) (next : Option String) (m : NodeConfig S C)
      → get_next (by_id ns) next ≡ some m
      → Memᴰ m ns
  get_next-member ns none m e = absurd cc
  get_next-member ns (some t) m e = (get-by_id ns t e).0

  contains-member :
      {m : NodeConfig S C} {ns : List (NodeConfig S C)}
      → Memᴰ m ns
      → contains m.node_id (ids ns) ≡ true
  contains-member {m} {ns = n ∷ ns} (Memᴰ.head p) =
      let q = ap (λ x. x.node_id) p in ground (arith, eq_iff n.node_id m.node_id)
  contains-member (Memᴰ.tail i) = ground (arith, contains-member i)

  length-ids : (ns : List (NodeConfig S C)) → length (ids ns) ≡ length ns
  length-ids [] = refl
  length-ids (n ∷ ns) = ap suc (length-ids ns)

  walk_ends :
      (ns : List (NodeConfig S C)) (fuel : ℕ) (current : Option (NodeConfig S C))
      (seen : List String) (ordered : List (NodeConfig S C))
      → ((m : NodeConfig S C) → current ≡ some m → Memᴰ m ns)
      → unseen (ids ns) seen < fuel
      → walk (by_id ns) fuel current seen ordered ≢ none
  unfolding walk
  walk_ends ns zero current seen ordered i h = absurd (omega arith)
  walk_ends ns (suc fuel) none seen ordered i h = λ e. cc
  walk_ends ns (suc fuel) (some n) seen ordered i h = elim (Bool-cases (contains n.node_id seen)) [
    | inl e ↦ rw (e, walk) (λ e. cc)
    | inr e ↦
        rw (e, walk)
          (walk_ends ns fuel (get_next (by_id ns) (next_of n)) (n.node_id ∷ seen)
            (ordered ++ n ∷ []) (get_next-member ns (next_of n))
            (omega (arith, unseen-falls (ids ns) seen n.node_id (contains-member (i n refl)) e)))
  ]

  keep-member :
      (dropped : Bool) (n : NodeConfig S C) {m : NodeConfig S C} (xs ys : List (NodeConfig S C))
      → (Memᴰ m xs → Memᴰ m ys)
      → Memᴰ m (if dropped then xs else n ∷ xs)
      → Memᴰ m (n ∷ ys)
  keep-member true n xs ys h i = Memᴰ.tail (h i)
  keep-member false n xs ys h (Memᴰ.head p) = Memᴰ.head p
  keep-member false n xs ys h (Memᴰ.tail i) = Memᴰ.tail (h i)

  pub starts-member :
      (refs : List String) (ns : List (NodeConfig S C)) {m : NodeConfig S C}
      → Memᴰ m (starts refs ns)
      → Memᴰ m ns
  unfolding starts
  starts-member refs [] i = i
  starts-member refs (n ∷ ns) i =
      keep-member (contains n.node_id refs) n (starts refs ns) ns (starts-member refs ns) i

  all_reached-ends :
      (n : ℕ) (w : Option (Result (List (NodeConfig S C)))) → w ≢ none → all_reached n w ≢ none
  unfolding all_reached
  all_reached-ends n none h = λ e. h refl
  all_reached-ends n (some (raised x)) h = λ e. cc
  all_reached-ends n (some (ok ordered)) h = λ e. ground arith

  from_starts-ends :
      (ns ss : List (NodeConfig S C))
      → ((m : NodeConfig S C) → Memᴰ m ss → Memᴰ m ns)
      → from_starts ns ss ≢ none
  unfolding from_starts
  from_starts-ends ns [] h = λ e. cc
  from_starts-ends ns (s ∷ _ ∷ _) h = λ e. cc
  from_starts-ends ns (s ∷ []) h =
      all_reached-ends (length ns) (walk (by_id ns) (suc (length ns)) (some s) [] []) (
        walk_ends ns (suc (length ns)) (some s) [] [] (λ m e. h m (Memᴰ.head (ground arith)))
          (omega (arith, unseen-nil (ids ns), length-ids ns)))

  from_references-ends :
      (ns : List (NodeConfig S C)) (r : Result (List String)) → from_references ns r ≢ none
  unfolding from_references
  from_references-ends ns (raised x) = λ e. cc
  from_references-ends ns (ok refs) =
      from_starts-ends ns (starts refs ns) (λ m. starts-member refs ns {m = m})

  if-ends :
      (b : Bool) {x y : Option (Result (List (NodeConfig S C)))}
      → x ≢ none
      → y ≢ none
      → (if b then x else y) ≢ none
  if-ends true h k = h
  if-ends false h k = k

  -- `ordered_nodes` returns or raises on every list of nodes, those with cycles included: the loop
  -- along the links takes no more rounds than there are nodes and one.
  pub ordered_nodes-total : (nodes : List (NodeConfig S C)) → ordered_nodes nodes ≢ none
  unfolding ordered_nodes
  ordered_nodes-total [] = λ e. cc
  ordered_nodes-total (n ∷ ns) =
      if-ends (length (by_id (n ∷ ns)) == length (n ∷ ns))
        (from_references-ends (n ∷ ns) (collect (by_id (n ∷ ns)) (n ∷ ns) [])) (λ e. cc)
