-- ===== src/Ingestion/Pipeline/Order.antt =====
-- What `ordered_nodes` returns is the pipeline, in the order of its links.
use rag_agent.Prelude.{
  ℕ, suc, String, ◌≡◌, refl, sym, subst, ap, ◌∙◌, Option, none, some, List, [], ◌∷◌, length,
  Distinct, All, arith, Bool-cases, inl, inr, ◌==◌, if◌then◌else◌,
}
use mathlib.Core.List.{Memᴰ, Perm}
use rag_agent.Ingestion.Pipeline.{
  NodeConfig, Result, ok, raised, ids, by_id, collect, starts, walk, all_reached, from_starts,
  from_references, ordered_nodes, unreachable,
}
use rag_agent.Ingestion.Pipeline.Walk.{starts-member}
use rag_agent.Ingestion.Pipeline.Rearrange.{rearranged}
use rag_agent.Ingestion.Pipeline.Visits.{Chain, walk_visits, distinct, visited-Chain, same_answer}

module _ {S C : Type 0} where
  -- what a successful answer tells of the walk
  record Reached (ns out : List (NodeConfig S C)) : Type 0 where
    start : NodeConfig S C
    held : Memᴰ start ns
    walked : walk (by_id ns) (suc (length ns)) (some start) [] [] ≡ some (ok out)
    count : length out ≡ length ns

  all_reached-ok :
      (n : ℕ) (w : Option (Result (List (NodeConfig S C)))) {out : List (NodeConfig S C)}
      → all_reached n w ≡ some (ok out)
      → (w ≡ some (ok out)) × (length out ≡ n)
  unfolding all_reached
  all_reached-ok n none e = absurd cc
  all_reached-ok n (some (raised x)) e = absurd cc
  all_reached-ok n (some (ok ordered)) {out} e = elim (Bool-cases (length ordered == n)) [
    | inl c ↦
        let a =
          subst (λ b. (if b then some (ok ordered) else some (raised unreachable)) ≡ some (ok out))
            c e in
        (a, ap length (same_answer ordered a) ∙ ground arith)
    | inr c ↦ absurd (ground arith)
  ]

  from_starts-ok :
      (ns ss : List (NodeConfig S C)) {out : List (NodeConfig S C)}
      → ((m : NodeConfig S C) → Memᴰ m ss → Memᴰ m ns)
      → from_starts ns ss ≡ some (ok out)
      → Reached ns out
  unfolding from_starts
  from_starts-ok ns [] h e = absurd cc
  from_starts-ok ns (s ∷ _ ∷ _) h e = absurd cc
  from_starts-ok ns (s ∷ []) {out} h e =
      let r =
        all_reached-ok (length ns) (walk (by_id ns) (suc (length ns)) (some s) [] []) {out = out}
          e in
      record { start = s; held = h s (Memᴰ.head refl); walked = r.0; count = r.1 }

  Reached-ordered :
      (ns : List (NodeConfig S C)) (refs : List String) {out : List (NodeConfig S C)}
      → collect (by_id ns) ns [] ≡ ok refs
      → Reached ns out
      → Perm out ns × Distinct (ids out) × Chain out
  Reached-ordered ns refs {out} c r =
      let w = walk_visits (by_id ns) (suc (length ns)) (some r.start) [] [] {out = out} r.walked in
      let v = visited-Chain ns refs r.start w.visited c r.held w.follows in
      let d = distinct [] w.visited w.fresh in
      (
        ∣ rearranged out ns (subst (λ o. Distinct (ids o)) (sym w.out_visited) d)
            (subst (All (λ m. Memᴰ m ns)) (sym w.out_visited) v.1) r.count ∣₁,
        subst (λ o. Distinct (ids o)) (sym w.out_visited) d,
        subst Chain (sym w.out_visited) v.0,
      )

  from_references-ordered :
      (ns : List (NodeConfig S C)) {out : List (NodeConfig S C)}
      → from_references ns (collect (by_id ns) ns []) ≡ some (ok out)
      → Perm out ns × Distinct (ids out) × Chain out
  unfolding from_references
  from_references-ordered ns {out} e = step (collect (by_id ns) ns []) refl e
    where
      step :
          (r : Result (List String))
          → collect (by_id ns) ns [] ≡ r
          → from_references ns r ≡ some (ok out)
          → Perm out ns × Distinct (ids out) × Chain out
      step (raised x) c e = absurd cc
      step (ok refs) c e =
          Reached-ordered ns refs c
            (from_starts-ok ns (starts refs ns) (λ m. starts-member refs ns {m = m}) e)

  -- When `ordered_nodes` returns, its answer is the pipeline itself, rearranged: each node stands in
  -- it once, no two nodes share an id, each node's link names the node behind it, and the last node
  -- has no link.
  pub ordered_nodes-Chain :
      (nodes out : List (NodeConfig S C))
      → ordered_nodes nodes ≡ some (ok out)
      → Perm out nodes × Distinct (ids out) × Chain out
  unfolding ordered_nodes
  ordered_nodes-Chain [] out e = absurd cc
  ordered_nodes-Chain (n ∷ ns) out e =
      elim (Bool-cases (length (by_id (n ∷ ns)) == length (n ∷ ns))) [
        | inl c ↦ from_references-ordered (n ∷ ns) (ground arith)
        | inr c ↦ absurd (ground arith)
      ]
