-- ===== src/Ingestion/Pipeline/Rearrange.antt =====
-- Nodes with different ids that are all in a list of the same length are that list, rearranged.
use rag_agent.Prelude.{
  suc, eq_iff, ◌≡◌, ◌≢◌, refl, sym, ap, ◌∙◌, false, List, [], ◌∷◌, length, contains, Distinct, All,
  arith,
}
use mathlib.Core.List.{Memᴰ, Permᴰ}
use mathlib.Core.List.Permᴰ
use rag_agent.Ingestion.Pipeline.{NodeConfig, ids}

module _ {ℓ} {A : Type ℓ} {x : A} where
  drop_member : {ys : List A} → Memᴰ x ys → List A
  drop_member (Memᴰ.head {xs = xs} p) = xs
  drop_member (Memᴰ.tail {x = y} i) = y ∷ drop_member i

  length-drop_member : {ys : List A} (i : Memᴰ x ys) → suc (length (drop_member i)) ≡ length ys
  unfolding drop_member
  length-drop_member (Memᴰ.head p) = refl
  length-drop_member (Memᴰ.tail i) = ap suc (length-drop_member i)

  drop_member-perm : {ys : List A} (i : Memᴰ x ys) → Permᴰ (x ∷ drop_member i) ys
  unfolding drop_member
  drop_member-perm (Memᴰ.head {xs = xs} p) = Permᴰ.cons p (Permᴰ.refl xs)
  drop_member-perm (Memᴰ.tail i) =
      Permᴰ.trans (Permᴰ.swap refl refl) (Permᴰ.cons refl (drop_member-perm i))

  member-drop_member :
      {m : A} {ys : List A} (i : Memᴰ x ys) → Memᴰ m ys → m ≢ x → Memᴰ m (drop_member i)
  unfolding drop_member
  member-drop_member (Memᴰ.head p) (Memᴰ.head q) n = absurd (n (q ∙ sym p))
  member-drop_member (Memᴰ.head p) (Memᴰ.tail j) n = j
  member-drop_member (Memᴰ.tail i) (Memᴰ.head q) n = Memᴰ.head q
  member-drop_member (Memᴰ.tail i) (Memᴰ.tail j) n = Memᴰ.tail (member-drop_member i j n)

module _ {S C : Type 0} where
  other_id :
      (x m : NodeConfig S C) (ms : List (NodeConfig S C))
      → contains x.node_id (ids (m ∷ ms)) ≡ false
      → m ≢ x
  other_id x m ms h =
      λ p. let q = ap (λ n. n.node_id) p in ground (arith, eq_iff m.node_id x.node_id)

  All-others :
      (x : NodeConfig S C) (ys xs : List (NodeConfig S C)) (i : Memᴰ x ys)
      → contains x.node_id (ids xs) ≡ false
      → All (λ m. Memᴰ m ys) xs
      → All (λ m. Memᴰ m (drop_member i)) xs
  All-others x ys [] i h a = tt
  All-others x ys (m ∷ ms) i h a =
      (member-drop_member i a.0 (other_id x m ms h), All-others x ys ms i (ground arith) a.1)

  pub rearranged :
      (xs ys : List (NodeConfig S C))
      → Distinct (ids xs)
      → All (λ m. Memᴰ m ys) xs
      → length xs ≡ length ys
      → Permᴰ xs ys
  rearranged [] [] d a e = Permᴰ.nil
  rearranged [] (y ∷ ys) d a e = absurd (omega (arith, e))
  rearranged (x ∷ xs) ys d a e =
      Permᴰ.trans
        (Permᴰ.cons refl (
          rearranged xs (drop_member a.0) d.1 (All-others x ys xs a.0 d.0 a.1)
            (omega (arith, e, length-drop_member a.0))))
        (drop_member-perm a.0)
