-- ===== src/Dict/Size.antt =====
-- How many entries a dictionary has, and that no key stands twice in it.
use rag_agent.Prelude.{
  ◌+◌, String, eq_iff, ◌≡◌, refl, ap, subst, none, some, List, [], ◌∷◌, arith, length, inl, inr,
  str_eq-cases,
}
use rag_agent.Dict.{get, put, remove, get-put, get-remove}

module _ {ℓ} {V : Type ℓ} where
  abbrev pub DistinctKeys : List (String × V) → Type ℓ
  DistinctKeys [] = Unit
  DistinctKeys ((k, v) ∷ d) = (get k d ≡ none) × DistinctKeys d

  pub length-put_new :
      (k : String) (v : V) (d : List (String × V))
      → get k d ≡ none
      → length (put k v d) ≡ length d + 1
  unfolding get put
  length-put_new k v [] h = omega arith
  length-put_new k v ((j, w) ∷ d) h = ground (arith, length-put_new k v d)

  pub put-DistinctKeys :
      (k : String) (v : V) (d : List (String × V)) → DistinctKeys d → DistinctKeys (put k v d)
  unfolding put
  put-DistinctKeys k v [] h = (unfold get in refl, tt)
  put-DistinctKeys k v ((j, w) ∷ d) h = elim (str_eq-cases j k) [
    | inl (p, e) ↦ rw e h
    | inr (p, e) ↦
        rw e (ground (arith, get-put k j v d, eq_iff j k, eq_iff k j), put-DistinctKeys k v d h.1)
  ]

  pub remove-DistinctKeys :
      (k : String) (d : List (String × V)) → DistinctKeys d → DistinctKeys (remove k d)
  unfolding remove
  remove-DistinctKeys k [] h = tt
  remove-DistinctKeys k ((j, w) ∷ d) h = elim (str_eq-cases j k) [
    | inl (p, e) ↦ rw e (remove-DistinctKeys k d h.1)
    | inr (p, e) ↦ rw e (ground (arith, get-remove k j d), remove-DistinctKeys k d h.1)
  ]

  pub remove_absent : (k : String) (d : List (String × V)) → get k d ≡ none → remove k d ≡ d
  unfolding get remove
  remove_absent k [] h = refl
  remove_absent k ((j, w) ∷ d) h = ground (arith, remove_absent k d)

  pub length-remove_held :
      (k : String) (d : List (String × V)) {v : V}
      → DistinctKeys d
      → get k d ≡ some v
      → length (remove k d) + 1 ≡ length d
  unfolding get remove
  length-remove_held k [] h e = cc
  length-remove_held k ((j, w) ∷ d) {v} h e = elim (str_eq-cases j k) [
    | inl (p, q) ↦
        rw q (ground (arith, ap length (remove_absent k d (subst (λ i. get i d ≡ none) p h.0))))
    | inr (p, q) ↦ rw q (omega (arith, length-remove_held k d {v = v} h.1 (ground arith)))
  ]
