-- ===== src/Dict/Total.antt =====
-- The sum of a weight over the values of a dictionary.
use rag_agent.Prelude.{
  ℕ, ◌+◌, ◌≤◌, String, ◌≡◌, ap, none, some, List, [], ◌∷◌, arith, inl, inr, str_eq-cases, subst,
}
use rag_agent.Dict.{get, put, remove}
use rag_agent.Dict.Size.{DistinctKeys, remove_absent}

module _ {ℓ} {V : Type ℓ} (f : V → ℕ) where
  abbrev pub total : List (String × V) → ℕ
  total [] = 0
  total ((k, v) ∷ d) = f v + total d

  pub total-put_new :
      (k : String) (v : V) (d : List (String × V))
      → get k d ≡ none
      → total (put k v d) ≡ f v + total d
  unfolding get put
  total-put_new k v [] h = omega arith
  total-put_new k v ((j, w) ∷ d) h = elim (str_eq-cases j k) [
    | inl (_, q) ↦ absurd (ground arith)
    | inr (_, q) ↦ rw q (omega (arith, total-put_new k v d (ground arith)))
  ]

  pub total-put_held :
      (k : String) (v : V) (d : List (String × V)) {x : V}
      → get k d ≡ some x
      → total (put k v d) + f x ≡ total d + f v
  unfolding get put
  total-put_held k v [] h = absurd (cc)
  total-put_held k v ((j, y) ∷ d) {x} h = elim (str_eq-cases j k) [
    | inl (_, q) ↦ let e : y ≡ x = ground arith in rw q (omega (arith, ap f e))
    | inr (_, q) ↦ rw q (omega (arith, total-put_held k v d {x = x} (ground arith)))
  ]

  pub total-remove : (k : String) (d : List (String × V)) → total (remove k d) ≤ total d
  unfolding remove
  total-remove k [] = omega arith
  total-remove k ((j, y) ∷ d) = elim (str_eq-cases j k) [
    | inl (_, q) ↦ rw q (omega (arith, total-remove k d))
    | inr (_, q) ↦ rw q (omega (arith, total-remove k d))
  ]

  pub total-remove_held :
      (k : String) (d : List (String × V)) {x : V}
      → DistinctKeys d
      → get k d ≡ some x
      → total (remove k d) + f x ≡ total d
  unfolding get remove
  total-remove_held k [] h e = absurd (cc)
  total-remove_held k ((j, y) ∷ d) {x} h e = elim (str_eq-cases j k) [
    | inl (p, q) ↦
        let e' : y ≡ x = ground arith in
        rw q
          (omega (arith, ap f e', ap total (remove_absent k d (subst (λ i. get i d ≡ none) p h.0))))
    | inr (_, q) ↦ rw q (omega (arith, total-remove_held k d {x = x} h.1 (ground arith)))
  ]
