-- ===== src/Intent/Resolver/Total.antt =====
-- The cap on the number of scores is met, and kept.
use rag_agent.Prelude.{
  ℕ, zero, suc, ◌+◌, ◌-◌, ◌≤◌, ◌<◌, min, String, ◌≡◌, refl, ap, ◌∙◌, Option, List, [], ◌∷◌, ◌++◌,
  length, length-append, length-take, length-drop, drop, leb, arith, All, Bool-cases, inl, inr,
}
use rag_agent.Intent.Resolver.{
  NodeScore, SubQuestionIntent, IntentResolver, total_scores, first_within, keep_first, indexed,
  others, append_at, distribute, insert_descending, sort_scores, cap, resolve, classify_all,
}

module _ {S N : Type 0} where
  -- the number of the questions that have a score
  answered : List (SubQuestionIntent S N) → ℕ
  answered [] = 0
  answered (i ∷ is) = min 1 (length i.node_scores) + answered is

  length-first_within :
      (quota : ℕ) (ss : List (NodeScore S N))
      → length (first_within quota ss) ≡ min quota (min 1 (length ss))
  length-first_within zero ss = omega arith
  length-first_within (suc quota) ss = omega (arith, length-take 1 ss)

  keep_first_lem :
      (quota : ℕ) (is : List (SubQuestionIntent S N))
      → (total_scores (keep_first quota is).0 ≡ min quota (answered is))
        × ((keep_first quota is).1 ≡ quota - answered is)
        × (length (keep_first quota is).0 ≡ length is)
  unfolding keep_first total_scores answered
  keep_first_lem quota [] = (omega arith, omega arith, refl)
  keep_first_lem quota (i ∷ is) =
      let n = length (first_within quota i.node_scores) in
      let ih = keep_first_lem (quota - n) is in
      (
        omega (arith, ih.0, length-first_within quota i.node_scores),
        omega (arith, ih.1, length-first_within quota i.node_scores),
        ap suc ih.2,
      )

  abbrev Within : ℕ → NodeScore S N × ℕ → Type 0
  Within n x = x.1 < n

  total-append_at :
      (index : ℕ) (s : NodeScore S N) (is : List (SubQuestionIntent S N))
      → index < length is
      → total_scores (append_at index s is) ≡ suc (total_scores is)
  unfolding append_at total_scores
  total-append_at index s [] h = absurd (omega arith)
  total-append_at zero s (i ∷ is) h = omega (arith, length-append i.node_scores (s ∷ []))
  total-append_at (suc index) s (i ∷ is) h = omega (arith, total-append_at index s is (omega arith))

  length-append_at :
      (index : ℕ) (s : NodeScore S N) (is : List (SubQuestionIntent S N))
      → length (append_at index s is) ≡ length is
  unfolding append_at
  length-append_at index s [] = refl
  length-append_at zero s (i ∷ is) = refl
  length-append_at (suc index) s (i ∷ is) = ap suc (length-append_at index s is)

  total-distribute :
      (quota : ℕ) (rest : List (NodeScore S N × ℕ)) (is : List (SubQuestionIntent S N))
      → All (Within (length is)) rest
      → total_scores (distribute quota rest is) ≡ total_scores is + min quota (length rest)
  unfolding distribute
  total-distribute quota [] is h = omega arith
  total-distribute zero ((s, index) ∷ rest) is h = omega arith
  total-distribute (suc quota) ((s, index) ∷ rest) is h = omega (
    arith,
    total-append_at index s is h.0,
    total-distribute quota rest (append_at index s is) (rw (length-append_at index s is) h.1),
  )

  Within-append :
      (n : ℕ) (a b : List (NodeScore S N × ℕ))
      → All (Within n) a
      → All (Within n) b
      → All (Within n) (a ++ b)
  Within-append n [] b h k = k
  Within-append n (x ∷ a) b h k = (h.0, Within-append n a b h.1 k)

  indexed-Within :
      (n index : ℕ) (ss : List (NodeScore S N)) → index < n → All (Within n) (indexed index ss)
  indexed-Within n index [] h = tt
  indexed-Within n index (s ∷ ss) h = (h, indexed-Within n index ss h)

  others-Within :
      (n index : ℕ) (is : List (SubQuestionIntent S N))
      → index + length is ≤ n
      → All (Within n) (others index is)
  unfolding others
  others-Within n index [] h = tt
  others-Within n index (i ∷ is) h =
      Within-append n (indexed index (drop 1 i.node_scores)) (others (suc index) is)
        (indexed-Within n index (drop 1 i.node_scores) (omega arith))
        (others-Within n (suc index) is (omega arith))

  length-indexed : (index : ℕ) (ss : List (NodeScore S N)) → length (indexed index ss) ≡ length ss
  length-indexed index [] = refl
  length-indexed index (s ∷ ss) = ap suc (length-indexed index ss)

  length-others :
      (index : ℕ) (is : List (SubQuestionIntent S N))
      → length (others index is) + answered is ≡ total_scores is
  unfolding others total_scores answered
  length-others index [] = omega arith
  length-others index (i ∷ is) = omega (
    arith,
    length-append (indexed index (drop 1 i.node_scores)) (others (suc index) is),
    length-indexed index (drop 1 i.node_scores),
    length-drop 1 i.node_scores,
    length-others (suc index) is,
  )

module _ {S N : Type 0} (r : IntentResolver S) where
  insert-Within :
      (n : ℕ) (x : NodeScore S N × ℕ) (ys : List (NodeScore S N × ℕ))
      → x.1 < n
      → All (Within n) ys
      → All (Within n) (insert_descending r x ys)
  unfolding insert_descending
  insert-Within n x [] p h = (p, tt)
  insert-Within n x (y ∷ ys) p h = elim (Bool-cases (r.less x.0.score y.0.score)) [
    | inl q ↦ rw (q, insert_descending) (h.0, insert-Within n x ys p h.1)
    | inr q ↦ rw (q, insert_descending) (p, h)
  ]

  sort-Within :
      (n : ℕ) (xs : List (NodeScore S N × ℕ))
      → All (Within n) xs
      → All (Within n) (sort_scores r xs)
  unfolding sort_scores
  sort-Within n [] h = tt
  sort-Within n (x ∷ xs) h = insert-Within n x (sort_scores r xs) h.0 (sort-Within n xs h.1)

  length-insert :
      (x : NodeScore S N × ℕ) (ys : List (NodeScore S N × ℕ))
      → length (insert_descending r x ys) ≡ suc (length ys)
  unfolding insert_descending
  length-insert x [] = refl
  length-insert x (y ∷ ys) = ground (arith, length-insert x ys)

  length-sort : (xs : List (NodeScore S N × ℕ)) → length (sort_scores r xs) ≡ length xs
  unfolding sort_scores
  length-sort [] = refl
  length-sort (x ∷ xs) = length-insert x (sort_scores r xs) ∙ ap suc (length-sort xs)

  -- If there are more scores than the cap allows, as many are kept as it allows, and otherwise all.
  total-cap :
      (results : List (SubQuestionIntent S N))
      → total_scores (cap r results) ≡ min (total_scores results) r.max_total
  unfolding cap
  total-cap results = elim (Bool-cases (leb (total_scores results) r.max_total)) [
    | inl q ↦ rw (q, cap) (ground arith)
    | inr q ↦
        let k = keep_first_lem r.max_total results in
        let kept = (keep_first r.max_total results).0 in
        let rest = others 0 results in
        rw (q, cap)
          (ground (
            arith,
            k.0,
            k.1,
            length-others 0 results,
            length-sort rest,
            total-distribute (keep_first r.max_total results).1 (sort_scores r rest) kept (
                sort-Within (length kept) rest
                  (others-Within (length kept) 0 results (omega (arith, k.2)))),
          ))
  ]

module _ {S N : Type 0} where
  abbrev pub questions : List (SubQuestionIntent S N) → List String
  questions [] = []
  questions (i ∷ is) = i.sub_question ∷ questions is

  questions-keep_first :
      (quota : ℕ) (is : List (SubQuestionIntent S N))
      → questions (keep_first quota is).0 ≡ questions is
  unfolding keep_first
  questions-keep_first quota [] = refl
  questions-keep_first quota (i ∷ is) =
      ap (◌∷◌ i.sub_question)
        (questions-keep_first (quota - length (first_within quota i.node_scores)) is)

  questions-append_at :
      (index : ℕ) (s : NodeScore S N) (is : List (SubQuestionIntent S N))
      → questions (append_at index s is) ≡ questions is
  unfolding append_at
  questions-append_at index s [] = refl
  questions-append_at zero s (i ∷ is) = refl
  questions-append_at (suc index) s (i ∷ is) =
      ap (◌∷◌ i.sub_question) (questions-append_at index s is)

  questions-distribute :
      (quota : ℕ) (rest : List (NodeScore S N × ℕ)) (is : List (SubQuestionIntent S N))
      → questions (distribute quota rest is) ≡ questions is
  unfolding distribute
  questions-distribute quota [] is = refl
  questions-distribute zero ((s, index) ∷ rest) is = refl
  questions-distribute (suc quota) ((s, index) ∷ rest) is =
      questions-distribute quota rest (append_at index s is) ∙ questions-append_at index s is

module _ {S N : Type 0} (r : IntentResolver S)
    (classify : String → Option (List (NodeScore S N))) where
  questions-classify_all : (qs : List String) → questions (classify_all r classify qs) ≡ qs
  unfolding classify_all
  questions-classify_all [] = refl
  questions-classify_all (q ∷ qs) = ap (◌∷◌ q) (questions-classify_all qs)

  questions-cap : (is : List (SubQuestionIntent S N)) → questions (cap r is) ≡ questions is
  unfolding cap
  questions-cap is = elim (Bool-cases (leb (total_scores is) r.max_total)) [
    | inl q ↦ rw (q, cap) refl
    | inr q ↦
        rw (q, cap)
          (questions-distribute (keep_first r.max_total is).1 (sort_scores r (others 0 is))
              (keep_first r.max_total is).0
            ∙ questions-keep_first r.max_total is)
  ]

  -- Whatever the classifier answers, or where it raises: there is one result for each question, in
  -- their order, and the results have together as many scores as were found, or as the cap allows if
  -- that is less.
  pub resolve-total_scores :
      (qs : List String)
      → (questions (resolve r classify qs) ≡ qs)
        × (total_scores (resolve r classify qs)
            ≡ min (total_scores (classify_all r classify qs)) r.max_total)
  unfolding resolve
  resolve-total_scores qs = (
    questions-cap (classify_all r classify qs) ∙ questions-classify_all qs,
    total-cap r (classify_all r classify qs),
  )
