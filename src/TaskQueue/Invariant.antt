-- ===== src/TaskQueue/Invariant.antt =====
-- What holds of the queue's rows after any calls.
use rag_agent.Prelude.{
  ℕ, ◌≤◌, ◌<◌, String, eq_iff, ◌≡◌, ◌≢◌, ◌⊎◌, refl, sym, ap, subst, ◌∙◌, Bool, true, false, ◌&&◌,
  ◌||◌, Option, none, List, [], ◌∷◌, ◌++◌, arith, All, Bool-cases, inl, inr,
}
use rag_agent.TaskQueue.Rows.{
  AsyncTask, TaskStatus, pending, running, success, failed, is_active, is_active_of,
}
use rag_agent.TaskQueue.Methods.{find_task, update_task}

-- A running row has an owner and a lease, and no other row has one.
abbrev pub Holds : TaskStatus → Option String → Option ℕ → Type 0
Holds running o l = (o ≢ none) × (l ≢ none)
Holds pending o l = (o ≡ none) × (l ≡ none)
Holds success o l = (o ≡ none) × (l ≡ none)
Holds failed o l = (o ≡ none) × (l ≡ none)

-- A row has failed once it has used up its retries, and no sooner.
abbrev pub Within : TaskStatus → ℕ → ℕ → Type 0
Within failed count most = most < count
Within pending count most = count ≤ most
Within running count most = count ≤ most
Within success count most = count ≤ most

or-false : (a b : Bool) → (a || b) ≡ false → (a ≡ false) × (b ≡ false)
or-false false b h = (refl, h)
or-false true b h = absurd cc

or_both : {a b : Bool} → a ≡ false → b ≡ false → (a || b) ≡ false
or_both {a} {b} h k = cc

and_less : (a b : Bool) {c : Bool} → (b ≡ false → c ≡ false) → (a && b) ≡ false → (a && c) ≡ false
and_less true b h k = h k
and_less false b h k = refl

and-right : {a b : Bool} → a ≡ true → (a && b) ≡ false → b ≡ false
and-right {a} {b} h k = ground arith

and_false : (a : Bool) {b : Bool} → b ≡ false → (a && b) ≡ false
and_false true h = h
and_false false h = refl

module _ {P : Type 0} where
  pub record RowIsValid (t : AsyncTask P) : Type 0 where
    pub holds : Holds t.status t.owner t.lease_until
    pub within : Within t.status t.retry_count t.max_retries

  unfoldable pub has_task : (AsyncTask P → Bool) → List (AsyncTask P) → Bool
  has_task p [] = false
  has_task p (t ∷ ts) = p t || has_task p ts

  -- The row is not active, or no other active row has its type and key.
  abbrev pub Alone : List (AsyncTask P) → AsyncTask P → Type 0
  Alone ts t = (is_active t.status && has_task (is_active_of t.task_type t.biz_key) ts) ≡ false

  -- No two active rows have the same type and key.
  abbrev pub UniqueActive : List (AsyncTask P) → Type 0
  UniqueActive [] = Unit
  UniqueActive (t ∷ ts) = Alone ts t × UniqueActive ts

  pub record IsValid (ts : List (AsyncTask P)) : Type 0 where
    pub rows : All RowIsValid ts
    pub unique : UniqueActive ts

  -- A change of the rows of a test keeps them valid and active ones of their keys.
  pub record IsGood (p : AsyncTask P → Bool) (f : AsyncTask P → AsyncTask P) : Type 0 where
    pub valid : (t : AsyncTask P) → p t ≡ true → RowIsValid t → RowIsValid (f t)
    pub active : (t : AsyncTask P) → p t ≡ true → is_active t.status ≡ true
    pub same_type : (t : AsyncTask P) → (f t).task_type ≡ t.task_type
    pub same_key : (t : AsyncTask P) → (f t).biz_key ≡ t.biz_key

  module _ (p : AsyncTask P → Bool) (f : AsyncTask P → AsyncTask P) (g : IsGood p f) where
    -- Each row is as it was, or the test holds of it and it is changed.
    abbrev pub IsChanged : List (AsyncTask P) → List (AsyncTask P) → Type 0
    IsChanged [] [] = Unit
    IsChanged [] (s ∷ ss) = ⊥
    IsChanged (t ∷ ts) [] = ⊥
    IsChanged (t ∷ ts) (s ∷ ss) = ((s ≡ t) ⊎ ((p t ≡ true) × (s ≡ f t))) × IsChanged ts ss

    pub same-IsChanged : (ts : List (AsyncTask P)) → IsChanged ts ts
    same-IsChanged [] = tt
    same-IsChanged (t ∷ ts) = (inl refl, same-IsChanged ts)

    pub update-IsChanged : (ts : List (AsyncTask P)) → IsChanged ts (update_task p f ts)
    unfolding update_task
    update-IsChanged [] = tt
    update-IsChanged (t ∷ ts) = elim (Bool-cases (p t)) [
      | inl e ↦ rw (e, update_task) (inr (e, refl), same-IsChanged ts)
      | inr e ↦ rw (e, update_task) (inl refl, update-IsChanged ts)
    ]

    changed-valid :
        (ts ss : List (AsyncTask P)) → IsChanged ts ss → All RowIsValid ts → All RowIsValid ss
    changed-valid [] [] c h = tt
    changed-valid [] (s ∷ ss) c h = absurd c
    changed-valid (t ∷ ts) [] c h = absurd c
    changed-valid (t ∷ ts) (s ∷ ss) (inl e, c) h =
        (subst RowIsValid (sym e) h.0, changed-valid ts ss c h.1)
    changed-valid (t ∷ ts) (s ∷ ss) (inr (e, q), c) h =
        (subst RowIsValid (sym q) (g.valid t e h.0), changed-valid ts ss c h.1)

    change_key :
        (t : AsyncTask P) (type key : String)
        → p t ≡ true
        → is_active_of type key t ≡ false
        → is_active_of type key (f t) ≡ false
    change_key t type key e h = ground (arith, g.active t e, g.same_type t, g.same_key t)

    changed-has :
        (type key : String) (ts ss : List (AsyncTask P))
        → IsChanged ts ss
        → has_task (is_active_of type key) ts ≡ false
        → has_task (is_active_of type key) ss ≡ false
    unfolding has_task
    changed-has type key [] [] c h = refl
    changed-has type key [] (s ∷ ss) c h = absurd c
    changed-has type key (t ∷ ts) [] c h = absurd c
    changed-has type key (t ∷ ts) (s ∷ ss) (k, c) h =
        let (x, y) = or-false (is_active_of type key t) (has_task (is_active_of type key) ts) h in
        or_both
          (elim k [
            | inl e ↦ ap (is_active_of type key) e ∙ x
            | inr (e, q) ↦ ap (is_active_of type key) q ∙ change_key t type key e x
          ])
          (changed-has type key ts ss c y)

    changed-UniqueActive :
        (ts ss : List (AsyncTask P)) → IsChanged ts ss → UniqueActive ts → UniqueActive ss
    changed-UniqueActive [] [] c h = tt
    changed-UniqueActive [] (s ∷ ss) c h = absurd c
    changed-UniqueActive (t ∷ ts) [] c h = absurd c
    changed-UniqueActive (t ∷ ts) (s ∷ ss) (k, c) h = (
      elim k [
        | inl e ↦ subst (Alone ss) (sym e) (
            and_less (is_active t.status) (has_task (is_active_of t.task_type t.biz_key) ts)
              (changed-has t.task_type t.biz_key ts ss c) h.0)
        | inr (e, q) ↦ subst (Alone ss) (sym q) (
            and_false (is_active (f t).status) (
              rw (g.same_type t, g.same_key t)
                (changed-has t.task_type t.biz_key ts ss c (and-right (g.active t e) h.0))))
      ],
      changed-UniqueActive ts ss c h.1,
    )

    pub changed-IsValid : (ts ss : List (AsyncTask P)) → IsChanged ts ss → IsValid ts → IsValid ss
    changed-IsValid ts ss c v = record {
      rows = changed-valid ts ss c v.rows;
      unique = changed-UniqueActive ts ss c v.unique;
    }

  module _ (t : AsyncTask P) where
    append-has :
        (type key : String) (ts : List (AsyncTask P))
        → has_task (is_active_of type key) ts ≡ false
        → is_active_of type key t ≡ false
        → has_task (is_active_of type key) (ts ++ t ∷ []) ≡ false
    unfolding has_task
    append-has type key [] h k = or_both k refl
    append-has type key (s ∷ ts) h k =
        let (x, y) = or-false (is_active_of type key s) (has_task (is_active_of type key) ts) h in
        or_both x (append-has type key ts y k)

    other_key :
        (s : AsyncTask P)
        → is_active s.status ≡ true
        → is_active_of t.task_type t.biz_key s ≡ false
        → is_active_of s.task_type s.biz_key t ≡ false
    other_key s x e = ground (
      arith,
      eq_iff s.task_type t.task_type,
      eq_iff t.task_type s.task_type,
      eq_iff s.biz_key t.biz_key,
      eq_iff t.biz_key s.biz_key,
    )

    -- a new row whose key no active row has
    append-UniqueActive :
        (ts : List (AsyncTask P))
        → UniqueActive ts
        → find_task (is_active_of t.task_type t.biz_key) ts ≡ none
        → UniqueActive (ts ++ t ∷ [])
    unfolding has_task find_task
    append-UniqueActive [] h k = (and_false (is_active t.status) refl, tt)
    append-UniqueActive (s ∷ ts) h k = elim (Bool-cases (is_active_of t.task_type t.biz_key s)) [
      | inl e ↦ absurd (ground arith)
      | inr e ↦ (
        elim (Bool-cases (is_active s.status)) [
          | inl x ↦ rw x (append-has s.task_type s.biz_key ts (and-right x h.0) (other_key s x e))
          | inr x ↦ rw x refl
        ],
        append-UniqueActive ts h.1 (ground arith),
      )
    ]

    append-valid :
        (ts : List (AsyncTask P)) → All RowIsValid ts → RowIsValid t → All RowIsValid (ts ++ t ∷ [])
    append-valid [] h v = (v, tt)
    append-valid (s ∷ ts) h v = (h.0, append-valid ts h.1 v)

    pub append-IsValid :
        (ts : List (AsyncTask P))
        → IsValid ts
        → RowIsValid t
        → find_task (is_active_of t.task_type t.biz_key) ts ≡ none
        → IsValid (ts ++ t ∷ [])
    append-IsValid ts v r k = record {
      rows = append-valid ts v.rows r;
      unique = append-UniqueActive ts v.unique k;
    }
