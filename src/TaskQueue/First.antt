-- ===== src/TaskQueue/First.antt =====
-- The row that comes first in the order of `claim`.
use rag_agent.Prelude.{
  ◌≡◌, refl, subst, Bool, true, false, ◌&&◌, Option, none, some, List, [], ◌∷◌, arith, All,
  Bool-cases, inl, inr,
}
use mathlib.Core.List.{Memᴰ}
use rag_agent.TaskQueue.Rows.{AsyncTask, is_before}
use rag_agent.TaskQueue.Methods.{earlier, first_task}

module _ {P : Type 0} where
  before_trans :
      (t s u : AsyncTask P) → is_before s t ≡ false → is_before u s ≡ false → is_before u t ≡ false
  before_trans t s u h k = ground arith

  before_asym : (t s : AsyncTask P) → is_before s t ≡ true → is_before t s ≡ false
  before_asym t s h = ground arith

  before_irrefl : (t : AsyncTask P) → is_before t t ≡ false
  before_irrefl t = ground arith

  -- The row passes the test, and no row that passes stands before it.
  pub record IsFirst (p : AsyncTask P → Bool) (ts : List (AsyncTask P)) (t : AsyncTask P)
      : Type 0 where
    pub held : Memᴰ t ts
    pub passes : p t ≡ true
    pub least : All (λ s. (p s && is_before s t) ≡ false) ts

  -- what `first_task` gives
  abbrev pub FirstOf : (AsyncTask P → Bool) → List (AsyncTask P) → Option (AsyncTask P) → Type 0
  FirstOf p ts none = All (λ s. p s ≡ false) ts
  FirstOf p ts (some t) = IsFirst p ts t

  -- nothing that passes is before a row that has nothing that passes behind it
  none_before :
      (p : AsyncTask P → Bool) (t : AsyncTask P) (ts : List (AsyncTask P))
      → All (λ s. p s ≡ false) ts
      → All (λ s. (p s && is_before s t) ≡ false) ts
  none_before p t [] h = tt
  none_before p t (s ∷ ts) h = (rw (h.0) refl, none_before p t ts h.1)

  still_before :
      (p : AsyncTask P → Bool) (t s : AsyncTask P) (ts : List (AsyncTask P))
      → is_before s t ≡ false
      → All (λ u. (p u && is_before u s) ≡ false) ts
      → All (λ u. (p u && is_before u t) ≡ false) ts
  still_before p t s [] e h = tt
  still_before p t s (u ∷ ts) e h = (
    elim (Bool-cases (p u)) [
      | inl q ↦ rw q (before_trans t s u e (subst (λ b. (b && is_before u s) ≡ false) q h.0))
      | inr q ↦ rw q refl
    ],
    still_before p t s ts e h.1,
  )

  passes-IsFirst :
      (p : AsyncTask P → Bool) (t : AsyncTask P) (ts : List (AsyncTask P))
      (r : Option (AsyncTask P))
      → p t ≡ true
      → FirstOf p ts r
      → IsFirst p (t ∷ ts) (earlier t r)
  passes-IsFirst p t ts none e h = record {
    held = Memᴰ.head refl;
    passes = e;
    least = (rw e (before_irrefl t), none_before p t ts h);
  }
  passes-IsFirst p t ts (some s) e h = elim (Bool-cases (is_before s t)) [
    | inl b ↦ rw b (record {
      held = Memᴰ.tail h.held;
      passes = h.passes;
      least = (rw e (before_asym t s b), h.least);
    })
    | inr b ↦ rw b (record {
      held = Memᴰ.head refl;
      passes = e;
      least = (rw e (before_irrefl t), still_before p t s ts b h.least);
    })
  ]

  fails-FirstOf :
      (p : AsyncTask P → Bool) (t : AsyncTask P) (ts : List (AsyncTask P))
      (r : Option (AsyncTask P))
      → p t ≡ false
      → FirstOf p ts r
      → FirstOf p (t ∷ ts) r
  fails-FirstOf p t ts none e h = (e, h)
  fails-FirstOf p t ts (some s) e h = record {
    held = Memᴰ.tail h.held;
    passes = h.passes;
    least = (rw e refl, h.least);
  }

  pub first_task-FirstOf :
      (p : AsyncTask P → Bool) (ts : List (AsyncTask P)) → FirstOf p ts (first_task p ts)
  unfolding first_task
  first_task-FirstOf p [] = tt
  first_task-FirstOf p (t ∷ ts) = elim (Bool-cases (p t)) [
    | inl e ↦
        rw (e, first_task) (passes-IsFirst p t ts (first_task p ts) e (first_task-FirstOf p ts))
    | inr e ↦
        rw (e, first_task) (fails-FirstOf p t ts (first_task p ts) e (first_task-FirstOf p ts))
  ]
