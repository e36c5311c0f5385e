-- ===== src/Idempotency/Marks.antt =====
-- The first run of an event has its mark until its time.

use text.Mathlib.TextPositions.{starts_with-append}
use text.Mathlib.TextLemmas.{append_cancel_left}
use rag_agent.Prelude.{
  ℕ, ◌+◌, ◌<◌, String, eq_refl, str_eq-cases, ◌≡◌, ◌≢◌, refl, sym, ap, subst, ◌∙◌, Bool, true,
  false, none, some, List, [], ◌∷◌, All, arith, inl, inr, Bool-cases, Option-cases,
}
use rag_agent.Dict
use rag_agent.Dict.{get-put, get-remove}
use rag_agent.Idempotency.Keys.{Keys, read, Held, read-Held, set-Held}
use rag_agent.Idempotency.Locks.{
  is_text, ConsumeMarks, consuming, mark_key, running_mark, state_of, try_begin, mark_consumed,
  rollback,
}
use rag_agent.Idempotency.Exclusion.{set-other, delete-other, not_text}

-- The executor has no such token for the key.
abbrev pub Lacks : String → String → ConsumeMarks → Type 0
Lacks token business_key m = Dict.get business_key m.tokens ≢ some token

other_mark : (token other : String) → other ≢ token → running_mark other ≢ running_mark token
other_mark token other n e = n (append_cancel_left "0:" other token e)

module _ (k token : String) (ends : ℕ) where
  try_begin-Held :
      (now : ℕ) (t b : String) (m : ConsumeMarks) (s : Keys)
      → Held k (running_mark token) ends s
      → now < ends
      → Held k (running_mark token) ends (try_begin now t b m s).2
  unfolding try_begin
  try_begin-Held now t b m s h p = elim (str_eq-cases (mark_key m b) k) [
    | inl (q, _) ↦
        rw
          (
            subst (λ j. read now j s ≡ some (running_mark token)) (sym q)
                (read-Held now k (running_mark token) ends s h p),
            try_begin,
          )
          h
    | inr (n, _) ↦ elim (Option-cases (read now (mark_key m b) s)) [
      | inl r ↦
          rw (r, try_begin)
            (set-other (mark_key m b) k (running_mark token) (running_mark t) ends _ s n h)
      | inr (w, r) ↦ rw (r, try_begin) h
    ]
  ]

  -- a script that compares with another mark does not pass at this key
  passes_elsewhere :
      (now : ℕ) (j t : String) (s : Keys)
      → Held k (running_mark token) ends s
      → now < ends
      → t ≢ token
      → is_text (read now j s) (running_mark t) ≡ true
      → j ≢ k
  passes_elsewhere now j t s h p n b q = clash b (
      subst (λ i. is_text (read now i s) (running_mark t) ≡ false) (sym q)
        (not_text k (running_mark token) ends s now (running_mark t) h p (other_mark token t n)))
    where
      clash : {b : Bool} → b ≡ true → b ≡ false → ⊥
      clash x y = ground arith

  mark_consumed-Held :
      (now : ℕ) (b : String) (m : ConsumeMarks) (s : Keys)
      → Held k (running_mark token) ends s
      → now < ends
      → Lacks token b m
      → Held k (running_mark token) ends (mark_consumed now b m s).2
  unfolding mark_consumed
  mark_consumed-Held now b m s h p n = elim (Option-cases (Dict.get b m.tokens)) [
    | inl r ↦ rw (r, mark_consumed) h
    | inr (t, r) ↦ elim (Bool-cases (is_text (read now (mark_key m b) s) (running_mark t))) [
      | inl x ↦
          rw (r, x, mark_consumed)
            (set-other (mark_key m b) k (running_mark token) "1" ends _ s
              (passes_elsewhere now (mark_key m b) t s h p (λ e. n (r ∙ ap some e)) x) h)
      | inr x ↦ rw (r, x, mark_consumed) h
    ]
  ]

  rollback-Held :
      (now : ℕ) (b : String) (m : ConsumeMarks) (s : Keys)
      → Held k (running_mark token) ends s
      → now < ends
      → Lacks token b m
      → Held k (running_mark token) ends (rollback now b m s).2
  unfolding rollback
  rollback-Held now b m s h p n = elim (Option-cases (Dict.get b m.tokens)) [
    | inl r ↦ rw (r, rollback) h
    | inr (t, r) ↦ elim (Bool-cases (is_text (read now (mark_key m b) s) (running_mark t))) [
      | inl x ↦
          rw (r, x, rollback)
            (delete-other (mark_key m b) k (running_mark token) ends s
              (passes_elsewhere now (mark_key m b) t s h p (λ e. n (r ∙ ap some e)) x) h)
      | inr x ↦ rw (r, x, rollback) h
    ]
  ]

-- the calls of executors, each with the tokens that its process has then
pub data MarkCall : Type 0 where
  call_begin : ℕ → String → String → ConsumeMarks → MarkCall
  call_consumed : ℕ → String → ConsumeMarks → MarkCall
  call_rollback : ℕ → String → ConsumeMarks → MarkCall

unfoldable pub run_marks : List MarkCall → Keys → Keys
run_marks [] s = s
run_marks (call_begin now t b m ∷ cs) s = run_marks cs (try_begin now t b m s).2
run_marks (call_consumed now b m ∷ cs) s = run_marks cs (mark_consumed now b m s).2
run_marks (call_rollback now b m ∷ cs) s = run_marks cs (rollback now b m s).2

-- The call runs before a time, and ends no run that has the token.
abbrev pub OtherMark : String → ℕ → MarkCall → Type 0
OtherMark token ends (call_begin now t b m) = now < ends
OtherMark token ends (call_consumed now b m) = (now < ends) × Lacks token b m
OtherMark token ends (call_rollback now b m) = (now < ends) × Lacks token b m

run_marks-Held :
    (k token : String) (ends : ℕ) (cs : List MarkCall) (s : Keys)
    → All (OtherMark token ends) cs
    → Held k (running_mark token) ends s
    → Held k (running_mark token) ends (run_marks cs s)
unfolding run_marks
run_marks-Held k token ends [] s o h = h
run_marks-Held k token ends (call_begin now t b m ∷ cs) s o h =
    run_marks-Held k token ends cs _ o.1 (try_begin-Held k token ends now t b m s h o.0)
run_marks-Held k token ends (call_consumed now b m ∷ cs) s o h =
    run_marks-Held k token ends cs _ o.1 (mark_consumed-Held k token ends now b m s h o.0.0 o.0.1)
run_marks-Held k token ends (call_rollback now b m ∷ cs) s o h =
    run_marks-Held k token ends cs _ o.1 (rollback-Held k token ends now b m s h o.0.0 o.0.1)

pub begun :
    (now : ℕ) (token b : String) (m : ConsumeMarks) (s : Keys)
    → read now (mark_key m b) s ≡ none
    → Held (mark_key m b) (running_mark token) (now + m.consuming_ms) (try_begin now token b m s).2
unfolding try_begin
begun now token b m s r =
    rw (r, try_begin) (set-Held (mark_key m b) (running_mark token) (now + m.consuming_ms) s)

pub begun-tokens :
    (now : ℕ) (token b : String) (m : ConsumeMarks) (s : Keys)
    → read now (mark_key m b) s ≡ none
    → (try_begin now token b m s).1 ≡ record m { tokens = Dict.put b token m.tokens }
unfolding try_begin
begun-tokens now token b m s r = rw (r, try_begin) refl

state_of-running : (token : String) → state_of (running_mark token) ≡ some consuming
state_of-running token = ground (arith, starts_with-append "0:" token)

begin-Held :
    (now : ℕ) (t b token : String) (ends : ℕ) (m : ConsumeMarks) (s : Keys)
    → Held (mark_key m b) (running_mark token) ends s
    → now < ends
    → (try_begin now t b m s).0 ≡ some consuming
unfolding try_begin
begin-Held now t b token ends m s h p =
    rw (read-Held now (mark_key m b) (running_mark token) ends s h p, try_begin)
      (state_of-running token)

pub consume-Held :
    (now : ℕ) (b token : String) (ends : ℕ) (m : ConsumeMarks) (s : Keys)
    → Held (mark_key m b) (running_mark token) ends s
    → now < ends
    → Dict.get b m.tokens ≡ some token
    → (mark_consumed now b m s).0 ≡ true
unfolding mark_consumed
consume-Held now b token ends m s h p g =
    rw (g, read-Held now (mark_key m b) (running_mark token) ends s h p, mark_consumed)
      (rw (eq_refl (running_mark token)) refl)

-- While the first run of an event works, and its time has not run out: whatever others do, who may
-- begin, but end no run with its token, another begin is told that the event is being consumed, and
-- the first run still marks it as consumed.
pub try_begin_excludes :
    (now later : ℕ) (token other b : String) (m : ConsumeMarks) (s : Keys) (cs : List MarkCall)
    → read now (mark_key m b) s ≡ none
    → All (OtherMark token (now + m.consuming_ms)) cs
    → later < now + m.consuming_ms
    → ((try_begin later other b m (run_marks cs (try_begin now token b m s).2)).0 ≡ some consuming)
      × ((mark_consumed later b
            (try_begin now token b m s).1
            (run_marks cs (try_begin now token b m s).2)).0
          ≡ true)
try_begin_excludes now later token other b m s cs r o p =
    let h =
      run_marks-Held (mark_key m b) token (now + m.consuming_ms) cs (try_begin now token b m s).2 o
        (begun now token b m s r) in
    (
      begin-Held later other b token (now + m.consuming_ms) m _ h p,
      subst (λ x. (mark_consumed later b x (run_marks cs (try_begin now token b m s).2)).0 ≡ true)
          (sym (begun-tokens now token b m s r))
          (consume-Held later b token (now + m.consuming_ms)
            (record m { tokens = Dict.put b token m.tokens }) _ h p
            (ground (arith, get-put b b token m.tokens, eq_refl b))),
    )
