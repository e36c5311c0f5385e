-- ===== src/Idempotency/Overtaken.antt =====
-- Two runs of one event in one process.
use rag_agent.Prelude.{
  ℕ, ◌+◌, ◌≤◌, ◌<◌, String, eq_refl, ◌≡◌, refl, sym, ap, subst, ◌∙◌, true, false, none, some, arith,
  inl, inr, Bool-cases,
}
use rag_agent.Dict
use rag_agent.Dict.{get-put, get-remove}
use rag_agent.Idempotency.Keys.{Keys, read, Held}
use rag_agent.Idempotency.Locks.{
  is_text, ConsumeMarks, first_run, mark_key, running_mark, try_begin, mark_consumed, pop_token,
}
use rag_agent.Idempotency.Marks.{begun, begun-tokens, consume-Held}

read_expired :
    (now : ℕ) (k v : String) (ends : ℕ) (s : Keys)
    → Held k v ends s
    → ends ≤ now
    → read now k s ≡ none
unfolding read
read_expired now k v ends s h p = ground arith

marked-tokens :
    (now : ℕ) (b token : String) (m : ConsumeMarks) (s : Keys)
    → Dict.get b m.tokens ≡ some token
    → (mark_consumed now b m s).1 ≡ pop_token b m
unfolding mark_consumed
marked-tokens now b token m s g =
    elim (Bool-cases (is_text (read now (mark_key m b) s) (running_mark token))) [
      | inl x ↦ rw (g, x, mark_consumed) refl
      | inr x ↦ rw (g, x, mark_consumed) refl
    ]

no_token :
    (now : ℕ) (b : String) (m : ConsumeMarks) (s : Keys)
    → Dict.get b m.tokens ≡ none
    → (mark_consumed now b m s).0 ≡ false
unfolding mark_consumed
no_token now b m s g = rw (g, mark_consumed) refl

begun-first :
    (now : ℕ) (token b : String) (m : ConsumeMarks) (s : Keys)
    → read now (mark_key m b) s ≡ none
    → (try_begin now token b m s).0 ≡ some first_run
unfolding try_begin
begun-first now token b m s r = rw (r, try_begin) refl

-- the two calls of `mark_consumed` of an executor that has the token, whose mark is there
abbrev Ends : ℕ → ℕ → String → Keys → ConsumeMarks → Type 0
Ends later last b s m =
    ((mark_consumed later b m s).0 ≡ true)
    × ((mark_consumed last b (mark_consumed later b m s).1 (mark_consumed later b m s).2).0 ≡ false)

Ends-once :
    (later last : ℕ) (b token : String) (ends : ℕ) (m : ConsumeMarks) (s : Keys)
    → Held (mark_key m b) (running_mark token) ends s
    → later < ends
    → Dict.get b m.tokens ≡ some token
    → Ends later last b s m
Ends-once later last b token ends m s h p g = (
  consume-Held later b token ends m s h p g,
  no_token last b (mark_consumed later b m s).1 (mark_consumed later b m s).2 (
      ap (λ x. Dict.get b x.tokens) (marked-tokens later b token m s g)
      ∙ ground (arith, get-remove b b m.tokens, eq_refl b)),
)

-- a run that begins when the key is free
free_run :
    (now later last : ℕ) (token b : String) (m : ConsumeMarks) (s : Keys)
    → read now (mark_key m b) s ≡ none
    → later < now + m.consuming_ms
    → Ends later last b (try_begin now token b m s).2 (try_begin now token b m s).1
free_run now later last token b m s r q =
    subst (Ends later last b (try_begin now token b m s).2) (sym (begun-tokens now token b m s r)) (
      Ends-once later last b token (now + m.consuming_ms)
        (record m { tokens = Dict.put b token m.tokens }) (try_begin now token b m s).2
        (begun now token b m s r) q (ground (arith, get-put b b token m.tokens, eq_refl b)))

module _ (first second b : String) (m : ConsumeMarks) (s : Keys) (start again : ℕ) where
  -- the executor and the keys after the first run has begun, and after the second one has
  abbrev pub one : ConsumeMarks × Keys
  one = ((try_begin start first b m s).1, (try_begin start first b m s).2)

  abbrev pub two : ConsumeMarks × Keys
  two = ((try_begin again second b one.0 one.1).1, (try_begin again second b one.0 one.1).2)

  -- A run that began with the event's mark free and whose time has run out, and a second run of the
  -- event that the same process has begun since: the second one is a first run too. The executor keeps
  -- the token by the event, so while the second mark lasts the first of the two that ends marks the
  -- event as consumed with the second run's token, also if it is the first run and the second is at
  -- work; the other's call is then refused.
  pub mark_consumed_overtaken :
      (later last : ℕ)
      → read start (mark_key m b) s ≡ none
      → start + m.consuming_ms ≤ again
      → later < again + m.consuming_ms
      → ((try_begin again second b one.0 one.1).0 ≡ some first_run)
        × ((mark_consumed later b two.0 two.1).0 ≡ true)
        × ((mark_consumed last b
              (mark_consumed later b two.0 two.1).1
              (mark_consumed later b two.0 two.1).2).0
            ≡ false)
  mark_consumed_overtaken later last r p q =
      let e = begun-tokens start first b m s r in
      let free =
        subst (λ x. read again (mark_key x b) one.1 ≡ none) (sym e)
          (read_expired again (mark_key m b) (running_mark first) (start + m.consuming_ms) one.1
            (begun start first b m s r) p) in
      let x =
        free_run again later last second b one.0 one.1 free
          (subst (λ y. later < again + y.consuming_ms) (sym e) q) in
      (begun-first again second b one.0 one.1 free, x.0, x.1)
