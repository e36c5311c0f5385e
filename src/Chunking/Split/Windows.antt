-- ===== src/Chunking/Split/Windows.antt =====
-- The parts are those of windows that cover the text.
use rag_agent.Prelude.{
  strip-strip, leb→le, subst, ℕ, zero, suc, ◌+◌, ◌-◌, ◌/◌, ◌≤◌, ◌<◌, min, max, ◌≡◌, refl, ap, sym,
  ◌∙◌, Bool, true, false, ◌&&◌, ◌||◌, Option, none, some, List, [], ◌∷◌, ltb, leb, lt→ltb, length,
  take, drop, length-take, length-drop, length-strip, Text, is_space, strip, if◌then◌else◌, arith,
  All, Bool-cases, inl, inr,
}
use rag_agent.Chunking.Split.{
  is_terminator, last_match_end, slice, cut_at, window_end, add_part, split_from, whole, split_text,
}

-- A match ends behind its first code point, and not behind the text.
abbrev Ends : ℕ → Option ℕ → Type 0
Ends n none = Unit
Ends n (some e) = (1 ≤ e) × (e ≤ n)

Ends-mono : (m n : ℕ) (o : Option ℕ) → m ≤ n → Ends m o → Ends n o
Ends-mono m n none h e = tt
Ends-mono m n (some x) h e = (e.0, omega (arith, e.1))

Ends-if :
    (b : Bool) (n : ℕ) (o : Option ℕ) → Ends n o → Ends (suc n) (if b then some (suc n) else o)
Ends-if true n o e = (omega arith, omega arith)
Ends-if false n o e = Ends-mono n (suc n) o (omega arith) e

last_match_end-Ends :
    (position : ℕ) (inside : Bool) (best : Option ℕ) (text : Text)
    → Ends position best
    → Ends (position + length text) (last_match_end position inside best text)
unfolding last_match_end
last_match_end-Ends position inside best [] e =
    Ends-mono position (position + 0) best (omega arith) e
last_match_end-Ends position inside best (c ∷ text) e =
    let hit = is_terminator c || (inside && is_space c) in
    Ends-mono (suc position + length text) (position + suc (length text)) _ (omega arith) (
      last_match_end-Ends (suc position) hit (if hit then some (suc position) else best) text
        (Ends-if hit position best e))

length-slice :
    (start end : ℕ) (text : Text) → end ≤ length text → length (slice start end text) ≡ end - start
length-slice start end text h =
    omega (arith, length-take (end - start) (drop start text), length-drop start text)

-- A window that begins in the text is not empty, no longer than the limit, and ends in the text.
abbrev IsWindow : ℕ → Text → ℕ → ℕ → Type 0
IsWindow max_chars text start end = (start < end) × (end ≤ start + max_chars) × (end ≤ length text)

cut_at-IsWindow :
    (max_chars start hard_end : ℕ) (text : Text) (o : Option ℕ)
    → IsWindow max_chars text start hard_end
    → Ends (hard_end - start) o
    → IsWindow max_chars text start (cut_at max_chars start hard_end o)
cut_at-IsWindow max_chars start hard_end text none h e = h
cut_at-IsWindow max_chars start hard_end text (some x) h e =
    elim (Bool-cases (leb (max_chars / 2) x)) [
      | inl q ↦ rw q (omega (arith, e.0), omega (arith, e.1, h.1), omega (arith, e.1, h.0, h.2))
      | inr q ↦ rw q h
    ]

window_end-IsWindow :
    (max_chars start : ℕ) (text : Text)
    → 1 ≤ max_chars
    → start < length text
    → IsWindow max_chars text start (window_end max_chars text start)
unfolding window_end
window_end-IsWindow max_chars start text m h =
    let hard_end = min (length text) (start + max_chars) in
    let w : IsWindow max_chars text start hard_end = (omega arith, omega arith, omega arith) in
    elim (Bool-cases (ltb hard_end (length text))) [
      | inl q ↦
          rw (q, window_end)
            (cut_at-IsWindow max_chars start hard_end text _ w (
              Ends-mono (0 + length (slice start hard_end text)) (hard_end - start) _
                (omega (arith, length-slice start hard_end text (omega arith)))
                (last_match_end-Ends 0 false none (slice start hard_end text) tt)))
      | inr q ↦ rw (q, window_end) w
    ]

abbrev pub parts_of : Text → List (ℕ × ℕ) → List Text
parts_of text [] = []
parts_of text ((start, end) ∷ ws) = add_part (strip (slice start end text)) (parts_of text ws)

-- The windows cover `n` code points from `start` on: each begins behind the one before it, and not
-- behind its end, has at most `max_chars` code points, and the last ends the text.
abbrev pub Covers : ℕ → ℕ → ℕ → List (ℕ × ℕ) → Type 0
Covers max_chars n start [] = ⊥
Covers max_chars n start ((a, b) ∷ []) = (a ≡ start) × (b ≤ a + max_chars) × (b ≡ n)
Covers max_chars n start ((a, b) ∷ (c, d) ∷ ws) =
    (a ≡ start) × (b ≤ a + max_chars) × (a < c) × (c ≤ b) × Covers max_chars n c ((c, d) ∷ ws)

Covers-cons :
    (max_chars n a b next : ℕ) (ws : List (ℕ × ℕ))
    → b ≤ a + max_chars
    → a < next
    → next ≤ b
    → Covers max_chars n next ws
    → Covers max_chars n a ((a, b) ∷ ws)
Covers-cons max_chars n a b next [] h k l c = absurd c
Covers-cons max_chars n a b next ((x, y) ∷ []) h k l c =
    (refl, h, omega (arith, c.0), omega (arith, c.0), (refl, c.1, c.2))
Covers-cons max_chars n a b next ((x, y) ∷ (z, u) ∷ ws) h k l c =
    (refl, h, omega (arith, c.0), omega (arith, c.0), (refl, c.1, c.2, c.3, c.4))

-- The parts are those of windows that cover the text.
abbrev pub Split : ℕ → Text → ℕ → List Text → Type 0
Split max_chars text start parts =
    (ws : List (ℕ × ℕ)) × (parts ≡ parts_of text ws) × Covers max_chars (length text) start ws

split_from-Split :
    (fuel max_chars overlap : ℕ) (text : Text) (start : ℕ)
    → 1 ≤ max_chars
    → start < length text
    → length text ≤ fuel + start
    → Split max_chars text start (split_from fuel max_chars overlap text start)
unfolding split_from
split_from-Split zero max_chars overlap text start m h k = absurd (omega arith)
split_from-Split (suc fuel) max_chars overlap text start m h k =
    let end = window_end max_chars text start in
    let w = window_end-IsWindow max_chars start text m h in
    let next = max (start + 1) (end - overlap) in
    elim (Bool-cases (leb (length text) end)) [
      | inl q ↦
          rw (lt→ltb start (length text) h, q, split_from)
            ((start, end) ∷ [], refl, (refl, w.1, ground arith))
      | inr q ↦
          let next_lt : next < length text = ground arith in
          let rest = split_from-Split fuel max_chars overlap text next m next_lt (omega arith) in
          rw (lt→ltb start (length text) h, q, split_from)
            (
              (start, end) ∷ rest.0,
              ap (λ r. add_part (strip (slice start end text)) r) rest.1,
              Covers-cons max_chars (length text) start end next rest.0 w.1 (omega arith)
                  (omega arith) rest.2,
            )
    ]

-- A part is not empty, and has no more code points than the limit.
abbrev pub IsPart : ℕ → Text → Type 0
IsPart max_chars part = (1 ≤ length part) × (length part ≤ max_chars)

add_part-IsPart :
    (max_chars : ℕ) (part : Text) (parts : List Text)
    → length part ≤ max_chars
    → All (IsPart max_chars) parts
    → All (IsPart max_chars) (add_part part parts)
add_part-IsPart max_chars [] parts h k = k
add_part-IsPart max_chars (c ∷ part) parts h k = ((omega arith, h), k)

length-window :
    (max_chars start end : ℕ) (text : Text)
    → end ≤ start + max_chars
    → length (strip (slice start end text)) ≤ max_chars
length-window max_chars start end text h =
    omega (arith, length-strip (slice start end text), length-take (end - start) (drop start text))

parts_of-IsPart :
    (max_chars n start : ℕ) (text : Text) (ws : List (ℕ × ℕ))
    → Covers max_chars n start ws
    → All (IsPart max_chars) (parts_of text ws)
parts_of-IsPart max_chars n start text [] c = tt
parts_of-IsPart max_chars n start text ((a, b) ∷ []) c =
    add_part-IsPart max_chars (strip (slice a b text)) [] (length-window max_chars a b text c.1) tt
parts_of-IsPart max_chars n start text ((a, b) ∷ (x, y) ∷ ws) c =
    add_part-IsPart max_chars (strip (slice a b text)) (parts_of text ((x, y) ∷ ws))
      (length-window max_chars a b text c.1) (parts_of-IsPart max_chars n x text ((x, y) ∷ ws) c.4)

minus_zero : (n : ℕ) → n - 0 ≡ n
minus_zero n = omega arith

take_all : (text : Text) → take (length text) text ≡ text
take_all [] = refl
take_all (c ∷ text) = ap (◌∷◌ c) (take_all text)

whole-Split :
    (max_chars : ℕ) (text : Text)
    → strip text ≡ text
    → length text ≤ max_chars
    → Split max_chars text 0 (whole text)
whole-Split max_chars text s h = (
  (0, length text) ∷ [],
  ap (λ x. add_part x [])
      (sym (ap strip (ap (λ n. take n text) (minus_zero (length text)) ∙ take_all text) ∙ s)),
  (refl, omega (arith, h), refl),
)

split_text-Split :
    (given : Text) (max_chars overlap : ℕ)
    → 1 ≤ max_chars
    → Split max_chars (strip given) 0 (split_text given max_chars overlap)
unfolding split_text
split_text-Split given max_chars overlap m =
    elim (Bool-cases (leb (length (strip given)) max_chars)) [
      | inl q ↦
          rw (q, split_text)
            (whole-Split max_chars (strip given) (strip-strip given) (leb→le _ _ q))
      | inr q ↦
          rw (q, split_text)
            (split_from-Split (length (strip given)) max_chars overlap (strip given) 0 m
              (ground arith) (omega arith))
    ]

-- For a limit of at least one code point, whatever the overlap: the parts are, stripped and without the
-- empty ones, the contents of windows that cover the stripped text from its first code point to its
-- last, each beginning behind the one before it and at the latest at its end. No part is empty or
-- exceeds the limit.
pub split_text_lem :
    (given : Text) (max_chars overlap : ℕ)
    → 1 ≤ max_chars
    → Split max_chars (strip given) 0 (split_text given max_chars overlap)
      × All (IsPart max_chars) (split_text given max_chars overlap)
split_text_lem given max_chars overlap m =
    let s = split_text-Split given max_chars overlap m in
    (
      s,
      subst (All (IsPart max_chars)) (sym s.1)
          (parts_of-IsPart max_chars (length (strip given)) 0 (strip given) s.0 s.2),
    )
