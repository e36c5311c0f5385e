-- ===== src/Rewrite/Mapping/Expansion.antt =====
-- The loop of `apply_mapping` is one pass over the text.
use rag_agent.Prelude.{
  strip, ℕ, zero, suc, ◌+◌, ◌-◌, ◌≤◌, ◌<◌, ◌≡◌, refl, ap, sym, ◌∙◌, true, false, Option, none, some,
  [], ◌∷◌, ◌++◌, append_assoc, length, length-append, length-take, take-append-drop, take, drop,
  length-drop, Text, if◌then◌else◌, arith, Bool-cases, inl, inr,
}
use rag_agent.Rewrite.Mapping.{
  QueryTermMapping, is_idle, is_empty, apply_mapping, starts_with, find_from, find, replace_from,
}
use rag_agent.Rewrite.Mapping.Pieces.{
  drop_eq, drop_one, drop-append, take-append, drop-drop, starts_with-append,
}

module _ (source target : Text) where
  -- The text with each source, from left to right, replaced by the target, but where the target stands
  -- already. The first `skip` code points belong to a source that was met, and are passed over.
  unfoldable pub expand : ℕ → Text → Text
  expand skip [] = []
  expand (suc skip) (c ∷ text) = expand skip text
  expand zero (c ∷ text) =
      let rest = expand (length source - 1) text in
      let next = expand zero text in
      if starts_with source (c ∷ text)
      then (if starts_with target (c ∷ text) then source else target) ++ rest
      else c ∷ next

  expand-drop : (skip : ℕ) (text : Text) → expand skip text ≡ expand 0 (drop skip text)
  unfolding expand
  expand-drop zero text = refl
  expand-drop (suc skip) [] = refl
  expand-drop (suc skip) (c ∷ text) = expand-drop skip text

  -- Nothing is found: nothing changes. Else the text is passed over up to what is found.
  abbrev Found : ℕ → Text → Option ℕ → Type 0
  Found index text none = expand 0 text ≡ text
  Found index text (some i) =
      (n : ℕ) × (i ≡ index + n)
      × (n < length text)
      × (starts_with source (drop n text) ≡ true)
      × (expand 0 text ≡ take n text ++ expand 0 (drop n text))

  Found-cons :
      (index c : ℕ) (text : Text) (o : Option ℕ)
      → starts_with source (c ∷ text) ≡ false
      → Found (suc index) text o
      → Found index (c ∷ text) o
  unfolding expand
  Found-cons index c text none q f = rw (q, expand) (ap (◌∷◌ c) f)
  Found-cons index c text (some i) q f =
      (suc f.0, omega (arith, f.1), omega (arith, f.2), f.3, rw (q, expand) (ap (◌∷◌ c) f.4))

  find_from-Found : (index : ℕ) (text : Text) → Found index text (find_from source index text)
  unfolding find_from
  find_from-Found index [] = unfold expand in refl
  find_from-Found index (c ∷ text) = elim (Bool-cases (starts_with source (c ∷ text))) [
    | inl q ↦ rw (q, find_from) (0, omega arith, omega arith, q, refl)
    | inr q ↦
        rw (q, find_from)
          (Found-cons index c text (find_from source (suc index) text) q
            (find_from-Found (suc index) text))
  ]

  -- what is found is replaced, or kept
  expand_met :
      (text : Text)
      → 0 < length text
      → starts_with source text ≡ true
      → 1 ≤ length source
      → expand 0 text
        ≡ (if starts_with target text then source else target)
          ++ expand 0 (drop (length source) text)
  unfolding expand
  expand_met [] h q s = absurd (omega arith)
  expand_met (c ∷ text) h q s =
      rw (q, expand)
        (ap (λ r. (if starts_with target (c ∷ text) then source else target) ++ r)
          (expand-drop (length source - 1) text
            ∙ ap (expand 0) (sym (drop_one (length source) c text s))))

  -- the texts before and behind what is found, with `x` in its place
  joined :
      (pre suf x : Text) (n : ℕ) (e : Text)
      → expand 0 suf ≡ take n suf ++ e
      → e ≡ x ++ expand 0 (drop (length source) (drop n suf))
      → (pre ++ (take n suf ++ x)) ++ expand 0 (drop (length source) (drop n suf))
        ≡ pre ++ expand 0 suf
  joined pre suf x n e p q =
      append_assoc pre (take n suf ++ x) _
      ∙ ap (λ r. pre ++ r)
          (append_assoc (take n suf) x _ ∙ ap (λ r. take n suf ++ r) (sym q) ∙ sym p)

  -- The loop from behind `pre` on, for what it finds.
  abbrev Expands : ℕ → Type 0
  Expands fuel =
      (pre suf : Text)
      → length suf < fuel
      → replace_from fuel source target (pre ++ suf) (length pre) ≡ pre ++ expand 0 suf

  module _ (fuel : ℕ) (ih : Expands fuel) (pre suf : Text) (n : ℕ) (s : 1 ≤ length source)
      (h : length suf < suc fuel) (l : n < length suf) (b : starts_with source (drop n suf) ≡ true)
      (e : expand 0 suf ≡ take n suf ++ expand 0 (drop n suf)) where
    abbrev behind : Text
    behind = drop (length source) (drop n suf)

    length-behind : length behind < fuel
    length-behind = omega (arith, length-drop (length source) (drop n suf), length-drop n suf)

    length-passed : (x : Text) → length (pre ++ (take n suf ++ x)) ≡ length pre + n + length x
    length-passed x = omega (
      arith,
      length-append pre (take n suf ++ x),
      length-append (take n suf) x,
      length-take n suf,
    )

    expanded :
        (x : Text)
        → (if starts_with target (drop n suf) then source else target) ≡ x
        → expand 0 (drop n suf) ≡ x ++ expand 0 behind
    expanded x q =
        expand_met (drop n suf) (omega (arith, length-drop n suf)) b s
        ∙ ap (λ y. y ++ expand 0 behind) q

    passed :
        (x : Text)
        → (if starts_with target (drop n suf) then source else target) ≡ x
        → replace_from fuel source target
            ((pre ++ (take n suf ++ x)) ++ behind)
            (length pre + n + length x)
          ≡ pre ++ expand 0 suf
    passed x q =
        ap (replace_from fuel source target ((pre ++ (take n suf ++ x)) ++ behind))
          (sym (length-passed x))
        ∙ ih (pre ++ (take n suf ++ x)) behind length-behind
        ∙ joined pre suf x n (expand 0 (drop n suf)) e (expanded x q)

    kept_lem : (pre ++ (take n suf ++ source)) ++ behind ≡ pre ++ suf
    kept_lem =
        append_assoc pre (take n suf ++ source) behind
        ∙ ap (λ r. pre ++ r)
            (append_assoc (take n suf) source behind
              ∙ ap (λ r. take n suf ++ r) (starts_with-append source (drop n suf) b)
              ∙ take-append-drop n suf)

    replaced_lem :
        take (length pre + n) (pre ++ suf)
          ++ (target ++ drop (length pre + n + length source) (pre ++ suf))
        ≡ (pre ++ (take n suf ++ target)) ++ behind
    replaced_lem =
        ap (λ r. r ++ (target ++ drop (length pre + n + length source) (pre ++ suf)))
          (take-append pre suf n)
        ∙ ap (λ r. (pre ++ take n suf) ++ (target ++ r))
            (drop_eq (length pre + n + length source) (length pre + (n + length source))
                (pre ++ suf) (omega arith)
              ∙ drop-append pre suf (n + length source)
              ∙ drop-drop n (length source) suf)
        ∙ sym (append_assoc (pre ++ take n suf) target behind)
        ∙ ap (λ r. r ++ behind) (append_assoc pre (take n suf) target)

    replace_step :
        find source (pre ++ suf) (length pre) ≡ some (length pre + n)
        → replace_from (suc fuel) source target (pre ++ suf) (length pre) ≡ pre ++ expand 0 suf
    unfolding replace_from
    replace_step q =
        let d = drop-append pre suf n in
        elim (Bool-cases (starts_with target (drop n suf))) [
          | inl t ↦
              rw (q, replace_from)
                (rw (d, t)
                  (ap (λ r. replace_from fuel source target r (length pre + n + length source))
                      (sym kept_lem)
                    ∙ passed source (rw t refl)))
          | inr t ↦
              rw (q, replace_from)
                (rw (d, t)
                  (ap (λ r. replace_from fuel source target r (length pre + n + length target))
                      replaced_lem
                    ∙ passed target (rw t refl)))
        ]

  replace_any :
      (fuel : ℕ) (ih : Expands fuel) (pre suf : Text) (o : Option ℕ)
      → 1 ≤ length source
      → length suf < suc fuel
      → find source (pre ++ suf) (length pre) ≡ o
      → Found (length pre) suf o
      → replace_from (suc fuel) source target (pre ++ suf) (length pre) ≡ pre ++ expand 0 suf
  unfolding replace_from
  replace_any fuel ih pre suf none s h q f = rw (q, replace_from) (ap (λ r. pre ++ r) (sym f))
  replace_any fuel ih pre suf (some i) s h q f =
      replace_step fuel ih pre suf f.0 s h f.2 f.3 f.4 (q ∙ ap some f.1)

  replace_from-expand : (fuel : ℕ) → 1 ≤ length source → Expands fuel
  replace_from-expand zero s pre suf h = absurd (omega arith)
  replace_from-expand (suc fuel) s pre suf h =
      replace_any fuel (replace_from-expand fuel s) pre suf (find_from source (length pre) suf) s h
        (ap (find_from source (length pre)) (
          drop_eq (length pre) (length pre + 0) (pre ++ suf) (omega arith) ∙ drop-append pre suf 0))
        (find_from-Found (length pre) suf)

length-not_empty : (source : Text) → is_empty source ≡ false → 1 ≤ length source
length-not_empty [] h = absurd (cc)
length-not_empty (c ∷ source) h = omega arith

source-not_idle :
    (match_type : ℕ) (source target : Text)
    → is_idle match_type source target ≡ false
    → is_empty source ≡ false
source-not_idle match_type source target h = ground arith

-- A mapping changes nothing if it does not match exactly, a stripped term is empty or the two are the same.
-- Otherwise the loop ends, and its result is the text of one pass from left to right, in which each
-- occurrence of the source that begins no target is replaced, and what is put in is not looked at again.
pub apply_mapping-expand :
    (text : Text) (m : QueryTermMapping)
    → apply_mapping text m ≡ (
        if is_idle m.match_type (strip m.source_term) (strip m.target_term)
        then text
        else expand (strip m.source_term) (strip m.target_term) 0 text)
unfolding apply_mapping
apply_mapping-expand text m =
    elim (Bool-cases (is_idle m.match_type (strip m.source_term) (strip m.target_term))) [
      | inl q ↦ rw q refl
      | inr q ↦ rw q (
          replace_from-expand (strip m.source_term) (strip m.target_term) (suc (length text))
            (length-not_empty (strip m.source_term)
              (source-not_idle m.match_type (strip m.source_term) (strip m.target_term) q))
            [] text (omega arith))
    ]
