-- ===== src/Rewrite/Mapping/Again.antt =====
-- A target that holds its source, but not at its start, is expanded again.
use rag_agent.Prelude.{
  ℕ, zero, suc, ◌≡◌, ◌≢◌, refl, ap, ◌∙◌, [], ◌∷◌, ◌==◌, Text, strip, if◌then◌else◌, arith,
  Bool-cases, inl, inr,
}
use rag_agent.Rewrite.Mapping.{QueryTermMapping, starts_with, apply_mapping}
use rag_agent.Rewrite.Mapping.Expansion.{expand, apply_mapping-expand}

-- the mapping, applied so many times
unfoldable pub apply_times : ℕ → QueryTermMapping → Text → Text
apply_times zero m text = text
apply_times (suc n) m text = apply_mapping (apply_times n m text) m

-- so many `a` in front of a text
abbrev pub put_in_front : ℕ → ℕ → Text → Text
put_in_front zero a text = text
put_in_front (suc n) a text = a ∷ put_in_front n a text

-- the text with so many `a` in front of each `b`
unfoldable pub led_by : ℕ → ℕ → ℕ → Text → Text
led_by a b n [] = []
led_by a b n (c ∷ text) =
    if c == b then put_in_front n a (c ∷ led_by a b n text) else c ∷ led_by a b n text

module _ (a b : ℕ) (n : a ≢ b) where
  abbrev one : Text
  one = b ∷ []

  abbrev two : Text
  two = a ∷ b ∷ []

  expand-put_in_front :
      (k : ℕ) (text : Text)
      → expand one two 0 (put_in_front k a text) ≡ put_in_front k a (expand one two 0 text)
  unfolding expand starts_with
  expand-put_in_front zero text = refl
  expand-put_in_front (suc k) text = ground (arith, expand-put_in_front k text)

  -- a code point is replaced if it is `b`
  expand_head :
      (c : ℕ) (text : Text)
      → expand one two 0 (c ∷ text)
        ≡ (if c == b then a ∷ b ∷ expand one two 0 text else c ∷ expand one two 0 text)
  unfolding expand starts_with
  expand_head c text = ground arith

  put_in_front-end :
      (k c : ℕ) (text : Text) → put_in_front k c (c ∷ text) ≡ c ∷ put_in_front k c text
  put_in_front-end zero c text = refl
  put_in_front-end (suc k) c text = ap (◌∷◌ c) (put_in_front-end k c text)

  expand-led_by :
      (k : ℕ) (text : Text) → expand one two 0 (led_by a b k text) ≡ led_by a b (suc k) text
  unfolding led_by
  expand-led_by k [] = unfold expand in refl
  expand-led_by k (c ∷ text) = elim (Bool-cases (c == b)) [
    | inl q ↦
        rw (q, led_by)
          (expand-put_in_front k (c ∷ led_by a b k text)
            ∙ ap (put_in_front k a) (expand_head c (led_by a b k text) ∙ rw q refl)
            ∙ put_in_front-end k a (b ∷ expand one two 0 (led_by a b k text))
            ∙ ap (λ x. a ∷ put_in_front k a x) (ground (arith, expand-led_by k text)))
    | inr q ↦
        rw (q, led_by)
          (expand_head c (led_by a b k text) ∙ rw q (ap (◌∷◌ c) (expand-led_by k text)))
  ]

  led_by-zero : (text : Text) → text ≡ led_by a b 0 text
  unfolding led_by
  led_by-zero [] = refl
  led_by-zero (c ∷ text) = ground (arith, led_by-zero text)

  module _ (m : QueryTermMapping) (e : m.match_type ≡ 1) (s : strip m.source_term ≡ one)
      (t : strip m.target_term ≡ two) where
    apply_mapping-one : (text : Text) → apply_mapping text m ≡ expand one two 0 text
    apply_mapping-one text = apply_mapping-expand text m ∙ rw (e, s, t) (ground arith)

    -- A mapping from one code point `b` to itself with another, `a`, in front, applied `k` times: in
    -- front of each `b` of the text `k` times `a` is put in, and nothing else changes, so every
    -- application puts in one more, although the target stands there already.
    pub apply_mapping-again : (k : ℕ) (text : Text) → apply_times k m text ≡ led_by a b k text
    unfolding apply_times
    apply_mapping-again zero text = led_by-zero text
    apply_mapping-again (suc k) text =
        ap (λ x. apply_mapping x m) (apply_mapping-again k text)
        ∙ apply_mapping-one (led_by a b k text)
        ∙ expand-led_by k text
