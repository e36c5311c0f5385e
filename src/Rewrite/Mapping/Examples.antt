-- ===== src/Rewrite/Mapping/Examples.antt =====
-- The theorems on mappings at concrete terms.
use rag_agent.Prelude.{
  ℕ, ◌≡◌, ◌≢◌, refl, true, none, [], ◌∷◌, Text, strip, lstrip, rstrip, is_blank, is_space,
  if◌then◌else◌, arith,
}
use rag_agent.Rewrite.Mapping.{
  QueryTermMapping, starts_with, find_from, replace_from, apply_mapping, is_idle, insert_mapping,
  ordered_mappings, apply_all, normalize,
}
use rag_agent.Rewrite.Mapping.Expansion.{expand, apply_mapping-expand}
use rag_agent.Rewrite.Mapping.Again.{apply_times, led_by, apply_mapping-again}

program : Unit {0}
unfolding is_space is_blank lstrip rstrip strip starts_with find_from replace_from apply_mapping
    insert_mapping ordered_mappings apply_all normalize
program = tt

-- "b" becomes "ab"
abbrev mapping : QueryTermMapping
mapping = record {
  source_term = 98 ∷ [];
  target_term = 97 ∷ 98 ∷ 32 ∷ [];
  match_type = 1;
  priority = none;
  enabled = true;
}

abbrev words : Text
words = 98 ∷ 120 ∷ 98 ∷ []

apply_mapping-expand_example : apply_mapping words mapping ≡ (
    if is_idle 1 (strip (98 ∷ [])) (strip (97 ∷ 98 ∷ 32 ∷ []))
    then words
    else expand (strip (98 ∷ [])) (strip (97 ∷ 98 ∷ 32 ∷ [])) 0 words)
apply_mapping-expand_example = apply_mapping-expand words mapping

different : ◌≢◌ {A = ℕ} 97 98
different = λ e. omega (arith, e)

apply_mapping-again_example : apply_times 3 mapping words ≡ led_by 97 98 3 words
apply_mapping-again_example =
    apply_mapping-again 97 98 different mapping refl (unfold program in refl)
      (unfold program in refl) 3 words

three_times : led_by 97 98 3 words ≡ 97 ∷ 97 ∷ 97 ∷ 98 ∷ 120 ∷ 97 ∷ 97 ∷ 97 ∷ 98 ∷ []
unfolding led_by
three_times = refl

normalized : normalize (mapping ∷ []) (32 ∷ words) ≡ 97 ∷ 98 ∷ 120 ∷ 97 ∷ 98 ∷ []
unfolding program
normalized = refl
