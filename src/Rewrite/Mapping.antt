-- ===== src/Rewrite/Mapping.antt =====
-- `QueryTermMappingUtil.apply_mapping` and `QueryTermMappingService.normalize` of
-- app/rag/rewrite/term_mapping.py. Texts are lists of code points, priorities are natural numbers.
pub mod Pieces
pub mod Expansion
pub mod Again
mod Examples
use rag_agent.Prelude.{
  ℕ, zero, suc, ◌+◌, ◌-◌, Bool, true, false, not, ◌&&◌, ◌||◌, Option, none, some, List, [], ◌∷◌,
  ◌++◌, length, take, drop, ◌==◌, ltb, Text, strip, if◌then◌else◌,
}

pub record QueryTermMapping : Type 0 where
  pub source_term : Text
  pub target_term : Text
  pub match_type : ℕ
  pub priority : Option ℕ
  pub enabled : Bool

-- `text.startswith(prefix)`
unfoldable pub starts_with : Text → Text → Bool
starts_with [] text = true
starts_with (p ∷ prefix) [] = false
starts_with (p ∷ prefix) (c ∷ text) = (p == c) && starts_with prefix text

-- `text.find(source)` for a text that begins at `index`; the source is not empty
unfoldable pub find_from : Text → ℕ → Text → Option ℕ
find_from source index [] = none
find_from source index (c ∷ text) =
    let rest = find_from source (suc index) text in
    if starts_with source (c ∷ text) then some index else rest

abbrev pub find : Text → Text → ℕ → Option ℕ
find source result offset = find_from source offset (drop offset result)

-- the loop, on fuel
unfoldable pub replace_from : ℕ → Text → Text → Text → ℕ → Text
replace_from zero source target result offset = result
replace_from (suc fuel) source target result offset = elim (find source result offset) [
  | none ↦ result
  | some index ↦
      if starts_with target (drop index result)
      then replace_from fuel source target result (index + length source)
      else replace_from fuel source target
          (take index result ++ (target ++ drop (index + length source) result))
          (index + length target)
]

abbrev pub is_empty : Text → Bool
is_empty [] = true
is_empty (c ∷ text) = false

abbrev pub same_text : Text → Text → Bool
same_text [] [] = true
same_text [] (d ∷ t) = false
same_text (c ∷ s) [] = false
same_text (c ∷ s) (d ∷ t) = (c == d) && same_text s t

-- the mappings that change nothing
abbrev pub is_idle : ℕ → Text → Text → Bool
is_idle match_type source target =
    not (match_type == 1) || is_empty source || is_empty target || same_text source target

abbrev pub apply_terms : ℕ → Text → Text → Text → Text
apply_terms match_type source target text =
    if is_idle match_type source target
    then text
    else replace_from (suc (length text)) source target text 0

unfoldable pub apply_mapping : Text → QueryTermMapping → Text
apply_mapping text m = apply_terms m.match_type (strip m.source_term) (strip m.target_term) text

abbrev pub has_priority : Option ℕ → ℕ
has_priority none = 0
has_priority (some p) = 1

abbrev pub priority_or_zero : Option ℕ → ℕ
priority_or_zero none = 0
priority_or_zero (some p) = p

-- `(priority is not None, -(priority or 0), -len(source_term))`, compared as tuples are
abbrev pub comes_before : QueryTermMapping → QueryTermMapping → Bool
comes_before a b =
    ltb (has_priority a.priority) (has_priority b.priority)
    || ((has_priority a.priority == has_priority b.priority)
        && (ltb (priority_or_zero b.priority) (priority_or_zero a.priority)
            || ((priority_or_zero b.priority == priority_or_zero a.priority)
                && ltb (length b.source_term) (length a.source_term))))

unfoldable pub insert_mapping : QueryTermMapping → List QueryTermMapping → List QueryTermMapping
insert_mapping m [] = m ∷ []
insert_mapping m (n ∷ ns) =
    let rest = insert_mapping m ns in if comes_before n m then n ∷ rest else m ∷ n ∷ ns

-- `sorted`, which keeps the order of equal keys
unfoldable pub ordered_mappings : List QueryTermMapping → List QueryTermMapping
ordered_mappings [] = []
ordered_mappings (m ∷ ms) = insert_mapping m (ordered_mappings ms)

unfoldable pub apply_all : List QueryTermMapping → Text → Text
apply_all [] text = text
apply_all (m ∷ ms) text = apply_all ms (if m.enabled then apply_mapping text m else text)

unfoldable pub normalize : List QueryTermMapping → Text → Text
normalize mappings question = apply_all (ordered_mappings mappings) (strip question)
