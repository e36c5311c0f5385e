-- ===== src/Chunking/Split.antt =====
-- `split_text` of app/core/chunk/service.py. Texts are lists of code points.
pub mod Windows
use rag_agent.Prelude.{
  ℕ, zero, suc, ◌+◌, ◌-◌, ◌/◌, min, max, Bool, true, false, ◌&&◌, ◌||◌, Option, none, some, List,
  [], ◌∷◌, ◌==◌, ltb, leb, length, take, drop, Text, is_space, strip, if◌then◌else◌,
}

-- `[\n。！？.!?]`
unfoldable pub is_terminator : ℕ → Bool
is_terminator c =
    (c == 10) || (c == 12290) || (c == 65281) || (c == 65311) || (c == 46) || (c == 33) || (c == 63)

-- The end of the last match of `[\n。！？.!?]\s*`, after a part of the text that ends at `position`:
-- `inside` tells whether a match ends there, `best` is the end of the last match so far.
unfoldable pub last_match_end : ℕ → Bool → Option ℕ → Text → Option ℕ
last_match_end position inside best [] = best
last_match_end position inside best (c ∷ text) =
    let hit = is_terminator c || (inside && is_space c) in
    last_match_end (suc position) hit (if hit then some (suc position) else best) text

abbrev pub slice : ℕ → ℕ → Text → Text
slice start end text = take (end - start) (drop start text)

-- `if matches and matches[-1].end() >= max_chars // 2`
abbrev pub cut_at : ℕ → ℕ → ℕ → Option ℕ → ℕ
cut_at max_chars start hard_end none = hard_end
cut_at max_chars start hard_end (some e) = if leb (max_chars / 2) e then start + e else hard_end

-- `end` of the window that begins at `start`
unfoldable pub window_end : ℕ → Text → ℕ → ℕ
window_end max_chars text start =
    let hard_end = min (length text) (start + max_chars) in
    if ltb hard_end (length text)
    then cut_at max_chars start hard_end (last_match_end 0 false none (slice start hard_end text))
    else hard_end

abbrev pub add_part : Text → List Text → List Text
add_part [] parts = parts
add_part (c ∷ part) parts = (c ∷ part) ∷ parts

-- the loop over the windows, on fuel
unfoldable pub split_from : ℕ → ℕ → ℕ → Text → ℕ → List Text
split_from zero max_chars overlap text start = []
split_from (suc fuel) max_chars overlap text start =
    let end = window_end max_chars text start in
    let rest = split_from fuel max_chars overlap text (max (start + 1) (end - overlap)) in
    let more = if leb (length text) end then [] else rest in
    if ltb start (length text) then add_part (strip (slice start end text)) more else []

abbrev pub whole : Text → List Text
whole text = add_part text []

unfoldable pub split_text : Text → ℕ → ℕ → List Text
split_text given max_chars overlap =
    let text = strip given in
    if leb (length text) max_chars
    then whole text
    else split_from (length text) max_chars overlap text 0
