-- ===== src/Chunking/Blocks.antt =====
-- The blocks of app/core/parser/models.py and `render_block` of app/core/chunk/service.py.
use rag_agent.Prelude.{
  ℕ, zero, suc, ◌+◌, ◌/◌, ◌%◌, Bool, Option, none, some, List, [], ◌∷◌, ◌++◌, map, ltb, Text,
  rstrip, if◌then◌else◌,
}

pub record Provenance : Type 0 where
  pub source_file : Option Text
  pub sheet_name : Option Text

pub data Block : Type 0 where
  heading : ℕ → Text → Provenance → Block
  paragraph : Text → Provenance → Block
  table : List Text → List (List Text) → Provenance → Block
  code : Text → Option Text → Provenance → Block
  items : List Text → Bool → Provenance → Block

abbrev pub newline : Text
newline = 10 ∷ []

-- `separator.join(parts)`
unfoldable pub join_with : Text → List Text → Text
join_with separator [] = []
join_with separator (p ∷ []) = p
join_with separator (p ∷ q ∷ ps) = p ++ (separator ++ join_with separator (q ∷ ps))

-- `str(n)`, on fuel
unfoldable pub digits : ℕ → ℕ → Text → Text
digits zero n rest = rest
digits (suc fuel) n rest =
    let more = digits fuel (n / 10) ((48 + n % 10) ∷ rest) in
    if ltb n 10 then (48 + n % 10) ∷ rest else more

abbrev pub decimal : ℕ → Text
decimal n = digits (suc n) n []

-- `"| " + " | ".join(row) + " |"`
abbrev pub render_row : List Text → Text
render_row row = (124 ∷ 32 ∷ []) ++ (join_with (32 ∷ 124 ∷ 32 ∷ []) row ++ (32 ∷ 124 ∷ []))

unfoldable pub render_table : List Text → List (List Text) → Text
render_table headers rows = join_with newline (map render_row (headers ∷ rows))

abbrev pub fence : Text
fence = 96 ∷ 96 ∷ 96 ∷ []

abbrev pub or_empty : Option Text → Text
or_empty none = []
or_empty (some t) = t

-- the items from a number on, each with its bullet
unfoldable pub render_items : Bool → ℕ → List Text → List Text
render_items ordered index [] = []
render_items ordered index (item ∷ rest) =
    (if ordered then decimal (index + 1) ++ (46 ∷ 32 ∷ item) else 45 ∷ 32 ∷ item)
    ∷ render_items ordered (suc index) rest

unfoldable pub render_block : Block → Text
render_block (heading level text p) = []
render_block (paragraph text p) = text
render_block (table headers rows p) = render_table headers rows
render_block (code text language p) =
    fence ++ (or_empty language ++ (newline ++ (rstrip text ++ (newline ++ fence))))
render_block (items texts ordered p) = join_with newline (render_items ordered 0 texts)

abbrev pub provenance : Block → Provenance
provenance (heading level text p) = p
provenance (paragraph text p) = p
provenance (table headers rows p) = p
provenance (code text language p) = p
provenance (items texts ordered p) = p
