-- ===== src/Chunking/Service.antt =====
-- `ChunkingService.chunk` of app/core/chunk/service.py, with `_make_chunk` and `_metadata`, and the budget
-- and the chunk of app/core/chunk/models.py. An absent value of the metadata is `none`.
pub mod Bounds
pub mod Order
use rag_agent.Prelude.{
  ℕ, suc, ◌+◌, ◌-◌, min, max, Bool, true, false, ◌&&◌, Option, none, some, List, [], ◌∷◌, ◌++◌, map,
  length, take, ◌==◌, ltb, Text, strip, if◌then◌else◌,
}
use rag_agent.Chunking.Split.{split_text}
use rag_agent.Chunking.Blocks.{
  Provenance, Block, heading, paragraph, table, code, items, join_with, render_block, provenance,
}

pub record ChunkBudget : Type 0 where
  pub max_chars : Option ℕ
  pub overlap_chars : ℕ

pub record Chunk : Type 0 where
  pub content : Text
  pub embedding_text : Text
  pub chunk_index : ℕ
  pub outline_path : List Text
  pub metadata : Provenance

-- `(path, metadata, texts)`
pub record Section : Type 0 where
  pub path : List Text
  pub metadata : Provenance
  pub texts : List Text

-- the sections so far; `current`, if there is one, is the last of them
pub record Sections : Type 0 where
  pub outline : List Text
  pub closed : List Section
  pub current : Option Section

abbrev pub text_eq : Text → Text → Bool
text_eq [] [] = true
text_eq [] (d ∷ t) = false
text_eq (c ∷ s) [] = false
text_eq (c ∷ s) (d ∷ t) = (c == d) && text_eq s t

abbrev pub path_eq : List Text → List Text → Bool
path_eq [] [] = true
path_eq [] (t ∷ ts) = false
path_eq (s ∷ ss) [] = false
path_eq (s ∷ ss) (t ∷ ts) = text_eq s t && path_eq ss ts

abbrev pub option_eq : Option Text → Option Text → Bool
option_eq none none = true
option_eq none (some t) = false
option_eq (some s) none = false
option_eq (some s) (some t) = text_eq s t

abbrev pub metadata_eq : Provenance → Provenance → Bool
metadata_eq p q = option_eq p.source_file q.source_file && option_eq p.sheet_name q.sheet_name

abbrev pub option_list : Option Section → List Section
option_list none = []
option_list (some s) = s ∷ []

abbrev pub all_sections : Sections → List Section
all_sections s = s.closed ++ option_list s.current

-- `outline[level - 1 :] = [text.strip()]` and `current = None`
unfoldable pub add_heading : ℕ → Text → Sections → Sections
add_heading level text s = record {
  outline = take (min 6 (max 1 level) - 1) s.outline ++ strip text ∷ [];
  closed = all_sections s;
  current = none;
}

abbrev pub new_section : List Text → Provenance → Text → Section
new_section path metadata text = record { path = path; metadata = metadata; texts = text ∷ [] }

-- a text goes to the current section, if that has its path and its metadata, or to a new one
unfoldable pub put_text : Provenance → Text → Sections → Sections
put_text metadata text s = elim s.current [
  | none ↦ record s { current = some (new_section s.outline metadata text) }
  | some c ↦
      if path_eq c.path s.outline && metadata_eq c.metadata metadata
      then record s { current = some (record c { texts = c.texts ++ text ∷ [] }) }
      else record s {
        closed = s.closed ++ c ∷ [];
        current = some (new_section s.outline metadata text);
      }
]

-- `if not text: continue`
abbrev pub put_rendered : Provenance → Text → Sections → Sections
put_rendered metadata [] s = s
put_rendered metadata (c ∷ text) s = put_text metadata (c ∷ text) s

unfoldable pub add_block : Block → Sections → Sections
add_block (heading level text p) s = add_heading level text s
add_block (paragraph text p) s = put_rendered p (strip (render_block (paragraph text p))) s
add_block (table headers rows p) s = put_rendered p (strip (render_block (table headers rows p))) s
add_block (code text language p) s = put_rendered p (strip (render_block (code text language p))) s
add_block (items texts ordered p) s =
    put_rendered p (strip (render_block (items texts ordered p))) s

unfoldable pub add_blocks : List Block → Sections → Sections
add_blocks [] s = s
add_blocks (b ∷ bs) s = add_blocks bs (add_block b s)

abbrev pub sections_of : List Block → List Section
sections_of blocks =
    all_sections (add_blocks blocks (record { outline = []; closed = []; current = none }))

-- the items that are not empty
unfoldable pub non_empty : List Text → List Text
non_empty [] = []
non_empty ([] ∷ ts) = non_empty ts
non_empty ((c ∷ t) ∷ ts) = (c ∷ t) ∷ non_empty ts

abbrev pub with_prefix : Text → Text → Text
with_prefix [] content = content
with_prefix (c ∷ prefix) content = (c ∷ prefix) ++ 10 ∷ content

unfoldable pub make_chunk : Text → ℕ → List Text → Provenance → Chunk
make_chunk content index outline metadata = record {
  content = content;
  embedding_text = with_prefix (join_with (32 ∷ 62 ∷ 32 ∷ []) (non_empty outline)) content;
  chunk_index = index;
  outline_path = outline;
  metadata = metadata;
}

-- the chunks, and the buffer of the section that is packed
pub record Packing : Type 0 where
  pub buffer : Text
  pub chunks : List Chunk

abbrev pub append_chunk : Section → Text → List Chunk → List Chunk
append_chunk s content chunks = chunks ++ make_chunk content (length chunks) s.path s.metadata ∷ []

unfoldable pub append_parts : Section → List Text → List Chunk → List Chunk
append_parts s [] chunks = chunks
append_parts s (part ∷ parts) chunks = append_parts s parts (append_chunk s part chunks)

-- `if buffer:` its chunk, and an empty buffer
abbrev pub flush_buffer : Section → Text → List Chunk → Packing
flush_buffer s [] chunks = record { buffer = []; chunks = chunks }
flush_buffer s (c ∷ buffer) chunks = record {
  buffer = [];
  chunks = append_chunk s (c ∷ buffer) chunks;
}

abbrev pub flush : Section → Packing → Packing
flush s p = flush_buffer s p.buffer p.chunks

-- `f"{buffer}\n\n{text}" if buffer else text`
abbrev pub extend : Text → Text → Text
extend [] text = text
extend (c ∷ buffer) text = (c ∷ buffer) ++ 10 ∷ 10 ∷ text

abbrev pub extend_buffer : Text → Packing → Packing
extend_buffer text p = record p { buffer = extend p.buffer text }

-- `if buffer and len(buffer) + 2 + len(text) > max_chars`; an empty buffer is flushed to no effect
abbrev pub flush_full : ℕ → Section → Text → Packing → Packing
flush_full max_chars s text p =
    if ltb max_chars (length p.buffer + 2 + length text) then flush s p else p

unfoldable pub pack_text : ℕ → ℕ → Section → Text → Packing → Packing
pack_text max_chars overlap s text p =
    if ltb max_chars (length text)
    then record {
      buffer = [];
      chunks = append_parts s (split_text text max_chars overlap) (flush s p).chunks;
    }
    else extend_buffer text (flush_full max_chars s text p)

unfoldable pub pack_texts : ℕ → ℕ → Section → List Text → Packing → Packing
pack_texts max_chars overlap s [] p = p
pack_texts max_chars overlap s (t ∷ ts) p =
    pack_texts max_chars overlap s ts (pack_text max_chars overlap s t p)

unfoldable pub pack_sections : ℕ → ℕ → List Section → List Chunk → List Chunk
pack_sections max_chars overlap [] chunks = chunks
pack_sections max_chars overlap (s ∷ ss) chunks =
    pack_sections max_chars overlap ss
      (flush s
        (pack_texts max_chars overlap s s.texts (record { buffer = []; chunks = chunks }))).chunks

unfoldable pub all_texts : List Section → List Text
all_texts [] = []
all_texts (s ∷ ss) = s.texts ++ all_texts ss

-- `[]` for an empty content, or one chunk with the path and the metadata of the first section
abbrev pub one_chunk : Text → List Section → List Chunk
one_chunk [] ss = []
one_chunk (c ∷ content) [] =
    make_chunk (c ∷ content) 0 [] (record { source_file = none; sheet_name = none }) ∷ []
one_chunk (c ∷ content) (s ∷ ss) = make_chunk (c ∷ content) 0 s.path s.metadata ∷ []

unfoldable pub chunk : List Block → ChunkBudget → List Chunk
chunk blocks budget = elim budget.max_chars [
  | none ↦
      one_chunk (join_with (10 ∷ 10 ∷ []) (all_texts (sections_of blocks))) (sections_of blocks)
  | some max_chars ↦ pack_sections max_chars budget.overlap_chars (sections_of blocks) []
]
