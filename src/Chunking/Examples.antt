-- ===== src/Chunking/Examples.antt =====
-- The theorems on chunking at concrete blocks.
use rag_agent.Prelude.{
  ◌≡◌, refl, true, none, some, List, [], ◌∷◌, All, Text, strip, lstrip, rstrip, is_blank, is_space,
  arith,
}
use rag_agent.Chunking.Split.{is_terminator, last_match_end, window_end, split_from, split_text}
use rag_agent.Chunking.Split.Windows.{Split, IsPart, split_text_lem}
use rag_agent.Chunking.Blocks.{
  Provenance, Block, heading, paragraph, items, join_with, digits, render_items, render_block,
}
use rag_agent.Chunking.Service.{
  add_heading, put_text, add_block, add_blocks, sections_of, all_texts, make_chunk, non_empty,
  append_parts, pack_text, pack_texts, pack_sections, chunk,
}
use rag_agent.Chunking.Service.Bounds.{IsNumbered, IsWithin, chunk_lem}
use rag_agent.Chunking.Service.Order.{block_texts, sections_of-texts}

program : Unit {0}
unfolding is_space is_blank lstrip rstrip strip is_terminator last_match_end window_end split_from
    split_text join_with digits render_items render_block add_heading put_text add_block add_blocks
    all_texts make_chunk non_empty append_parts pack_text pack_texts pack_sections chunk
program = tt

-- "ab.cd", with a blank in front
abbrev words : Text
words = 32 ∷ 97 ∷ 98 ∷ 46 ∷ 99 ∷ 100 ∷ []

-- the second window begins one code point before the end of the first
words_lem : split_text words 4 1 ≡ (97 ∷ 98 ∷ 46 ∷ []) ∷ (46 ∷ 99 ∷ 100 ∷ []) ∷ []
unfolding program
words_lem = refl

split_text_lem_example :
    Split 4 (strip words) 0 (split_text words 4 1) × All (IsPart 4) (split_text words 4 1)
split_text_lem_example = split_text_lem words 4 1 (omega arith)

abbrev origin : Provenance
origin = record { source_file = none; sheet_name = none }

abbrev blocks : List Block
blocks =
    heading 2 (116 ∷ []) origin
    ∷ paragraph (97 ∷ []) origin
    ∷ paragraph words origin
    ∷ items ((98 ∷ []) ∷ (99 ∷ []) ∷ []) true origin
    ∷ []

chunk_lem_example :
    IsNumbered 0 (chunk blocks (record { max_chars = some 4; overlap_chars = 1 }))
    × All (IsWithin 4) (chunk blocks (record { max_chars = some 4; overlap_chars = 1 }))
chunk_lem_example = chunk_lem blocks 4 1 (omega arith)

sections_of-texts_example : all_texts (sections_of blocks) ≡ block_texts blocks
sections_of-texts_example = sections_of-texts blocks

blocks_lem :
    all_texts (sections_of blocks)
    ≡ (97 ∷ [])
      ∷ (97 ∷ 98 ∷ 46 ∷ 99 ∷ 100 ∷ [])
      ∷ (49 ∷ 46 ∷ 32 ∷ 98 ∷ 10 ∷ 50 ∷ 46 ∷ 32 ∷ 99 ∷ [])
      ∷ []
unfolding program
blocks_lem = refl
