-- ===== src/Chunking/Service/Bounds.antt =====
-- The chunks are numbered from zero, not empty, and within the budget.
use rag_agent.Prelude.{
  ℕ, suc, ◌+◌, ◌≤◌, ◌≡◌, refl, some, List, [], ◌∷◌, ◌++◌, length, length-append, ltb, arith, All,
  Text, Bool-cases, inl, inr,
}
use rag_agent.Chunking.Split.{split_text}
use rag_agent.Chunking.Split.Windows.{IsPart, split_text_lem}
use rag_agent.Chunking.Blocks.{Block}
use rag_agent.Chunking.Service.{
  Chunk, Section, make_chunk, Packing, append_chunk, append_parts, flush_buffer, flush, extend,
  extend_buffer, flush_full, pack_text, pack_texts, pack_sections, sections_of, chunk,
}

-- The indexes are the numbers from `n` on.
abbrev pub IsNumbered : ℕ → List Chunk → Type 0
IsNumbered n [] = Unit
IsNumbered n (c ∷ cs) = (c.chunk_index ≡ n) × IsNumbered (suc n) cs

abbrev pub IsWithin : ℕ → Chunk → Type 0
IsWithin max_chars c = IsPart max_chars c.content

abbrev IsBounded : ℕ → List Chunk → Type 0
IsBounded max_chars cs = IsNumbered 0 cs × All (IsWithin max_chars) cs

append-IsNumbered :
    (n k : ℕ) (cs : List Chunk) (c : Chunk)
    → c.chunk_index ≡ k
    → k ≡ n + length cs
    → IsNumbered n cs
    → IsNumbered n (cs ++ c ∷ [])
append-IsNumbered n k [] c e q h = (omega (arith, e, q), tt)
append-IsNumbered n k (d ∷ cs) c e q h =
    (h.0, append-IsNumbered (suc n) k cs c e (omega (arith, q)) h.1)

append-All :
    (P : Chunk → Type 0) (cs : List Chunk) (c : Chunk) → All P cs → P c → All P (cs ++ c ∷ [])
append-All P [] c h p = (p, tt)
append-All P (d ∷ cs) c h p = (h.0, append-All P cs c h.1 p)

module _ (max_chars overlap : ℕ) (s : Section) where
  append_chunk-IsBounded :
      (content : Text) (cs : List Chunk)
      → IsPart max_chars content
      → IsBounded max_chars cs
      → IsBounded max_chars (append_chunk s content cs)
  unfolding make_chunk
  append_chunk-IsBounded content cs p h =
      let c = make_chunk content (length cs) s.path s.metadata in
      (
        append-IsNumbered 0 (length cs) cs c refl (omega arith) h.0,
        append-All (IsWithin max_chars) cs c h.1 p,
      )

  append_parts-IsBounded :
      (parts : List Text) (cs : List Chunk)
      → All (IsPart max_chars) parts
      → IsBounded max_chars cs
      → IsBounded max_chars (append_parts s parts cs)
  unfolding append_parts
  append_parts-IsBounded [] cs p h = h
  append_parts-IsBounded (part ∷ parts) cs p h =
      append_parts-IsBounded parts (append_chunk s part cs) p.1
        (append_chunk-IsBounded part cs p.0 h)

  -- the buffer is within the budget as well
  abbrev IsPacked : Packing → Type 0
  IsPacked p = (length p.buffer ≤ max_chars) × IsBounded max_chars p.chunks

  flush_buffer-IsPacked :
      (buffer : Text) (cs : List Chunk)
      → length buffer ≤ max_chars
      → IsBounded max_chars cs
      → IsPacked (flush_buffer s buffer cs)
  flush_buffer-IsPacked [] cs p h = (omega arith, h)
  flush_buffer-IsPacked (c ∷ buffer) cs p h =
      (omega arith, append_chunk-IsBounded (c ∷ buffer) cs (omega arith, p) h)

  flush-IsPacked : (p : Packing) → IsPacked p → IsPacked (flush s p)
  flush-IsPacked p h = flush_buffer-IsPacked p.buffer p.chunks h.0 h.1

  length-extend :
      (buffer text : Text) → length (extend buffer text) ≤ length buffer + 2 + length text
  length-extend [] text = omega arith
  length-extend (c ∷ buffer) text = omega (arith, length-append buffer (10 ∷ 10 ∷ text))

  -- a flush leaves an empty buffer
  flush-buffer :
      (buffer : Text) (cs : List Chunk) (text : Text)
      → extend (flush_buffer s buffer cs).buffer text ≡ text
  flush-buffer [] cs text = refl
  flush-buffer (c ∷ buffer) cs text = refl

  extend-IsPacked :
      (text : Text) (p : Packing)
      → length text ≤ max_chars
      → IsPacked p
      → IsPacked (extend_buffer text (flush_full max_chars s text p))
  extend-IsPacked text p t h =
      elim (Bool-cases (ltb max_chars (length p.buffer + 2 + length text))) [
        | inl q ↦ rw q (rw (flush-buffer p.buffer p.chunks text) (t, (flush-IsPacked p h).1))
        | inr q ↦ rw q (ground (arith, length-extend p.buffer text), h.1)
      ]

  pack_text-IsPacked :
      (text : Text) (p : Packing)
      → 1 ≤ max_chars
      → IsPacked p
      → IsPacked (pack_text max_chars overlap s text p)
  unfolding pack_text
  pack_text-IsPacked text p m h = elim (Bool-cases (ltb max_chars (length text))) [
    | inl q ↦
        rw (q, pack_text)
          (
            omega arith,
            append_parts-IsBounded (split_text text max_chars overlap) (flush s p).chunks
                (split_text_lem text max_chars overlap m).1 (flush-IsPacked p h).1,
          )
    | inr q ↦ rw (q, pack_text) (extend-IsPacked text p (ground arith) h)
  ]

  pack_texts-IsPacked :
      (ts : List Text) (p : Packing)
      → 1 ≤ max_chars
      → IsPacked p
      → IsPacked (pack_texts max_chars overlap s ts p)
  unfolding pack_texts
  pack_texts-IsPacked [] p m h = h
  pack_texts-IsPacked (t ∷ ts) p m h =
      pack_texts-IsPacked ts (pack_text max_chars overlap s t p) m (pack_text-IsPacked t p m h)

pack_sections-IsBounded :
    (max_chars overlap : ℕ) (ss : List Section) (cs : List Chunk)
    → 1 ≤ max_chars
    → IsBounded max_chars cs
    → IsBounded max_chars (pack_sections max_chars overlap ss cs)
unfolding pack_sections
pack_sections-IsBounded max_chars overlap [] cs m h = h
pack_sections-IsBounded max_chars overlap (s ∷ ss) cs m h =
    let p = pack_texts max_chars overlap s s.texts (record { buffer = []; chunks = cs }) in
    pack_sections-IsBounded max_chars overlap ss (flush s p).chunks m
      (flush-IsPacked max_chars overlap s p (
        pack_texts-IsPacked max_chars overlap s s.texts (record { buffer = []; chunks = cs }) m
          (omega arith, h))).1

-- With a limit of at least one code point, whatever the blocks and the overlap: the chunks are numbered
-- from zero in their order, and the content of each is not empty and has no more code points than the
-- limit.
pub chunk_lem :
    (blocks : List Block) (max_chars overlap : ℕ)
    → 1 ≤ max_chars
    → IsNumbered 0 (chunk blocks (record { max_chars = some max_chars; overlap_chars = overlap }))
      × All
          (IsWithin max_chars)
          (chunk blocks (record { max_chars = some max_chars; overlap_chars = overlap }))
unfolding chunk
chunk_lem blocks max_chars overlap m =
    pack_sections-IsBounded max_chars overlap (sections_of blocks) [] m (tt, tt)
