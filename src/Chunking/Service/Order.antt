-- ===== src/Chunking/Service/Order.antt =====
-- No text of a block is lost or moved.
use rag_agent.Prelude.{
  ℕ, ◌≡◌, refl, ap, sym, ◌∙◌, ◌&&◌, none, List, [], ◌∷◌, ◌++◌, append_assoc, append-nil, Text,
  strip, Bool-cases, Option-cases, inl, inr,
}
use rag_agent.Chunking.Blocks.{
  Block, heading, paragraph, table, code, items, Provenance, render_block,
}
use rag_agent.Chunking.Service.{
  Section, Sections, path_eq, metadata_eq, all_sections, add_heading, new_section, put_text,
  put_rendered, add_block, add_blocks, sections_of, all_texts,
}

abbrev pub with_text : Text → List Text → List Text
with_text [] ts = ts
with_text (c ∷ t) ts = (c ∷ t) ∷ ts

-- the rendered and stripped texts of the blocks that are no headings, without the empty ones
abbrev pub block_texts : List Block → List Text
block_texts [] = []
block_texts (heading level text p ∷ bs) = block_texts bs
block_texts (paragraph text p ∷ bs) =
    with_text (strip (render_block (paragraph text p))) (block_texts bs)
block_texts (table headers rows p ∷ bs) =
    with_text (strip (render_block (table headers rows p))) (block_texts bs)
block_texts (code text language p ∷ bs) =
    with_text (strip (render_block (code text language p))) (block_texts bs)
block_texts (items texts ordered p ∷ bs) =
    with_text (strip (render_block (items texts ordered p))) (block_texts bs)

abbrev texts : Sections → List Text
texts s = all_texts (all_sections s)

all_texts-append : (a b : List Section) → all_texts (a ++ b) ≡ all_texts a ++ all_texts b
unfolding all_texts
all_texts-append [] b = refl
all_texts-append (s ∷ a) b =
    ap (λ r. s.texts ++ r) (all_texts-append a b)
    ∙ sym (append_assoc s.texts (all_texts a) (all_texts b))

-- one section behind the others
all_texts-snoc : (a : List Section) (s : Section) → all_texts (a ++ s ∷ []) ≡ all_texts a ++ s.texts
unfolding all_texts
all_texts-snoc a s = all_texts-append a (s ∷ []) ∙ ap (λ r. all_texts a ++ r) (append-nil s.texts)

add_heading-texts :
    (level : ℕ) (text : Text) (s : Sections) → texts (add_heading level text s) ≡ texts s
unfolding add_heading
add_heading-texts level text s = ap all_texts (append-nil (all_sections s))

put_text-texts :
    (p : Provenance) (t : Text) (s : Sections) → texts (put_text p t s) ≡ texts s ++ t ∷ []
unfolding put_text
put_text-texts p t s = elim (Option-cases s.current) [
  | inl e ↦
      rw (e, put_text)
        (all_texts-snoc s.closed (new_section s.outline p t)
          ∙ ap (λ r. all_texts r ++ t ∷ []) (sym (append-nil s.closed)))
  | inr (c, e) ↦ elim (Bool-cases (path_eq c.path s.outline && metadata_eq c.metadata p)) [
    | inl q ↦
        rw (e, put_text)
          (rw q (
            all_texts-snoc s.closed (record c { texts = c.texts ++ t ∷ [] })
            ∙ sym (append_assoc (all_texts s.closed) c.texts (t ∷ []))
            ∙ ap (λ r. r ++ t ∷ []) (sym (all_texts-snoc s.closed c))))
    | inr q ↦
        rw (e, put_text) (rw q (all_texts-snoc (s.closed ++ c ∷ []) (new_section s.outline p t)))
  ]
]

put_rendered-texts :
    (p : Provenance) (t : Text) (s : Sections)
    → texts (put_rendered p t s) ≡ texts s ++ with_text t []
put_rendered-texts p [] s = sym (append-nil (texts s))
put_rendered-texts p (c ∷ t) s = put_text-texts p (c ∷ t) s

with_text-append :
    (t : Text) (a : List Text) (ts : List Text) → (a ++ with_text t []) ++ ts ≡ a ++ with_text t ts
with_text-append [] a ts = ap (λ r. r ++ ts) (append-nil a)
with_text-append (c ∷ t) a ts = append_assoc a ((c ∷ t) ∷ []) ts

add_rendered :
    (p : Provenance) (t : Text) (bs : List Block) (s : Sections)
    → ((s' : Sections) → texts (add_blocks bs s') ≡ texts s' ++ block_texts bs)
    → texts (add_blocks bs (put_rendered p (strip t) s))
      ≡ texts s ++ with_text (strip t) (block_texts bs)
add_rendered p t bs s h =
    h (put_rendered p (strip t) s)
    ∙ ap (λ r. r ++ block_texts bs) (put_rendered-texts p (strip t) s)
    ∙ with_text-append (strip t) (texts s) (block_texts bs)

add_blocks-texts :
    (bs : List Block) (s : Sections) → texts (add_blocks bs s) ≡ texts s ++ block_texts bs
unfolding add_blocks add_block
add_blocks-texts [] s = sym (append-nil (texts s))
add_blocks-texts (heading level text p ∷ bs) s =
    add_blocks-texts bs (add_heading level text s)
    ∙ ap (λ r. r ++ block_texts bs) (add_heading-texts level text s)
add_blocks-texts (paragraph text p ∷ bs) s =
    add_rendered p (render_block (paragraph text p)) bs s (add_blocks-texts bs)
add_blocks-texts (table headers rows p ∷ bs) s =
    add_rendered p (render_block (table headers rows p)) bs s (add_blocks-texts bs)
add_blocks-texts (code text language p ∷ bs) s =
    add_rendered p (render_block (code text language p)) bs s (add_blocks-texts bs)
add_blocks-texts (items ts ordered p ∷ bs) s =
    add_rendered p (render_block (items ts ordered p)) bs s (add_blocks-texts bs)

-- The sections hold, in the order of the document, the rendered texts of all blocks that are no headings,
-- stripped and without the empty ones: none is lost, repeated or moved to another place.
pub sections_of-texts : (blocks : List Block) → all_texts (sections_of blocks) ≡ block_texts blocks
unfolding all_texts
sections_of-texts blocks =
    add_blocks-texts blocks (record { outline = []; closed = []; current = none })
