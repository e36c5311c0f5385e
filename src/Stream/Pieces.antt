-- ===== src/Stream/Pieces.antt =====
-- `split_message_chunk` of app/framework/sse.py: a text in pieces of at most so many code points.
use rag_agent.Prelude.{
  ℕ, zero, suc, ◌≤◌, max, ◌≡◌, refl, ap, ◌∙◌, List, [], ◌∷◌, ◌++◌, length, take, drop, length-take,
  length-drop, take-append-drop, arith, All, Text, is_blank, if◌then◌else◌, Bool-cases, inl, inr,
}

-- `[text[start : start + size] for start in range(0, len(text), size)]`, on fuel
unfoldable pub pieces : ℕ → ℕ → Text → List Text
pieces zero size text = []
pieces (suc fuel) size [] = []
pieces (suc fuel) size (c ∷ text) = take size (c ∷ text) ∷ pieces fuel size (drop size (c ∷ text))

unfoldable pub split_message_chunk : Text → ℕ → List Text
split_message_chunk text chunk_size =
    if is_blank text then [] else pieces (length text) (max 1 chunk_size) text

-- `"".join`
unfoldable pub join : List Text → Text
join [] = []
join (p ∷ ps) = p ++ join ps

-- A piece is not empty, and has no more than so many code points.
abbrev pub IsPiece : ℕ → Text → Type 0
IsPiece size p = (1 ≤ length p) × (length p ≤ size)

join-pieces :
    (fuel size : ℕ) (text : Text)
    → 1 ≤ size
    → length text ≤ fuel
    → join (pieces fuel size text) ≡ text
unfolding join pieces
join-pieces zero size [] h k = refl
join-pieces zero size (c ∷ text) h k = absurd (omega arith)
join-pieces (suc fuel) size [] h k = refl
join-pieces (suc fuel) size (c ∷ text) h k =
    ap (λ r. take size (c ∷ text) ++ r)
      (join-pieces fuel size (drop size (c ∷ text)) h (omega (arith, length-drop size (c ∷ text))))
    ∙ take-append-drop size (c ∷ text)

pieces-IsPiece :
    (fuel size : ℕ) (text : Text) → 1 ≤ size → All (IsPiece size) (pieces fuel size text)
unfolding pieces
pieces-IsPiece zero size text h = tt
pieces-IsPiece (suc fuel) size [] h = tt
pieces-IsPiece (suc fuel) size (c ∷ text) h = (
  (omega (arith, length-take size (c ∷ text)), omega (arith, length-take size (c ∷ text))),
  pieces-IsPiece fuel size (drop size (c ∷ text)) h,
)

-- A text that is not blank is split into pieces that are, joined, the text again; a blank one gives
-- none. No piece is empty, or longer than the chunk size, or than one if that is zero.
pub split_message_chunk-join :
    (text : Text) (chunk_size : ℕ)
    → (join (split_message_chunk text chunk_size) ≡ (if is_blank text then [] else text))
      × All (IsPiece (max 1 chunk_size)) (split_message_chunk text chunk_size)
unfolding split_message_chunk
split_message_chunk-join text chunk_size = elim (Bool-cases (is_blank text)) [
  | inl e ↦ rw (e, split_message_chunk) (unfold join in refl, tt)
  | inr e ↦
      rw (e, split_message_chunk)
        (
          join-pieces (length text) (max 1 chunk_size) text (omega arith) (omega arith),
          pieces-IsPiece (length text) (max 1 chunk_size) text (omega arith),
        )
]
