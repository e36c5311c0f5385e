-- ===== src/Rewrite/Mapping/Pieces.antt =====
-- Parts of a text by their places.
use rag_agent.Prelude.{
  ℕ, zero, suc, ◌+◌, ◌-◌, ◌≤◌, ◌≡◌, refl, ap, sym, ◌∙◌, true, [], ◌∷◌, ◌++◌, length, take, drop,
  Text, arith,
}
use rag_agent.Rewrite.Mapping.{starts_with}

pub drop_eq : (n m : ℕ) (text : Text) → n ≡ m → drop n text ≡ drop m text
drop_eq n m text e = ap (λ k. drop k text) e

pub take_eq : (n m : ℕ) (text : Text) → n ≡ m → take n text ≡ take m text
take_eq n m text e = ap (λ k. take k text) e

pub drop_one : (n c : ℕ) (text : Text) → 1 ≤ n → drop n (c ∷ text) ≡ drop (n - 1) text
drop_one zero c text h = absurd (omega arith)
drop_one (suc n) c text h = drop_eq (n) (suc n - 1) text (omega arith)

pub drop-append : (pre suf : Text) (n : ℕ) → drop (length pre + n) (pre ++ suf) ≡ drop n suf
drop-append [] suf n = drop_eq (0 + n) (n) suf (omega arith)
drop-append (c ∷ pre) suf n =
    drop_eq (suc (length pre) + n) (suc (length pre + n)) (c ∷ (pre ++ suf)) (omega arith)
    ∙ drop-append pre suf n

pub take-append : (pre suf : Text) (n : ℕ) → take (length pre + n) (pre ++ suf) ≡ pre ++ take n suf
take-append [] suf n = take_eq (0 + n) (n) suf (omega arith)
take-append (c ∷ pre) suf n =
    take_eq (suc (length pre) + n) (suc (length pre + n)) (c ∷ (pre ++ suf)) (omega arith)
    ∙ ap (◌∷◌ c) (take-append pre suf n)

drop_nil : (n : ℕ) → drop {A = ℕ} n [] ≡ []
drop_nil zero = refl
drop_nil (suc n) = refl

pub drop-drop : (n m : ℕ) (text : Text) → drop (n + m) text ≡ drop m (drop n text)
drop-drop zero m text = drop_eq (0 + m) (m) text (omega arith)
drop-drop (suc n) m [] = drop_nil (suc n + m) ∙ sym (drop_nil m)
drop-drop (suc n) m (c ∷ text) =
    drop_eq (suc n + m) (suc (n + m)) (c ∷ text) (omega arith) ∙ drop-drop n m text

-- a text that begins with another is it and the rest
pub starts_with-append : (s t : Text) → starts_with s t ≡ true → s ++ drop (length s) t ≡ t
unfolding starts_with
starts_with-append [] t h = refl
starts_with-append (p ∷ s) [] h = absurd (cc)
starts_with-append (p ∷ s) (c ∷ t) h =
    let e : p ≡ c = ground arith in
    ap (λ x. x ∷ (s ++ drop (length s) t)) e ∙ ap (◌∷◌ c) (starts_with-append s t (ground arith))
