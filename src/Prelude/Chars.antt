-- ===== src/Prelude/Chars.antt =====
-- Texts as lists of code points, with Python's `isspace` and `strip`.
use mathlib.Core.Path.{◌≡◌, refl}
use Prim.Native.Nat.{ℕ, ◌≤◌}
use mathlib.Core.Bool.{Bool, true, false, ◌&&◌, ◌||◌}
use mathlib.Core.List.{List, [], ◌∷◌}
use native.Mathlib.Omega.{arith}
use rag_agent.Prelude.Tests.{leb, ◌==◌, if◌then◌else◌, Bool-cases}
use mathlib.Core.Logic.{inl, inr}
use rag_agent.Prelude.Lists.{length}

abbrev pub Text : Type 0
Text = List ℕ

-- the code points of which `str.isspace` holds
unfoldable pub is_space : ℕ → Bool
is_space c =
    (leb 9 c && leb c 13)
    || (leb 28 c && leb c 32)
    || (c == 133)
    || (c == 160)
    || (c == 5760)
    || (leb 8192 c && leb c 8202)
    || (c == 8232)
    || (c == 8233)
    || (c == 8239)
    || (c == 8287)
    || (c == 12288)

-- `not text.strip()`
unfoldable pub is_blank : Text → Bool
is_blank [] = true
is_blank (c ∷ s) = is_space c && is_blank s

unfoldable pub lstrip : Text → Text
lstrip [] = []
lstrip (c ∷ s) = let rest = lstrip s in if is_space c then rest else c ∷ s

unfoldable pub rstrip : Text → Text
rstrip [] = []
rstrip (c ∷ s) =
    let blank = is_blank (c ∷ s) in let rest = rstrip s in if blank then [] else c ∷ rest

unfoldable pub strip : Text → Text
strip s = rstrip (lstrip s)

pub length-lstrip : (s : Text) → length (lstrip s) ≤ length s
unfolding lstrip
length-lstrip [] = omega arith
length-lstrip (c ∷ s) = ground (arith, length-lstrip s)

pub length-rstrip : (s : Text) → length (rstrip s) ≤ length s
unfolding rstrip
length-rstrip [] = omega arith
length-rstrip (c ∷ s) = ground (arith, length-rstrip s)

pub length-strip : (s : Text) → length (strip s) ≤ length s
unfolding strip
length-strip s = omega (arith, length-rstrip (lstrip s), length-lstrip s)

is_blank-rstrip : (s : Text) → is_blank (rstrip s) ≡ is_blank s
unfolding is_blank rstrip
is_blank-rstrip [] = refl
is_blank-rstrip (c ∷ s) = ground (arith, is_blank-rstrip s)

rstrip-rstrip : (s : Text) → rstrip (rstrip s) ≡ rstrip s
unfolding is_blank rstrip
rstrip-rstrip [] = refl
rstrip-rstrip (c ∷ s) = ground (arith, rstrip-rstrip s, is_blank-rstrip s)

rstrip_head : (c : ℕ) (s : Text) → is_space c ≡ false → rstrip (c ∷ s) ≡ c ∷ rstrip s
unfolding is_blank rstrip
rstrip_head c s h = rw h refl

lstrip_head : (c : ℕ) (s : Text) → is_space c ≡ false → lstrip (c ∷ s) ≡ c ∷ s
unfolding lstrip
lstrip_head c s h = rw h refl

strip_head : (c : ℕ) (s : Text) → is_space c ≡ false → strip (rstrip (c ∷ s)) ≡ rstrip (c ∷ s)
unfolding strip
strip_head c s h =
    rw (rstrip_head c s h, lstrip_head c (rstrip s) h, rstrip_head c (rstrip s) h, rstrip-rstrip s)
      refl

strip-rstrip-lstrip : (s : Text) → strip (rstrip (lstrip s)) ≡ rstrip (lstrip s)
unfolding lstrip
strip-rstrip-lstrip [] = unfold strip lstrip rstrip in refl
strip-rstrip-lstrip (c ∷ s) = elim (Bool-cases (is_space c)) [
  | inl h ↦ rw h (strip-rstrip-lstrip s)
  | inr h ↦ rw h (strip_head c s h)
]

pub strip-strip : (s : Text) → strip (strip s) ≡ strip s
strip-strip s = unfold strip in strip-rstrip-lstrip s
