-- ===== src/Base/Text.antt =====
-- Texts as lists of code points, and what the program uses of Python's `str`.
use Prim.Native.Nat.{ℕ}
use Prim.Native.Char.{code}
use Prim.Native.String.{String}
use mathlib.Core.Path.{◌≡◌, refl, sym, ap, subst, ◌∙◌}
use mathlib.Core.Logic.{◌↔◌, inl, inr}
use mathlib.Core.Bool.{Bool, true, false, not, ◌&&◌, ◌||◌}
use mathlib.Core.List.{List, [], ◌∷◌, ◌++◌, reverse, reverse-append, reverse-reverse}
use native.Mathlib.Omega.{arith}
use pharma_intel.Base.Tests.{leb, ◌==◌, if◌then◌else◌, Bool-cases}

abbrev pub Text : Type 0
Text = List ℕ

abbrev pub codes : String → Text
codes String.[] = []
codes (String.◌∷◌ c s) = code c ∷ codes s

abbrev pub text_eq : Text → Text → Bool
text_eq [] [] = true
text_eq (x ∷ xs) (y ∷ ys) = (x == y) && text_eq xs ys
text_eq _ _ = false

pub text_eq_iff : (s t : Text) → (text_eq s t ≡ true) ↔ (s ≡ t)
text_eq_iff [] [] = ((λ _. refl), (λ _. refl))
text_eq_iff [] (y ∷ ys) = ground arith
text_eq_iff (x ∷ xs) [] = ground arith
text_eq_iff (x ∷ xs) (y ∷ ys) = ground (arith, text_eq_iff xs ys)

abbrev pub is_empty : Text → Bool
is_empty [] = true
is_empty (c ∷ s) = false

-- `str.isspace` of one character.
abbrev pub is_space : ℕ → Bool
is_space c =
    (leb 9 c && leb c 13)
    || (leb 28 c && leb c 32)
    || (c == 133)
    || (c == 160)
    || (c == 5760)
    || (leb 8192 c && leb c 8202)
    || (c == 8232)
    || (c == 8233)
    || (c == 8239)
    || (c == 8287)
    || (c == 12288)

-- `str.lstrip()`
unfoldable pub lstrip : Text → Text
lstrip [] = []
lstrip (c ∷ s) = let rest = lstrip s in if is_space c then rest else c ∷ s

-- `str.strip()`
unfoldable pub strip : Text → Text
unfolding lstrip
strip s = reverse (lstrip (reverse (lstrip s)))

-- Whether a text begins with whitespace.
abbrev pub space_first : Text → Bool
space_first [] = false
space_first (c ∷ s) = is_space c

-- Whether a text has whitespace at neither end.
abbrev pub is_trimmed : Text → Bool
is_trimmed s = not (space_first s) && not (space_first (reverse s))

space_first-lstrip : (s : Text) → space_first (lstrip s) ≡ false
unfolding lstrip
space_first-lstrip [] = refl
space_first-lstrip (c ∷ s) = elim (Bool-cases (is_space c)) [
  | inl blank ↦ rw blank (space_first-lstrip s)
  | inr other ↦ rw other other
]

lstrip-suffix : (s : Text) → (p : Text) × (s ≡ p ++ lstrip s)
unfolding lstrip
lstrip-suffix [] = ([], refl)
lstrip-suffix (c ∷ s) = elim (Bool-cases (is_space c)) [
  | inl blank ↦ rw blank (let (p, e) = lstrip-suffix s in (c ∷ p, ap (◌∷◌ c) e))
  | inr other ↦ rw other ([], refl)
]

space_first-prefix : (s p : Text) → space_first (s ++ p) ≡ false → space_first s ≡ false
space_first-prefix [] p h = refl
space_first-prefix (c ∷ s) p h = h

-- What `strip` returns has whitespace at neither end.
pub strip-IsTrimmed : (s : Text) → is_trimmed (strip s) ≡ true
unfolding strip
strip-IsTrimmed s =
    let d = lstrip s in
    let e = lstrip (reverse d) in
    let (p, q) = lstrip-suffix (reverse d) in
    let whole : d ≡ reverse e ++ reverse p =
      sym (reverse-reverse d) ∙ ap reverse q ∙ reverse-append p e in
    let front : space_first (reverse e) ≡ false =
      space_first-prefix (reverse e) (reverse p)
        (subst (λ (t : Text). space_first t ≡ false) whole (space_first-lstrip s)) in
    rw (front, reverse-reverse e) (rw (space_first-lstrip (reverse d)) refl)

lstrip-trimmed : (s : Text) → space_first s ≡ false → lstrip s ≡ s
unfolding lstrip
lstrip-trimmed [] h = refl
lstrip-trimmed (c ∷ s) h = rw h refl

-- Trimming twice is trimming once.
pub strip-strip : (s : Text) → strip (strip s) ≡ strip s
unfolding strip
strip-strip s =
    let t = strip s in
    let h = strip-IsTrimmed s in
    let front : space_first t ≡ false = ground (arith, h) in
    let back : space_first (reverse t) ≡ false = ground (arith, h) in
    ap (λ (x : Text). reverse (lstrip (reverse x))) (lstrip-trimmed t front)
    ∙ ap (λ (x : Text). reverse x) (lstrip-trimmed (reverse t) back)
    ∙ reverse-reverse t
