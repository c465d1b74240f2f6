-- ===== src/Prelude/Texts.antt =====
-- Texts as lists of bytes, and their equality test.
use Prim.Native.Nat.{ℕ}
use Prim.Native.Char.{code}
use Prim.Native.String.{String}
use mathlib.Core.Path.{◌≡◌, ◌∙◌, refl, ap, sym}
use mathlib.Core.Logic.{◌≢◌, inl, inr}
use mathlib.Core.Bool.{Bool, true, false, ◌&&◌}
use mathlib.Core.List.{List, [], ◌∷◌, ◌++◌}
use native.Mathlib.Omega.{arith}
use mercurial_magic.Prelude.Tests.{◌==◌, Bool-cases}

abbrev pub Text : Type 0
Text = List ℕ

abbrev pub codes : String → Text
codes String.[] = []
codes (String.◌∷◌ c s) = code c ∷ codes s

abbrev pub text_eq : Text → Text → Bool
text_eq [] [] = true
text_eq [] (y ∷ ys) = false
text_eq (x ∷ xs) [] = false
text_eq (x ∷ xs) (y ∷ ys) = x == y && text_eq xs ys

pub text_eq_refl : (xs : Text) → text_eq xs xs ≡ true
text_eq_refl [] = refl
text_eq_refl (x ∷ xs) = ground (arith, text_eq_refl xs)

pub text_eq→eq : (xs ys : Text) → text_eq xs ys ≡ true → xs ≡ ys
text_eq→eq [] [] h = refl
text_eq→eq [] (y ∷ ys) h = cc
text_eq→eq (x ∷ xs) [] h = cc
text_eq→eq (x ∷ xs) (y ∷ ys) h = ground (arith, text_eq→eq xs ys)

pub text_eq-ne : (xs ys : Text) → text_eq xs ys ≡ false → xs ≢ ys
text_eq-ne xs ys h e =
    let same : text_eq xs ys ≡ true = ap (text_eq xs) (sym e) ∙ text_eq_refl xs in cc

pub ne→text_eq : (xs ys : Text) → xs ≢ ys → text_eq xs ys ≡ false
ne→text_eq xs ys h = elim (Bool-cases (text_eq xs ys)) [
  | inl same ↦ absurd (h (text_eq→eq xs ys same))
  | inr differ ↦ differ
]

-- `append` of a string with several arguments, and under a condition.
abbrev pub join : List Text → Text
join [] = []
join (text ∷ texts) = text ++ join texts

abbrev pub when : Bool → Text → Text
when true text = text
when false text = []
