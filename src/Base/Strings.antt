-- ===== src/Base/Strings.antt =====
-- JavaScript strings: sequences of UTF-16 code units, compared unit by unit.
use Prim.Native.Nat.{ℕ}
use Prim.Native.Char.{code}
use Prim.Native.String.{String}
use mathlib.Core.Path.{◌≡◌, refl}
use mathlib.Core.List.{List, [], ◌∷◌}
use mathlib.Core.Bool.{Bool, true, false}
use native.Mathlib.Decide.{ℕ_discrete}
use native.Mathlib.Omega.{arith}
use noydb.Base.Tests.{ltb, ◌==◌, if◌then◌else◌}

abbrev pub Text : Type 0
Text = List ℕ

-- The units of an ASCII literal.
abbrev pub codes : String → Text
codes String.[] = []
codes (String.◌∷◌ c s) = code c ∷ codes s

-- `===` on strings
unfoldable pub dec_text : Discrete Text
unfolding ℕ_discrete
dec_text [] [] = yes refl
dec_text [] (y ∷ ys) = no (λ p. cc)
dec_text (x ∷ xs) [] = no (λ p. cc)
dec_text (x ∷ xs) (y ∷ ys) = elim (ℕ_discrete x y) [
  | no d ↦ no (λ p. d (cc))
  | yes p ↦ elim (dec_text xs ys) [ yes q ↦ yes (cc) | no d ↦ no (λ r. d (cc)) ]
]

-- `a <= b` on strings
unfoldable pub text_le : Text → Text → Bool
text_le [] ys = true
text_le (x ∷ xs) [] = false
text_le (x ∷ xs) (y ∷ ys) = let rest = text_le xs ys in if x == y then rest else ltb x y

-- `s.startsWith(p)`
unfoldable pub starts_with : Text → Text → Bool
starts_with [] s = true
starts_with (p ∷ ps) [] = false
starts_with (p ∷ ps) (c ∷ s) = let rest = starts_with ps s in if p == c then rest else false

pub text_le_antisym : (a b : Text) → text_le a b ≡ true → text_le b a ≡ true → a ≡ b
unfolding text_le
text_le_antisym [] [] h k = refl
text_le_antisym [] (y ∷ ys) h k = cc
text_le_antisym (x ∷ xs) [] h k = cc
text_le_antisym (x ∷ xs) (y ∷ ys) h k = ground (arith, text_le_antisym xs ys)

pub text_le_total : (a b : Text) → text_le a b ≡ false → text_le b a ≡ true
unfolding text_le
text_le_total [] b h = cc
text_le_total (x ∷ xs) [] h = refl
text_le_total (x ∷ xs) (y ∷ ys) h = ground (arith, text_le_total xs ys)

pub text_le_trans : (a b c : Text) → text_le a b ≡ true → text_le b c ≡ true → text_le a c ≡ true
unfolding text_le
text_le_trans [] b c h k = refl
text_le_trans (x ∷ xs) [] c h k = cc
text_le_trans (x ∷ xs) (y ∷ ys) [] h k = cc
text_le_trans (x ∷ xs) (y ∷ ys) (z ∷ zs) h k = ground (arith, text_le_trans xs ys zs)

-- `ids.sort()` on strings
unfoldable pub sort_into : Text → List Text → List Text
sort_into a [] = a ∷ []
sort_into a (b ∷ l) = if text_le a b then a ∷ b ∷ l else b ∷ sort_into a l

unfoldable pub sort : List Text → List Text
sort [] = []
sort (a ∷ l) = sort_into a (sort l)
