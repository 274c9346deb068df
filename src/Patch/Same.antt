-- ===== src/Patch/Same.antt =====
-- When two JSON values are the same, whatever the order of their keys.
use mathlib.Core.Path.{subst}
use noydb.Base.{ℕ, ◌≡◌, refl, Option, none, some, List, [], ◌∷◌, Text, arith}
use noydb.Json.{
  Json, Items, Fields, null, bool, number, string, array, object, nil, item, end, field, find, nth,
  size,
}

pub data Step : Type 0 where
  key : Text → Step
  index : ℕ → Step

-- What a value is without its parts.
pub data Shape : Type 0 where
  scalar : Json → Shape
  list : ℕ → Shape
  map : Shape

abbrev pub shape : Json → Shape
shape (array xs) = list (size xs)
shape (object fs) = Shape.map
shape v = scalar v

abbrev pub part : Step → Json → Option Json
part (key k) (object fs) = find k fs
part (index n) (array xs) = nth n xs
part s v = none

-- What is seen along a path.
unfoldable pub observe : List Step → Json → Option Shape
unfolding size find nth
observe [] v = some (shape v)
observe (s ∷ p) v = elim (part s v) [ none ↦ none | some w ↦ observe p w ]

-- Two values are the same if the same is seen along every path.
abbrev pub Same : Json → Json → Type 0
Same v w = (p : List Step) → observe p v ≡ observe p w

abbrev pub SameOption : Option Json → Option Json → Type 0
SameOption none none = Unit
SameOption (some v) (some w) = Same v w
SameOption _ _ = ⊥

-- Keys occur once in an object, at every depth.
abbrev mutual
  pub IsPlain : Json → Type 0
  IsPlain (array xs) = ItemsPlain xs
  IsPlain (object fs) = FieldsPlain fs
  IsPlain v = Unit

  pub ItemsPlain : Items → Type 0
  ItemsPlain nil = Unit
  ItemsPlain (item v xs) = IsPlain v × ItemsPlain xs

  pub FieldsPlain : Fields → Type 0
  FieldsPlain end = Unit
  FieldsPlain (field k v fs) = (find k fs ≡ none) × IsPlain v × FieldsPlain fs

pub part_same :
    (p : List Step) (v w : Option Json)
    → SameOption v w
    → (elim v [ none ↦ none | some x ↦ observe p x ])
      ≡ (elim w [ none ↦ none | some x ↦ observe p x ])
part_same p none none s = refl
part_same p (some x) (some y) s = s p
part_same p none (some y) s = absurd s
part_same p (some x) none s = absurd s

pub Same-object :
    (fs gs : Fields)
    → ((k : Text) → SameOption (find k fs) (find k gs))
    → Same (object fs) (object gs)
unfolding observe
Same-object fs gs h [] = refl
Same-object fs gs h (index n ∷ p) = refl
Same-object fs gs h (key k ∷ p) = part_same p (find k fs) (find k gs) (h k)

-- What is the same as an object is an object, with the same fields.
parts_same :
    (o q : Option Json)
    → ((p : List Step)
        → (elim o [ none ↦ none | some x ↦ observe p x ])
          ≡ (elim q [ none ↦ none | some x ↦ observe p x ]))
    → SameOption o q
unfolding observe
parts_same none none h = tt
parts_same (some v) (some w) h = h
parts_same none (some w) h = absurd (ground (arith, h []))
parts_same (some v) none h = absurd (ground (arith, h []))

pub object_inversion :
    (c : Json) (fs : Fields)
    → Same c (object fs)
    → (cs : Fields) × (c ≡ object cs) × ((k : Text) → SameOption (find k cs) (find k fs))
unfolding observe
object_inversion (object cs) fs s =
    (cs, refl, λ k. parts_same (find k cs) (find k fs) (λ p. s (key k ∷ p)))
object_inversion null fs s = absurd (ground (arith, s []))
object_inversion (bool b) fs s = absurd (ground (arith, s []))
object_inversion (number t) fs s = absurd (ground (arith, s []))
object_inversion (string t) fs s = absurd (ground (arith, s []))
object_inversion (array xs) fs s = absurd (ground (arith, s []))

pub absent_same : (o q : Option Json) → SameOption o q → q ≡ none → o ≡ none
absent_same none q s e = refl
absent_same (some v) none s e = absurd s
absent_same (some v) (some w) s e = absurd (ground (arith, e))

pub found-Same :
    (o q : Option Json) (v : Json)
    → SameOption o q
    → q ≡ some v
    → (x : Json) × (o ≡ some x) × Same x v
found-Same (some x) (some w) v s e = let same : w ≡ v = cc in (x, refl, subst (Same x) same s)
found-Same none (some w) v s e = absurd s
found-Same o none v s e = absurd (ground (arith, e))
