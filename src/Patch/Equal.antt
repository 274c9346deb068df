-- ===== src/Patch/Equal.antt =====
-- `deepEqual`: values that it finds equal are the same.
use mathlib.Core.Path.{subst}
use noydb.Base.{
  ℕ, zero, suc, ◌≡◌, ◌∙◌, refl, ap, ◌==◌, ◌&&◌, if◌then◌else◌, ite, Bool, true, false, Option, none,
  some, Option-cases, inl, inr, ==_iff, [], ◌∷◌, Text, dec_text, arith,
}
use noydb.Json.{
  Json, Items, Fields, null, bool, number, string, array, object, nil, item, end, field, find,
  count, without_field, nth, size,
}
use noydb.Patch.{deep_equal, items_equal, fields_equal}
use noydb.Patch.Same.{
  observe, Same, SameOption, part_same, Same-object, IsPlain, ItemsPlain, FieldsPlain, list, key,
  index,
}

pub find-without_field :
    (k j : Text) (fs : Fields) → find k (without_field j fs) ≡ ite (dec_text k j) none (find k fs)
unfolding find without_field
find-without_field k j end = ground arith
find-without_field k j (field i v fs) = ground (arith, find-without_field k j fs)

without_field_absent : (k : Text) (fs : Fields) → find k fs ≡ none → without_field k fs ≡ fs
unfolding find without_field
without_field_absent k end h = refl
without_field_absent k (field j v fs) h = ground (arith, without_field_absent k fs)

count-without_field :
    (k : Text) (v : Json) (fs : Fields)
    → FieldsPlain fs
    → find k fs ≡ some v
    → count fs ≡ suc (count (without_field k fs))
unfolding find without_field count
count-without_field k v end u h = absurd (ground (arith, h))
count-without_field k v (field j w fs) u h =
    ground (arith, count-without_field k v fs u.2, without_field_absent k fs, u.0)

FieldsPlain-without_field :
    (k : Text) (fs : Fields) → FieldsPlain fs → FieldsPlain (without_field k fs)
unfolding without_field
FieldsPlain-without_field k end u = tt
FieldsPlain-without_field k (field j w fs) u =
    let rest = FieldsPlain-without_field k fs u.2 in
    elim (dec_text k j)
      as (λ d. FieldsPlain (ite d (without_field k fs) (field j w (without_field k fs)))) [
        | yes e ↦ rest
        | no d ↦ (ground (arith, find-without_field j k fs, u.0), u.1, rest)
      ]

-- As many keys, and each key of the first object in the second: then they have the same keys.
same_keys :
    (fs gs : Fields)
    → FieldsPlain fs
    → FieldsPlain gs
    → count fs ≡ count gs
    → ((k : Text) → find k gs ≡ none → find k fs ≡ none)
    → (k : Text) → find k fs ≡ none
    → find k gs ≡ none
unfolding count find
same_keys end end u w n h k e = refl
same_keys end (field j v gs) u w n h k e = absurd (omega (arith, n))
same_keys (field j v fs) gs u w n h k e = elim (Option-cases (find j gs)) [
  | inl missing ↦ absurd (ground (arith, h j missing))
  | inr (x, found) ↦
      let rest =
        same_keys fs (without_field j gs) u.2 (FieldsPlain-without_field j gs w)
          (ground (arith, n, count-without_field j x gs w found))
          (λ i e'. kept i (find-without_field i j gs) (h i) e') in
      ground (arith, e, rest k, find-without_field k j gs)
]
  where
    kept :
        (i : Text)
        → find i (without_field j gs) ≡ ite (dec_text i j) none (find i gs)
        → (find i gs ≡ none → find i (field j v fs) ≡ none)
        → find i (without_field j gs) ≡ none
        → find i fs ≡ none
    kept i f g e' = elim (dec_text i j) [
      | yes same ↦ ground (arith, u.0)
      | no differ ↦ ground (arith, f, g, e')
    ]

text_eq : (s t : Text) → ite (dec_text s t) true false ≡ true → s ≡ t
text_eq s t h =
    elim (dec_text s t) as (λ d. ite d true false ≡ true → s ≡ t) [
      | yes e ↦ λ k. e
      | no d ↦ λ k. cc
    ]
      h

and_both : (a b : Bool) → (a && b) ≡ true → (a ≡ true) × (b ≡ true)
and_both true true h = (refl, refl)
and_both true false h = cc
and_both false b h = cc

if_both : (a b : Bool) → (if a then b else false) ≡ true → (a ≡ true) × (b ≡ true)
if_both true b h = (refl, h)
if_both false b h = cc

field_step :
    (w : Json) (fs gs : Fields) (o : Option Json)
    → (elim o [ none ↦ false | some x ↦ deep_equal w x && fields_equal fs gs ]) ≡ true
    → (x : Json) × (o ≡ some x) × (deep_equal w x ≡ true) × (fields_equal fs gs ≡ true)
field_step w fs gs none h = absurd (ground (arith, h))
field_step w fs gs (some x) h =
    let (e, f) = and_both (deep_equal w x) (fields_equal fs gs) h in (x, refl, e, f)

pub find-IsPlain :
    (k : Text) (fs : Fields) (v : Json) → FieldsPlain fs → find k fs ≡ some v → IsPlain v
unfolding find
find-IsPlain k end v u h = absurd (ground (arith, h))
find-IsPlain k (field j w fs) v u h =
    elim (dec_text k j) as (λ d. ite d (some w) (find k fs) ≡ some v → IsPlain v) [
      | yes e ↦ λ g. let same : w ≡ v = cc in subst IsPlain same u.1
      | no d ↦ λ g. find-IsPlain k fs v u.2 g
    ]
      h

Same-array :
    (xs ys : Items)
    → size xs ≡ size ys
    → ((n : ℕ) → SameOption (nth n xs) (nth n ys))
    → Same (array xs) (array ys)
unfolding observe
Same-array xs ys e h [] = ap (λ n. some (list n)) e
Same-array xs ys e h (key k ∷ p) = refl
Same-array xs ys e h (index n ∷ p) = part_same p (nth n xs) (nth n ys) (h n)

object_same :
    (fs gs : Fields)
    → FieldsPlain fs
    → FieldsPlain gs
    → count fs ≡ count gs
    → ((k : Text) (v : Json) → find k fs ≡ some v → SameOption (some v) (find k gs))
    → (k : Text) → SameOption (find k fs) (find k gs)
object_same fs gs u w n h k = elim (Option-cases (find k fs)) [
  | inl missing ↦
      let gone = same_keys fs gs u w n (λ j e. absent j e (find j fs) refl) k missing in
      rw (missing, gone) tt
  | inr (v, found) ↦ rw found (h k v found)
]
  where
    absent : (j : Text) → find j gs ≡ none → (o : Option Json) → find j fs ≡ o → find j fs ≡ none
    absent j e none f = f
    absent j e (some v) f = absurd (subst (SameOption (some v)) e (h j v f))

mutual
  unfolding deep_equal find nth size observe

  pub deep_equal_lem : (a b : Json) → IsPlain a → IsPlain b → deep_equal a b ≡ true → Same a b
  deep_equal_lem null null p q h = λ s. refl
  deep_equal_lem (bool true) (bool true) p q h = λ s. refl
  deep_equal_lem (bool false) (bool false) p q h = λ s. refl
  deep_equal_lem (number s) (number t) p q h =
      let e = text_eq s t h in λ s. ap (λ z. observe s (number z)) e
  deep_equal_lem (string s) (string t) p q h =
      let e = text_eq s t h in λ s. ap (λ z. observe s (string z)) e
  deep_equal_lem (array xs) (array ys) p q h =
      let (e, f) = if_both (size xs == size ys) (items_equal xs ys) h in
      let n : size xs ≡ size ys = (==_iff (size xs) (size ys)).0 e in
      Same-array xs ys n (items_equal_lem xs ys p q n f)
  deep_equal_lem (object fs) (object gs) p q h =
      let (e, f) = if_both (count fs == count gs) (fields_equal fs gs) h in
      Same-object fs gs
        (object_same fs gs p q ((==_iff (count fs) (count gs)).0 e) (fields_equal_lem fs gs p q f))
  deep_equal_lem _ _ p q h = λ s. cc

  items_equal_lem :
      (xs ys : Items)
      → ItemsPlain xs
      → ItemsPlain ys
      → size xs ≡ size ys
      → items_equal xs ys ≡ true
      → (n : ℕ) → SameOption (nth n xs) (nth n ys)
  items_equal_lem nil nil p q e h n = tt
  items_equal_lem nil (item y ys) p q e h n = absurd (omega (arith, e))
  items_equal_lem (item x xs) nil p q e h n = absurd (omega (arith, e))
  items_equal_lem (item x xs) (item y ys) p q e h zero =
      deep_equal_lem x y p.0 q.0 (and_both (deep_equal x y) (items_equal xs ys) h).0
  items_equal_lem (item x xs) (item y ys) p q e h (suc n) =
      items_equal_lem xs ys p.1 q.1 (omega (arith, e))
        (and_both (deep_equal x y) (items_equal xs ys) h).1 n

  fields_equal_lem :
      (fs gs : Fields)
      → FieldsPlain fs
      → FieldsPlain gs
      → fields_equal fs gs ≡ true
      → (k : Text) (v : Json) → find k fs ≡ some v
      → SameOption (some v) (find k gs)
  fields_equal_lem end gs p q h k v f = absurd (ground (arith, f))
  fields_equal_lem (field j w fs) gs p q h k v f =
      let (x, found, e, rest) = field_step w fs gs (find j gs) h in
      elim (dec_text k j)
          as (λ d. ite d (some w) (find k fs) ≡ some v → SameOption (some v) (find k gs)) [
            | yes same ↦ λ g.
                let head = deep_equal_lem w x p.1 (find-IsPlain j gs x q found) e in
                let there : find k gs ≡ some x = ap (λ i. find i gs) same ∙ found in
                let same_v : w ≡ v = cc in rw (there, ← same_v) head
            | no d ↦ λ g. fields_equal_lem fs gs p.2 q rest k v g
          ]
        f
