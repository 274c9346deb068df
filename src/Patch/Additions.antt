-- ===== src/Patch/Additions.antt =====
-- What the additions of a patch make of an object.
use mathlib.Core.Path.{subst}
use noydb.Base.{
  ◌≡◌, ◌∙◌, sym, refl, ap, if◌then◌else◌, ite, Bool-cases, Option, none, some, Option-cases, inl,
  inr, List, [], ◌∷◌, Text, dec_text, arith,
}
use noydb.Json.{Json, Fields, object, end, field, find, with_field}
use noydb.Patch
use noydb.Patch.{
  Op, add, remove, replace, Result, ok, failed, ◌>>=◌, child_path, deep_equal, diff, diff_fields,
  diff_added, compute_patch, apply_op, apply_patch,
}
use noydb.Patch.Same.{
  Same, SameOption, Same-object, object_inversion, absent_same, found-Same, IsPlain, FieldsPlain,
}
use noydb.Patch.Equal.{deep_equal_lem}
use noydb.Patch.Lift.{find-with_field, add_key}

-- What applying a patch to a value makes.
abbrev pub Makes : Json → List Op → Json → Type 0
Makes prev l next = (r : Json) × (apply_patch prev l ≡ ok r) × Same r next

pub replaced : (v w : Json) → Makes v (replace [] w ∷ []) w
unfolding apply_patch apply_op
replaced v w = (w, refl, λ p. refl)

pub unchanged : (c v w : Json) → Same c v → v ≡ w → Makes c [] w
unfolding apply_patch
unchanged c v w s e = (c, refl, λ p. s p ∙ ap (Patch.Same.observe p) e)

pub text-Makes :
    (c : Json) (s t : Text) (make : Text → Json)
    → Same c (make s)
    → Makes c (ite (dec_text s t) [] (replace [] (make t) ∷ [])) (make t)
text-Makes c s t make same =
    elim (dec_text s t) as (λ d. Makes c (ite d [] (replace [] (make t) ∷ [])) (make t)) [
      | yes e ↦ unchanged c (make s) (make t) same (ap make e)
      | no d ↦ replaced c (make t)
    ]

pub equal-Makes :
    (c v w : Json)
    → Same c v
    → IsPlain v
    → IsPlain w
    → Makes c (if deep_equal v w then [] else replace [] w ∷ []) w
unfolding apply_patch
equal-Makes c v w s p q = elim (Bool-cases (deep_equal v w)) [
  | inl t ↦ rw t (c, refl, λ z. s z ∙ deep_equal_lem v w p q t z)
  | inr f ↦ rw f (replaced c w)
]

-- What the additions make of a field.
abbrev pub added_value : Option Json → Option Json → Option Json → Option Json
added_value (some x) w cur = cur
added_value none none cur = cur
added_value none (some w) cur = some w

-- The additions, from any object on.
abbrev Added : Fields → Fields → Fields → List Op → Type 0
Added prev gs cur l =
    (res : Fields) × (apply_patch (object cur) l ≡ ok (object res))
    × ((k : Text) → find k res ≡ added_value (find k prev) (find k gs) (find k cur))

Added-here :
    (prev gs cur : Fields) (k : Text) (w : Json) (l : List Op)
    → find k prev ≡ none
    → find k gs ≡ none
    → Added prev gs (with_field k w cur) l
    → Added prev (field k w gs) cur (add (child_path [] k) w ∷ l)
unfolding apply_patch find
Added-here prev gs cur k w l e absent (res, ran, has) = (
  res,
  ap (λ o. o >>= λ d. apply_patch d l) (add_key k w cur) ∙ ran,
  λ j. has j ∙ ground (arith, e, absent, find-with_field j k w cur),
)

Added-elsewhere :
    (prev gs cur : Fields) (k : Text) (w x : Json) (l : List Op)
    → find k prev ≡ some x
    → Added prev gs cur l
    → Added prev (field k w gs) cur l
unfolding find
Added-elsewhere prev gs cur k w x l e (res, ran, has) = (res, ran, λ j. has j ∙ ground (arith, e))

pub added_lem : (prev gs cur : Fields) → FieldsPlain gs → Added prev gs cur (diff_added [] prev gs)
unfolding diff_added apply_patch find
added_lem prev end cur u = (
  cur,
  refl,
  λ k. elim (find k prev) as (λ o. find k cur ≡ added_value o none (find k cur)) [
    | none ↦ refl
    | some x ↦ refl
  ],
)
added_lem prev (field k w gs) cur u = elim (Option-cases (find k prev)) [
  | inl e ↦
      subst
        (λ o. Added prev (field k w gs) cur (elim o [
          | none ↦ add (child_path [] k) w ∷ diff_added [] prev gs
          | some _ ↦ diff_added [] prev gs
        ]))
        (sym e)
        (Added-here prev gs cur k w (diff_added [] prev gs) e u.0
          (added_lem prev gs (with_field k w cur) u.2))
  | inr (x, e) ↦
      subst
        (λ o. Added prev (field k w gs) cur (elim o [
          | none ↦ add (child_path [] k) w ∷ diff_added [] prev gs
          | some _ ↦ diff_added [] prev gs
        ]))
        (sym e)
        (Added-elsewhere prev gs cur k w x (diff_added [] prev gs) e (added_lem prev gs cur u.2))
]
