-- ===== src/Patch/Lift.antt =====
-- A patch of a field's value, run on the object that holds it.
use mathlib.Core.Path.{subst}
use mathlib.Core.List.{append-nil}
use noydb.Base.{
  ◌≡◌, ◌∙◌, sym, refl, ap, if◌then◌else◌, ite, Bool, true, false, none, some, List, [], ◌∷◌, ◌++◌,
  map, Text, dec_text, All, arith,
}
use noydb.Json.{
  Json, Fields, null, bool, number, string, array, object, end, field, find, with_field,
  without_field,
}
use noydb.Patch
use noydb.Patch.{
  Op, add, remove, replace, path_of, Result, ok, failed, ◌>>=◌, child_path, diff, diff_fields,
  diff_added, apply_op, apply_at, apply_patch, walk_and_apply,
}
use noydb.Patch.Escape.{render}
use noydb.Patch.Paths.{prefix, IsPathed, is_replace, diff-prefix, walk-prefix, apply_at-render}

pub find-with_field :
    (k j : Text) (v : Json) (fs : Fields)
    → find k (with_field j v fs) ≡ ite (dec_text k j) (some v) (find k fs)
unfolding find with_field
find-with_field k j v end = refl
find-with_field k j v (field i w fs) = ground (arith, find-with_field k j v fs)

with_field_same : (k : Text) (v : Json) (fs : Fields) → find k fs ≡ some v → with_field k v fs ≡ fs
unfolding find with_field
with_field_same k v end h = absurd (ground (arith, h))
with_field_same k v (field j w fs) h = ground (arith, with_field_same k v fs)

with_field_twice :
    (k : Text) (v w : Json) (fs : Fields) → with_field k v (with_field k w fs) ≡ with_field k v fs
unfolding with_field
with_field_twice k v w end = ground arith
with_field_twice k v w (field j x fs) = ground (arith, with_field_twice k v w fs)

-- Below a key, a path of segments has the key as its first.
below :
    (k : Text) (l : List Text) (op : Op)
    → path_of op ≡ render l
    → path_of (prefix (child_path [] k) op) ≡ render (k ∷ l)
unfolding render
below k l (add q v) e = ap (λ z. child_path [] k ++ z) e
below k l (remove q) e = ap (λ z. child_path [] k ++ z) e
below k l (replace q v) e = ap (λ z. child_path [] k ++ z) e

key_path : (k : Text) → child_path [] k ≡ render (k ∷ [])
unfolding render
key_path k = ap (◌∷◌ b'/') (sym (append-nil _))

walk_op :
    (doc : Json) (s : Text) (l : List Text) (op : Op)
    → path_of op ≡ render (s ∷ l)
    → apply_op doc op ≡ walk_and_apply doc (s ∷ l) op
unfolding apply_op
walk_op doc s l op e = ap (λ z. apply_at doc z op) e ∙ apply_at-render doc s l op

replace_present :
    (k p : Text) (v w : Json) (fs : Fields)
    → find k fs ≡ some v
    → Patch.apply_field (replace p w) k fs ≡ ok (object (with_field k w fs))
unfolding Patch.apply_field
replace_present k p v w fs f = ground (arith, f)

remove_present :
    (k p : Text) (v : Json) (fs : Fields)
    → find k fs ≡ some v
    → Patch.apply_field (remove p) k fs ≡ ok (object (without_field k fs))
unfolding Patch.apply_field
remove_present k p v fs f = ground (arith, f)

child_present :
    (k : Text) (v : Json) (fs : Fields) → find k fs ≡ some v → Patch.child_of (object fs) k ≡ ok v
unfolding Patch.child_of
child_present k v fs f = ground (arith, f)

walk_key :
    (fs : Fields) (k : Text) (v : Json) (op : Op) (l : List Text)
    → find k fs ≡ some v
    → path_of op ≡ render l
    → (l ≡ [] → is_replace op ≡ true)
    → walk_and_apply (object fs) (k ∷ l) op
      ≡ (apply_op v op >>= λ c. ok (object (with_field k c fs)))
unfolding walk_and_apply render apply_op
walk_key fs k v (replace q w) [] f e r =
    replace_present k q v w fs f
    ∙ sym (ap (λ z. apply_at v z (replace q w) >>= λ c. ok (object (with_field k c fs))) e)
walk_key fs k v (add q w) [] f e r = absurd (ground (arith, r refl))
walk_key fs k v (remove q) [] f e r = absurd (ground (arith, r refl))
walk_key fs k v op (t ∷ l) f e r =
    ap (λ o. o >>= λ c. walk_and_apply c (t ∷ l) op >>= λ d. Patch.with_child (object fs) k d)
      (child_present k v fs f)
    ∙ ap (λ o. o >>= λ c. ok (object (with_field k c fs))) (sym (walk_op v t l op e))

-- One operation.
step_lem :
    (fs : Fields) (k : Text) (v : Json) (op : Op)
    → find k fs ≡ some v
    → IsPathed op
    → apply_op (object fs) (prefix (child_path [] k) op)
      ≡ (apply_op v op >>= λ c. ok (object (with_field k c fs)))
step_lem fs k v op f (l, e, r) =
    walk_op (object fs) k l (prefix (child_path [] k) op) (below k l op e)
    ∙ walk-prefix (child_path [] k) (object fs) (k ∷ l) op
    ∙ walk_key fs k v op l f e r

-- A run of operations below a key is their run on the key's value.
pub lift_lem :
    (fs : Fields) (k : Text) (v r : Json) (l : List Op)
    → find k fs ≡ some v
    → All IsPathed l
    → apply_patch v l ≡ ok r
    → apply_patch (object fs) (map (prefix (child_path [] k)) l) ≡ ok (object (with_field k r fs))
unfolding apply_patch
lift_lem fs k v r [] f a e = ground (arith, e, with_field_same k v fs f)
lift_lem fs k v r (op ∷ l) f (a, rest) e =
    ap (λ o. o >>= λ d. apply_patch d (map (prefix (child_path [] k)) l)) (step_lem fs k v op f a)
    ∙ elim (apply_op v op)
          as (λ o.
            (o >>= λ c. apply_patch c l) ≡ ok r
            → ((o >>= λ c. ok (object (with_field k c fs))) >>= λ d.
                apply_patch d (map (prefix (child_path [] k)) l))
              ≡ ok (object (with_field k r fs))) [
                | failed ↦ λ h. absurd (ground (arith, h))
                | ok c ↦ λ h.
                    lift_lem (with_field k c fs) k c r l (ground (arith, find-with_field k k c fs))
                      rest h
                    ∙ ap (λ z. ok (object z)) (with_field_twice k r c fs)
              ]
        e

pub apply_patch-append :
    (doc : Json) (l m : List Op)
    → apply_patch doc (l ++ m) ≡ (apply_patch doc l >>= λ d. apply_patch d m)
unfolding apply_patch
apply_patch-append doc [] m = refl
apply_patch-append doc (op ∷ l) m =
    elim (apply_op doc op)
      as (λ r.
        (r >>= λ d. apply_patch d (l ++ m))
        ≡ ((r >>= λ d. apply_patch d l) >>= λ d. apply_patch d m)) [
          | failed ↦ refl
          | ok d ↦ apply_patch-append d l m
        ]

pub remove_key :
    (k : Text) (v : Json) (fs : Fields)
    → find k fs ≡ some v
    → apply_op (object fs) (remove (child_path [] k)) ≡ ok (object (without_field k fs))
unfolding walk_and_apply
remove_key k v fs f =
    walk_op (object fs) k [] (remove (child_path [] k)) (key_path k)
    ∙ remove_present k (child_path [] k) v fs f

pub add_key :
    (k : Text) (v : Json) (fs : Fields)
    → apply_op (object fs) (add (child_path [] k) v) ≡ ok (object (with_field k v fs))
unfolding walk_and_apply
add_key k v fs = walk_op (object fs) k [] (add (child_path [] k) v) (key_path k)

-- What `diff` writes at the root is pathed.
prefix-IsPathed :
    (k : Text) (l : List Op) → All IsPathed l → All IsPathed (map (prefix (child_path [] k)) l)
prefix-IsPathed k [] a = tt
prefix-IsPathed k (op ∷ l) ((path, e, r), rest) =
    ((k ∷ path, below k path op e, λ z. absurd (ground (arith, z))), prefix-IsPathed k l rest)

pub diff_below :
    (v w : Json) (k : Text)
    → diff v w (child_path [] k) ≡ map (prefix (child_path [] k)) (diff v w [])
diff_below v w k = ap (diff v w) (sym (append-nil _)) ∙ diff-prefix v w (child_path [] k) []

append-IsPathed : (l m : List Op) → All IsPathed l → All IsPathed m → All IsPathed (l ++ m)
append-IsPathed [] m a b = b
append-IsPathed (op ∷ l) m (a, rest) b = (a, append-IsPathed l m rest b)

added-IsPathed : (fs gs : Fields) → All IsPathed (diff_added [] fs gs)
unfolding diff_added
added-IsPathed fs end = tt
added-IsPathed fs (field k w gs) =
    elim (find k fs)
      as (λ o. All IsPathed (elim o [
        | none ↦ add (child_path [] k) w ∷ diff_added [] fs gs
        | some _ ↦ diff_added [] fs gs
      ])) [
        | none ↦ ((k ∷ [], key_path k, λ z. absurd (ground (arith, z))), added-IsPathed fs gs)
        | some _ ↦ added-IsPathed fs gs
      ]

root-IsPathed : (v : Json) → IsPathed (replace [] v)
unfolding render
root-IsPathed v = ([], refl, λ z. refl)

unless : (b : Bool) (v : Json) → All IsPathed (if b then [] else replace [] v ∷ [])
unless true v = tt
unless false v = (root-IsPathed v, tt)

unless_text : (s t : Text) (v : Json) → All IsPathed (ite (dec_text s t) [] (replace [] v ∷ []))
unless_text s t v = elim (dec_text s t) as (λ d. All IsPathed (ite d [] (replace [] v ∷ []))) [
  | yes e ↦ tt
  | no d ↦ (root-IsPathed v, tt)
]

mutual
  unfolding diff

  pub diff-IsPathed : (v w : Json) → All IsPathed (diff v w [])
  diff-IsPathed null null = tt
  diff-IsPathed (bool true) (bool true) = tt
  diff-IsPathed (bool false) (bool false) = tt
  diff-IsPathed (number s) (number t) = unless_text s t (number t)
  diff-IsPathed (string s) (string t) = unless_text s t (string t)
  diff-IsPathed (array xs) (array ys) = unless (Patch.deep_equal (array xs) (array ys)) (array ys)
  diff-IsPathed (object fs) (object gs) =
      append-IsPathed (diff_fields fs gs []) (diff_added [] fs gs) (fields-IsPathed fs gs)
        (added-IsPathed fs gs)
  diff-IsPathed v w = (root-IsPathed w, tt)

  fields-IsPathed : (fs gs : Fields) → All IsPathed (diff_fields fs gs [])
  fields-IsPathed end gs = tt
  fields-IsPathed (field k v fs) gs =
      append-IsPathed _ (diff_fields fs gs [])
        (elim (find k gs)
          as (λ o. All IsPathed (elim o [
            | none ↦ remove (child_path [] k) ∷ []
            | some w ↦ diff v w (child_path [] k)
          ])) [
            | none ↦ ((k ∷ [], key_path k, λ z. absurd (ground (arith, z))), tt)
            | some w ↦
                subst (All IsPathed) (sym (diff_below v w k))
                  (prefix-IsPathed k (diff v w []) (diff-IsPathed v w))
          ])
        (fields-IsPathed fs gs)
