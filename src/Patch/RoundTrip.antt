-- ===== src/Patch/RoundTrip.antt =====
-- `computePatch` and then `applyPatch`.
use mathlib.Core.Path.{subst}
use noydb.Base.{
  ◌≡◌, ◌≢◌, ◌∙◌, sym, refl, ap, ite, true, false, Option, none, some, Option-cases, inl, inr, List,
  [], ◌∷◌, ◌++◌, Text, dec_text, arith,
}
use noydb.Json.{
  Json, Fields, null, bool, number, string, array, object, end, field, find, with_field,
  without_field,
}
use noydb.Patch.{
  Op, remove, ok, ◌>>=◌, child_path, diff, diff_fields, diff_added, compute_patch, apply_patch,
}
use noydb.Patch.Same.{
  Same, SameOption, Same-object, object_inversion, absent_same, found-Same, IsPlain, FieldsPlain,
}
use noydb.Patch.Equal.{find-IsPlain, find-without_field}
use noydb.Patch.Paths.{field_ops}
use noydb.Patch.Lift.{
  lift_lem, find-with_field, apply_patch-append, remove_key, diff_below, diff-IsPathed,
}
use noydb.Patch.Additions.{
  Makes, replaced, unchanged, text-Makes, equal-Makes, added_value, added_lem,
}

-- What the pass over the fields of `prev` makes of a field.
abbrev Passed : Fields → Fields → Fields → List Op → Type 0
Passed fs gs cur l =
    (res : Fields) × (apply_patch (object cur) l ≡ ok (object res))
    × ((k : Text) → find k fs ≡ none → find k res ≡ find k cur)
    × ((k : Text) → find k fs ≢ none → SameOption (find k res) (find k gs))

-- One field.
abbrev Touched : Text → Fields → Fields → List Op → Type 0
Touched k gs cur l =
    (mid : Fields) × (apply_patch (object cur) l ≡ ok (object mid))
    × SameOption (find k mid) (find k gs)
    × ((j : Text) → j ≢ k → find j mid ≡ find j cur)

removed_run :
    (k : Text) (v : Json) (gs cur : Fields)
    → find k cur ≡ some v
    → find k gs ≡ none
    → Touched k gs cur (remove (child_path [] k) ∷ [])
unfolding apply_patch
removed_run k v gs cur f e =
    let gone : find k (without_field k cur) ≡ none = ground (arith, find-without_field k k cur) in
    (
      without_field k cur,
      ap (λ o. o >>= λ d. apply_patch d []) (remove_key k v cur f),
      rw (gone, e) tt,
      λ j n. ground (arith, n, find-without_field j k cur),
    )

changed_run :
    (k : Text) (x v w : Json) (gs cur : Fields)
    → find k cur ≡ some x
    → find k gs ≡ some w
    → Makes x (diff v w []) w
    → Touched k gs cur (diff v w (child_path [] k))
changed_run k x v w gs cur f e (r, ran, same) =
    let here : find k (with_field k r cur) ≡ some r = ground (arith, find-with_field k k r cur) in
    (
      with_field k r cur,
      ap (apply_patch (object cur)) (diff_below v w k)
          ∙ lift_lem cur k x r (diff v w []) f (diff-IsPathed v w) ran,
      rw (here, e) same,
      λ j n. ground (arith, n, find-with_field j k r cur),
    )

pass_step :
    (k : Text) (v : Json) (fs gs cur : Fields) (l m : List Op)
    → find k fs ≡ none
    → (t : Touched k gs cur l) → Passed fs gs t.0 m
    → Passed (field k v fs) gs cur (l ++ m)
unfolding find
pass_step k v fs gs cur l m absent (mid, ran, here, off) (res, done, out, on) = (
  res,
  apply_patch-append (object cur) l m ∙ ap (λ o. o >>= λ d. apply_patch d m) ran ∙ done,
  λ j n. let d : j ≢ k = λ e. ground (arith, n, e) in out j (ground (arith, n, d)) ∙ off j d,
  λ j n.
      elim (dec_text j k)
          as (λ d. ite d (some v) (find j fs) ≢ none → SameOption (find j res) (find j gs)) [
            | yes e ↦ λ z.
                subst (λ i. SameOption (find i res) (find i gs)) (sym e)
                  (subst (λ o. SameOption o (find k gs)) (sym (out k absent)) here)
            | no d ↦ on j
          ]
        n,
)

fields_step :
    (k : Text) (v : Json) (fs gs cur : Fields) (o : Option Json)
    → find k fs ≡ none
    → find k gs ≡ o
    → (t : Touched k gs cur (field_ops o v (child_path [] k)))
    → Passed fs gs t.0 (diff_fields fs gs [])
    → Passed (field k v fs) gs cur (diff_fields (field k v fs) gs [])
unfolding diff
fields_step k v fs gs cur none absent e t rest =
    subst
      (λ o. Passed (field k v fs) gs cur (
        (elim o [ none ↦ remove (child_path [] k) ∷ [] | some w ↦ diff v w (child_path [] k) ])
        ++ diff_fields fs gs []))
      (sym e) (pass_step k v fs gs cur _ _ absent t rest)
fields_step k v fs gs cur (some w) absent e t rest =
    subst
      (λ o. Passed (field k v fs) gs cur (
        (elim o [ none ↦ remove (child_path [] k) ∷ [] | some w ↦ diff v w (child_path [] k) ])
        ++ diff_fields fs gs []))
      (sym e) (pass_step k v fs gs cur _ _ absent t rest)

-- The fields that are to be passed are there, the same.
abbrev Holds : Fields → Fields → Type 0
Holds fs cur =
    (k : Text) (v : Json) → find k fs ≡ some v → (x : Json) × (find k cur ≡ some x) × Same x v

still :
    (k : Text) (v : Json) (fs gs cur : Fields) (l : List Op)
    → find k fs ≡ none
    → Holds (field k v fs) cur
    → (t : Touched k gs cur l) → Holds fs t.0
unfolding find
still k v fs gs cur l absent h (mid, ran, here, off) j y f = elim (dec_text j k) [
  | yes e ↦ absurd (ground (arith, f, absent, e))
  | no d ↦ let (x, there, same) = h j y (ground (arith, f, d)) in (x, off j d ∙ there, same)
]

same_added :
    (o w cur : Option Json)
    → (o ≡ none → cur ≡ none)
    → (o ≢ none → SameOption cur w)
    → SameOption (added_value o w cur) w
same_added (some x) w cur out on = on (λ e. ground (arith, e))
same_added none (some w) cur out on = λ p. refl
same_added none none cur out on = rw (out refl) tt

object-Makes :
    (cs fs gs : Fields)
    → FieldsPlain gs
    → ((k : Text) → find k fs ≡ none → find k cs ≡ none)
    → Passed fs gs cs (diff_fields fs gs [])
    → Makes (object cs) (diff (object fs) (object gs) []) (object gs)
unfolding diff
object-Makes cs fs gs q gone (mid, ran, out, on) =
    let (res, done, has) = added_lem fs gs mid q in
    (
      object res,
      apply_patch-append (object cs) (diff_fields fs gs []) (diff_added [] fs gs)
          ∙ ap (λ o. o >>= λ d. apply_patch d (diff_added [] fs gs)) ran
          ∙ done,
      Same-object res gs (λ k.
          subst (λ o. SameOption o (find k gs)) (sym (has k))
            (same_added (find k fs) (find k gs) (find k mid) (λ e. out k e ∙ gone k e) (on k))),
    )

mutual
  unfolding diff apply_patch find

  -- Applying the patch to what is the same as `prev` makes `next`.
  pub diff_lem : (c v w : Json) → Same c v → IsPlain v → IsPlain w → Makes c (diff v w []) w
  diff_lem c null null s p q = unchanged c null null s refl
  diff_lem c (bool true) (bool true) s p q = unchanged c _ _ s refl
  diff_lem c (bool false) (bool false) s p q = unchanged c _ _ s refl
  diff_lem c (number a) (number b) s p q = text-Makes c a b number s
  diff_lem c (string a) (string b) s p q = text-Makes c a b string s
  diff_lem c (array xs) (array ys) s p q = equal-Makes c (array xs) (array ys) s p q
  diff_lem c (object fs) (object gs) s p q =
      let (cs, is, has) = object_inversion c fs s in
      subst (λ z. Makes z (diff (object fs) (object gs) []) (object gs)) (sym is)
        (object-Makes cs fs gs q (λ k e. absent_same _ _ (has k) e)
          (fields_lem fs gs cs p q (λ k v e. found-Same _ _ v (has k) e)))
  diff_lem c v w s p q = replaced c w

  fields_lem :
      (fs gs cur : Fields)
      → FieldsPlain fs
      → FieldsPlain gs
      → Holds fs cur
      → Passed fs gs cur (diff_fields fs gs [])
  fields_lem end gs cur p q h = (cur, refl, λ k e. refl, λ k e. absurd (e refl))
  fields_lem (field k v fs) gs cur p q h =
      let (x, there, same) = h k v (ground arith) in
      elim (Option-cases (find k gs)) [
        | inl e ↦
            let t = removed_run k x gs cur there e in
            fields_step k v fs gs cur none p.0 e t (
              fields_lem fs gs t.0 p.2 q
                (still k v fs gs cur (remove (child_path [] k) ∷ []) p.0 h t))
        | inr (w, e) ↦
            let t =
              changed_run k x v w gs cur there e
                (diff_lem x v w same p.1 (find-IsPlain k gs w q e)) in
            fields_step k v fs gs cur (some w) p.0 e t (
              fields_lem fs gs t.0 p.2 q (still k v fs gs cur (diff v w (child_path [] k)) p.0 h t))
      ]

-- Applying the patch that `computePatch` writes from one value to another, to a value that is the
-- same as the first along every path, settles to one that is the same as the second along every
-- path, if no object in the first and the second has a key twice.
pub compute_patch_lem :
    (current prev next : Json)
    → Same current prev
    → IsPlain prev
    → IsPlain next
    → (r : Json) × (apply_patch current (compute_patch prev next) ≡ ok r) × Same r next
unfolding compute_patch
compute_patch_lem = diff_lem
