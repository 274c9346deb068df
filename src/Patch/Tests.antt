-- ===== src/Patch/Tests.antt =====
-- A patch at concrete values.
use noydb.Base.{◌≡◌, refl, true, [], ◌∷◌, codes, dec_text, ℕ_discrete}
use noydb.Json.{
  Json, null, bool, number, string, array, object, nil, item, end, field, find, count, size, nth,
  with_field, without_field,
}
use noydb.Patch.{Op, add, remove, replace, Result, ok, failed, compute_patch, apply_patch, apply_op}
use noydb.Patch.Same.{Same, IsPlain}
use noydb.Patch.RoundTrip.{compute_patch_lem}
use noydb.Patch

program : Unit {0}
unfolding find count size nth with_field without_field dec_text ℕ_discrete Patch.deep_equal
    Patch.diff compute_patch apply_patch Patch.escape_path_segment
program = tt

abbrev prev : Json
prev = object (
    field (codes "a") (object (field (codes "x") (number (codes "1")) end))
      (field (codes "b") (array (item null nil)) (field (codes "c/d") null end)))

abbrev next : Json
next = object (
    field (codes "a") (object (field (codes "x") (number (codes "2")) end))
      (field (codes "c/d") (bool true) (field (codes "e") (string (codes "s")) end)))

prev-IsPlain : IsPlain prev
unfolding program
prev-IsPlain = (refl, (refl, tt, tt), (refl, (tt, tt), (refl, tt, tt)))

next-IsPlain : IsPlain next
unfolding program
next-IsPlain = (refl, (refl, tt, tt), (refl, tt, (refl, tt, tt)))

patch_test :
    compute_patch prev next
    ≡ replace (codes "/a/x") (number (codes "2"))
      ∷ remove (codes "/b")
      ∷ replace (codes "/c~1d") (bool true)
      ∷ add (codes "/e") (string (codes "s"))
      ∷ []
unfolding program
patch_test = refl

remove_missing : apply_patch next (remove (codes "/b") ∷ []) ≡ failed
unfolding program
remove_missing = refl

compute_patch_lem_example :
    (r : Json) × (apply_patch prev (compute_patch prev next) ≡ ok r) × Same r next
compute_patch_lem_example = compute_patch_lem prev prev next (λ p. refl) prev-IsPlain next-IsPlain
