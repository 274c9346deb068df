-- ===== src/Crdt/Tests.antt =====
-- Runs of the CRDT states on small values, and their theorems there.
use noydb.Base.{
  ℕ, ◌≡◌, refl, if◌then◌else◌, true, false, none, some, [], ◌∷◌, map, lookup, Text, codes, dec_text,
  ℕ_discrete, text_le, arith,
}
use noydb.Dict.{insert}
use noydb.Crdt.{
  Register, Fields, RgaState, member, add_all, pick, without, merge_lww_map, merge_rga, live_values,
  build_rga_state, build_lww_map_state, index_items, next_item, assign, entomb,
}
use noydb.Objects.{inherits, is_one_of, IsPlain, plain_nil, plain_cons}
use noydb.Crdt.Lww.{merge_lww_map_lem, build_lww_map_state_lem, stamped, old_field, IsConsistent}
use noydb.Crdt.Rga.{merge_rga_lem, or_item}
use noydb.Crdt.Build.{IsClear, tombstones_of, build_rga_state_lem}

program : Unit {0}
unfolding member add_all pick without merge_lww_map merge_rga live_values build_rga_state
    build_lww_map_state index_items next_item assign entomb insert lookup dec_text ℕ_discrete
    text_le
program = tt

abbrev reg : ℕ → Text → Register ℕ
reg n t = record { value = n; ts = t }

abbrev title : Text
title = codes "title"

abbrev here : Fields ℕ
here = (title, reg 1 (codes "T1")) ∷ (codes "done", reg 0 (codes "T1")) ∷ []

abbrev there : Fields ℕ
there = (title, reg 2 (codes "T2")) ∷ []

-- The fields of the tests are no names of members that objects inherit.
clear_names : (inherits title ≡ false) × (inherits (codes "done") ≡ false)
unfolding inherits is_one_of dec_text ℕ_discrete
clear_names = (refl, refl)

here-IsPlain : IsPlain here
here-IsPlain =
    plain_cons (title, reg 1 (codes "T1")) ((codes "done", reg 0 (codes "T1")) ∷ []) clear_names.0
      (plain_cons (codes "done", reg 0 (codes "T1")) [] clear_names.1 plain_nil)

there-IsPlain : IsPlain there
there-IsPlain = plain_cons (title, reg 2 (codes "T2")) [] clear_names.0 plain_nil

-- A field with such a name is lost, or kept, as the order of the merge has it.
merge_inherited :
    (merge_lww_map ((codes "constructor", reg 1 []) ∷ []) [] ≡ [])
    × (merge_lww_map [] ((codes "constructor", reg 1 []) ∷ [])
        ≡ (codes "constructor", reg 1 []) ∷ [])
unfolding program inherits is_one_of
merge_inherited = (refl, refl)

merge_newer :
    merge_lww_map here there ≡ (title, reg 2 (codes "T2")) ∷ (codes "done", reg 0 (codes "T1")) ∷ []
unfolding program
merge_newer = refl

here-IsConsistent : IsConsistent here there
unfolding program
here-IsConsistent x r s h k e = ground arith

merge_lww_map_lem_example :
    (lookup dec_text title (merge_lww_map here there)
      ≡ lookup dec_text title (merge_lww_map there here))
    × (lookup dec_text title (merge_lww_map (merge_lww_map here there) here)
        ≡ lookup dec_text title (merge_lww_map here (merge_lww_map there here)))
    × (lookup dec_text title (merge_lww_map here here) ≡ lookup dec_text title here)
merge_lww_map_lem_example =
    merge_lww_map_lem here there here here-IsPlain there-IsPlain here-IsPlain here-IsConsistent
      title

build_lww_map_state_lem_example :
    lookup dec_text title (build_lww_map_state ((title, 7) ∷ []) (some here) (codes "T3"))
    ≡ stamped (codes "T3") (lookup dec_text title ((title, 7) ∷ [])) (old_field title (some here))
build_lww_map_state_lem_example =
    build_lww_map_state_lem ((title, 7) ∷ []) (some here) (codes "T3") title here-IsPlain

abbrev json : ℕ → Text
json n = n ∷ []

abbrev nid : ℕ → Text
nid n = 0 ∷ n ∷ []

abbrev old : RgaState ℕ
old = record {
  items = (codes "a", 1) ∷ (codes "b", 2) ∷ (codes "c", 3) ∷ [];
  tombstones = codes "b" ∷ [];
}

abbrev other : RgaState ℕ
other = record { items = (codes "a", 1) ∷ (codes "d", 4) ∷ []; tombstones = codes "a" ∷ [] }

built : build_rga_state json nid (3 ∷ 5 ∷ 3 ∷ []) (some old) ≡ record {
  items = (codes "c", 3) ∷ (nid 0, 5) ∷ (nid 1, 3) ∷ (codes "a", 1) ∷ (codes "b", 2) ∷ [];
  tombstones = codes "b" ∷ codes "a" ∷ [];
}
unfolding program
built = refl

-- A removed value that the new array holds again stays hidden.
added_again : live_values (build_rga_state json nid (1 ∷ 2 ∷ []) (some old)) ≡ 1 ∷ []
unfolding program
added_again = refl

merge_rga_lem_example :
    (lookup dec_text (codes "a") (merge_rga old other).items
      ≡ or_item (lookup dec_text (codes "a") old.items) (lookup dec_text (codes "a") other.items))
    × (member (codes "a") (merge_rga old other).tombstones
        ≡ (if member (codes "a") old.tombstones then true else member (codes "a") other.tombstones))
    × (lookup dec_text
          (codes "a")
          (without (merge_rga old other).tombstones (merge_rga old other).items)
        ≡ (if member (codes "a") old.tombstones
            then none
            else (if member (codes "a") other.tombstones
                then none
                else or_item
                    (lookup dec_text (codes "a") old.items)
                    (lookup dec_text (codes "a") other.items))))
merge_rga_lem_example = merge_rga_lem old other (codes "a")

old-IsClear : IsClear json nid (3 ∷ 5 ∷ 3 ∷ []) (some old)
unfolding program
old-IsClear = (λ h. refl, (λ h. refl, (λ h. cc, tt)))

nid-fresh : (n : ℕ) → member (nid n) (tombstones_of json nid (some old)) ≡ false
unfolding program
nid-fresh n = refl

build_rga_state_lem_example :
    map json (live_values (build_rga_state json nid (3 ∷ 5 ∷ 3 ∷ []) (some old)))
    ≡ map json (3 ∷ 5 ∷ 3 ∷ [])
build_rga_state_lem_example =
    build_rga_state_lem json nid (3 ∷ 5 ∷ 3 ∷ []) (some old) old-IsClear nid-fresh
