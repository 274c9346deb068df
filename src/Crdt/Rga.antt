-- ===== src/Crdt/Rga.antt =====
-- The arrays of the `rga` mode: their merge, and how a state is built from a new array.
use noydb.Base.{
  ◌≡◌, refl, if◌then◌else◌, true, false, is_some, Option, none, some, List, [], ◌∷◌, ◌++◌, lookup,
  Text, dec_text, All, arith,
}
use noydb.Dict.{keys, lookup-append}
use noydb.Crdt.{RgaState, member, add_all, without, merge_rga}
use noydb.Crdt.Lww.{member-add_all}

module _ {V : Type 0} where
  abbrev pub or_item : Option V → Option V → Option V
  or_item none p = p
  or_item (some v) p = some v

  lookup-without :
      (n : Text) (dead : List Text) (l : List (Text × V))
      → lookup dec_text n (without dead l) ≡ (if member n dead then none else lookup dec_text n l)
  unfolding without lookup
  lookup-without n dead [] = ground arith
  lookup-without n dead (i ∷ l) = ground (arith, lookup-without n dead l)

  member-keys : (n : Text) (l : List (Text × V)) → member n (keys l) ≡ is_some (lookup dec_text n l)
  unfolding member lookup
  member-keys n [] = refl
  member-keys n (i ∷ l) = ground (arith, member-keys n l)

  lookup-merge_items :
      (n : Text) (a b : List (Text × V))
      → lookup dec_text n (a ++ without (keys a) b)
        ≡ or_item (lookup dec_text n a) (lookup dec_text n b)
  lookup-merge_items n a b = ground (
    arith,
    lookup-append dec_text n a (without (keys a) b),
    lookup-without n (keys a) b,
    member-keys n a,
  )

  pub without_self :
      (dead : List Text) (l : List (Text × V))
      → All (λ i. member i.0 dead ≡ true) l
      → without dead l ≡ []
  unfolding without
  without_self dead [] h = refl
  without_self dead (i ∷ l) h = ground (arith, without_self dead l h.1)

  pub without_none :
      (dead : List Text) (l : List (Text × V))
      → All (λ i. member i.0 dead ≡ false) l
      → without dead l ≡ l
  unfolding without
  without_none dead [] h = refl
  without_none dead (i ∷ l) h = ground (arith, without_none dead l h.1)

  member-keys-without :
      (n : Text) (dead : List Text) (l : List (Text × V))
      → member n (keys (without dead l)) ≡ (if member n dead then false else member n (keys l))
  member-keys-without n dead l =
      ground (arith, member-keys n (without dead l), member-keys n l, lookup-without n dead l)

  -- After a merge an id has the value that it has in the first state, or else in the second; it is
  -- removed if either state removed it, so no value that one of them removed is alive; and the
  -- same ids are removed whichever state comes first.
  pub merge_rga_lem :
      (a b : RgaState V) (n : Text)
      → (lookup dec_text n (merge_rga a b).items
          ≡ or_item (lookup dec_text n a.items) (lookup dec_text n b.items))
        × (member n (merge_rga a b).tombstones
            ≡ (if member n a.tombstones then true else member n b.tombstones))
        × (lookup dec_text n (without (merge_rga a b).tombstones (merge_rga a b).items) ≡ (
            if member n a.tombstones
            then none
            else (if member n b.tombstones
                then none
                else or_item (lookup dec_text n a.items) (lookup dec_text n b.items))))
  unfolding merge_rga member
  merge_rga_lem a b n =
      let dead = add_all (add_all [] a.tombstones) b.tombstones in
      let found = lookup-merge_items n a.items b.items in
      let gone : member n dead ≡ (if member n a.tombstones then true else member n b.tombstones) =
        ground (
          arith,
          member-add_all n (add_all [] a.tombstones) b.tombstones,
          member-add_all n [] a.tombstones,
        ) in
      (
        found,
        gone,
        ground
            (arith, lookup-without n dead (a.items ++ without (keys a.items) b.items), found, gone),
      )
