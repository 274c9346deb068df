-- ===== src/Crdt/Build.antt =====
-- A state built from an array shows that array: `buildRgaState` and then `resolveCrdtSnapshot`.
use mathlib.Core.Path.{subst}
use noydb.Base.{
  ℕ, ◌≡◌, ◌∙◌, sym, refl, ap, if◌then◌else◌, true, false, Bool-cases, inl, inr, Option, none, some,
  List, [], ◌∷◌, ◌++◌, map, lookup, Text, dec_text, All, arith,
}
use noydb.Dict.{keys, insert, lookup-insert}
use noydb.Crdt.{
  RgaState, member, add_all, without, live_values, build_rga_state, index_items, next_item, assign,
  entomb,
}
use noydb.Crdt.Lww.{member-add_all}
use noydb.Crdt.Rga.{without_self, without_none}

module _ {V : Type 0} (json : V → Text) (nid : ℕ → Text) where
  abbrev texts_of : List V → List Text
  texts_of l = map json l

  abbrev values_of : List (Text × V) → List V
  values_of = map (λ i. i.1)

  module _ (dead texts : List Text) where
    -- An item that is removed has not the text of an element.
    abbrev pub IsApart : Text × V → Type 0
    IsApart i = member i.0 dead ≡ true → member (json i.1) texts ≡ false

    -- What the index holds under a text has that text.
    abbrev Good : List (Text × (Text × V)) → Type 0
    Good by_value =
        (k : Text) (i : Text × V) → lookup dec_text k by_value ≡ some i → (json i.1 ≡ k) × IsApart i

    insert_lem :
        (item : Text × V) (by_value : List (Text × (Text × V)))
        → IsApart item
        → Good by_value
        → Good (insert dec_text (json item.1) item by_value)
    insert_lem item by_value a g k i h = elim (dec_text k (json item.1)) [
      | yes p ↦
          let e : item ≡ i = ground (arith, lookup-insert dec_text (json item.1) k item by_value) in
          subst (λ j. (json j.1 ≡ k) × IsApart j) e (sym p, a)
      | no d ↦ g k i (ground (arith, lookup-insert dec_text (json item.1) k item by_value))
    ]

    index_lem :
        (l : List (Text × V)) (by_value : List (Text × (Text × V)))
        → All IsApart l
        → Good by_value
        → Good (index_items json nid l by_value)
    unfolding index_items
    index_lem [] by_value a g = g
    index_lem (item ∷ l) by_value a g =
        index_lem l _ a.1
          (elim (lookup dec_text (json item.1) by_value)
            as (λ o.
              Good (elim o [
                | none ↦ insert dec_text (json item.1) item by_value
                | some _ ↦ by_value
              ])) [ some _ ↦ g | none ↦ insert_lem item by_value a.0 g ])

    next_lem :
        (o : Option (Text × V)) (el : V) (n : ℕ) (used : List Text)
        → ((i : Text × V) → o ≡ some i → (json i.1 ≡ json el) × IsApart i)
        → ((k : ℕ) → member (nid k) dead ≡ false)
        → member (json el) texts ≡ true
        → (member (next_item json nid o el n used).0.0 dead ≡ false)
          × (json (next_item json nid o el n used).0.1 ≡ json el)
    unfolding next_item
    next_lem none el n used g fresh h = (fresh n, refl)
    next_lem (some m) el n used g fresh h = ground (arith, g m refl, fresh n)

    assign_lem :
        (by_value : List (Text × (Text × V))) (l : List V) (n : ℕ) (used : List Text)
        → Good by_value
        → ((k : ℕ) → member (nid k) dead ≡ false)
        → All (λ el. member (json el) texts ≡ true) l
        → All (λ i. member i.0 dead ≡ false) (assign json nid by_value l n used).0
          × (map json (map (λ i. i.1) (assign json nid by_value l n used).0) ≡ map json l)
    unfolding assign
    assign_lem by_value [] n used g fresh h = (tt, refl)
    assign_lem by_value (el ∷ l) n used g fresh h =
        let (item, n') = next_item json nid (lookup dec_text (json el) by_value) el n used in
        let (alive, same) =
          next_lem (lookup dec_text (json el) by_value) el n used (g (json el)) fresh h.0 in
        let (a, s) = assign_lem by_value l n' (add_all used (item.0 ∷ [])) g fresh h.1 in
        ((alive, a), cc)

  assign-used :
      (by_value : List (Text × (Text × V))) (l : List V) (n : ℕ) (used : List Text)
      → ((x : Text) → member x used ≡ true → member x (assign json nid by_value l n used).1 ≡ true)
        × All
            (λ i. member i.0 (assign json nid by_value l n used).1 ≡ true)
            (assign json nid by_value l n used).0
  unfolding assign member
  assign-used by_value [] n used = (λ x h. h, tt)
  assign-used by_value (el ∷ l) n used =
      let (item, n') = next_item json nid (lookup dec_text (json el) by_value) el n used in
      let (mono, a) = assign-used by_value l n' (add_all used (item.0 ∷ [])) in
      (
        λ x h. mono x (ground (arith, member-add_all x used (item.0 ∷ []))),
        (mono item.0 (ground (arith, member-add_all item.0 used (item.0 ∷ []))), a),
      )

  member-entomb :
      (x : Text) (used : List Text) (l : List (Text × V)) (dead : List Text)
      → member x (entomb json nid used l dead)
        ≡ (if member x dead then true else (if member x used then false else member x (keys l)))
  unfolding entomb member
  member-entomb x used [] dead = ground arith
  member-entomb x used (i ∷ l) dead = ground (
    arith,
    member-entomb x used l (if member i.0 used then dead else add_all dead (i.0 ∷ [])),
    member-add_all x dead (i.0 ∷ []),
  )

  -- The items that are kept for their order are all removed.
  extras_lem :
      (dead used : List Text) (l : List (Text × V))
      → ((x : Text) → member x (keys l) ≡ true → member x used ≡ false → member x dead ≡ true)
      → All (λ i. member i.0 dead ≡ true) (without used l)
  unfolding without member
  extras_lem dead used [] h = tt
  extras_lem dead used (i ∷ l) h =
      let rest = extras_lem dead used l (λ x k. h x (ground arith)) in
      elim (Bool-cases (member i.0 used)) [
        | inl u ↦ rw u rest
        | inr u ↦ rw u (h i.0 (ground arith) u, rest)
      ]

  texts_lem :
      (texts : List Text) (l : List V)
      → ((x : Text) → member x (map json l) ≡ true → member x texts ≡ true)
      → All (λ el. member (json el) texts ≡ true) l
  unfolding member
  texts_lem texts [] h = tt
  texts_lem texts (el ∷ l) h =
      (h (json el) (ground arith), texts_lem texts l (λ x k. h x (ground arith)))

  alive_lem :
      (dead : List Text) (l m : List (Text × V))
      → All (λ i. member i.0 dead ≡ false) l
      → All (λ i. member i.0 dead ≡ true) m
      → without dead (l ++ m) ≡ l
  unfolding without
  alive_lem dead [] m h k = without_self dead m k
  alive_lem dead (i ∷ l) m h k = ground (arith, alive_lem dead l m h.1 k)

  kept_lem :
      (T dead used : List Text) (l items : List (Text × V))
      → ((x : Text)
          → member x T ≡ (
              if member x dead then true else (if member x used then false else member x (keys l))))
      → All (λ i. member i.0 dead ≡ false) items
      → All (λ i. member i.0 used ≡ true) items
      → All (λ i. member i.0 T ≡ false) items
  kept_lem T dead used l [] e h k = tt
  kept_lem T dead used l (i ∷ items) e h k =
      (ground (arith, e i.0), kept_lem T dead used l items e h.1 k.1)

  -- No removed item of the existing state has the JSON text of an element of the array.
  abbrev pub IsClear : List V → Option (RgaState V) → Type 0
  IsClear arr none = Unit
  IsClear arr (some existing) = All (IsApart existing.tombstones (map json arr)) existing.items

  abbrev pub tombstones_of : Option (RgaState V) → List Text
  tombstones_of none = []
  tombstones_of (some existing) = existing.tombstones

  nothing : (dead texts : List Text) → Good dead texts []
  unfolding lookup
  nothing dead texts k i h = cc

  texts_self : (arr : List V) → All (λ el. member (json el) (map json arr) ≡ true) arr
  texts_self arr = texts_lem (map json arr) arr (λ x h. h)

  -- When no removed item of the existing state has the JSON text of an element, and no generated
  -- id is a tombstone, the snapshot of the state that is built from an array has, element by
  -- element, the JSON texts of the array.
  pub build_rga_state_lem :
      (arr : List V) (existing : Option (RgaState V))
      → IsClear arr existing
      → ((n : ℕ) → member (nid n) (tombstones_of existing) ≡ false)
      → map json (live_values (build_rga_state json nid arr existing)) ≡ map json arr
  unfolding build_rga_state live_values
  build_rga_state_lem arr none clear fresh =
      let (alive, same) =
        assign_lem [] (map json arr) [] arr 0 [] (nothing [] (map json arr)) fresh
          (texts_self arr) in
      ap (λ l. map json (values_of l)) (without_none [] _ alive) ∙ same
  build_rga_state_lem arr (some existing) clear fresh =
      let dead = existing.tombstones in
      let by_value = index_items json nid existing.items [] in
      let (alive, same) =
        assign_lem dead (map json arr) by_value arr 0 []
          (index_lem dead (map json arr) existing.items [] clear (nothing dead (map json arr)))
          fresh (texts_self arr) in
      let used = assign-used by_value arr 0 [] in
      let T = entomb json nid (assign json nid by_value arr 0 []).1 existing.items dead in
      ap (λ l. map json (values_of l))
        (alive_lem T _ _
          (kept_lem T dead _ existing.items _ (λ x. member-entomb x _ existing.items dead) alive
            used.1)
          (extras_lem T _ existing.items (λ x k u.
            ground
              (arith, member-entomb x (assign json nid by_value arr 0 []).1 existing.items dead))))
      ∙ same
