-- ===== src/Memory/Lookup.antt =====
-- What can be read from the memory store after a write.
use noydb.Base.{◌≡◌, ite, List, [], lookup, dec_text, Text, arith}
use noydb.Dict.{insert, lookup-insert}
use noydb.Store.{Envelope, Records}
use noydb.Memory.{Memory, get, set_in, get_collection, or_empty, ensure}

-- The inner map of `j`, if a missing one counts as empty.
abbrev pub inner : {A : Type 0} → Text → List (Text × List A) → List A
inner j m = or_empty (lookup dec_text j m)

module _ {A : Type 0} (k j : Text) where
  inner-insert :
      (l : List A) (m : List (Text × List A))
      → inner j (insert dec_text k l m) ≡ ite (dec_text j k) l (inner j m)
  inner-insert l m = ground (arith, lookup-insert dec_text k j l m)

  -- Making an inner map changes no inner map but for one that was missing, which reads alike.
  pub inner-ensure : (m : List (Text × List A)) → inner j (ensure k m) ≡ inner j m
  unfolding ensure
  inner-ensure m = ground (arith, lookup-insert dec_text k j [] m)

-- The records of a collection; a missing one has none.
unfoldable pub records_of : Text → Text → Memory → Records
records_of vault collection s =
    or_empty (lookup dec_text collection (or_empty (lookup dec_text vault s)))

pub get-records_of :
    (w d j : Text) (s : Memory) → get w d j s ≡ lookup dec_text j (records_of w d s)
unfolding get records_of lookup
get-records_of w d j s = ground arith

module _ (v c w d : Text) where
  pub records_of-get_collection :
      (s : Memory) → records_of w d (get_collection v c s).0 ≡ records_of w d s
  unfolding records_of get_collection
  records_of-get_collection s = ground (
    arith,
    inner-insert v w (ensure c (or_empty (lookup dec_text v (ensure v s)))) (ensure v s),
    inner-ensure v w s,
    inner-ensure c d (or_empty (lookup dec_text v (ensure v s))),
  )

  pub records_of-set_in :
      (id : Text) (e : Envelope) (s : Memory)
      → records_of w d (set_in v c id e s)
        ≡ ite
            (dec_text w v)
            (ite (dec_text d c) (insert dec_text id e (records_of v c s)) (records_of w d s))
            (records_of w d s)
  unfolding records_of set_in
  records_of-set_in id e s =
      let comp = or_empty (lookup dec_text v s) in
      let coll = or_empty (lookup dec_text c comp) in
      ground (
        arith,
        inner-insert v w (insert dec_text c (insert dec_text id e coll) comp) s,
        inner-insert c d (insert dec_text id e coll) comp,
      )

pub get_collection-records_of :
    (v c : Text) (s : Memory) → (get_collection v c s).1 ≡ records_of v c s
unfolding records_of get_collection
get_collection-records_of v c s =
    ground (arith, inner-ensure v v s, inner-ensure c c (or_empty (lookup dec_text v (ensure v s))))
