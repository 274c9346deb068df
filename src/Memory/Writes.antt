-- ===== src/Memory/Writes.antt =====
-- What `put` and `delete` do to every record that can be read.
use noydb.Base.{
  ℕ, ◌≡◌, ◌≢◌, ◌∙◌, sym, ap, refl, ite, Option, none, some, lookup, dec_text, Text, arith,
}
use noydb.Dict.{insert, remove, lookup-insert, lookup-remove}
use noydb.Store.{Envelope, StoreError, conflict, Outcome, at_key, ok, thrown}
use noydb.Memory.{Memory, get, set_in, get_collection, or_empty, version_conflict, put, delete}
use noydb.Memory.Lookup.{
  records_of, get-records_of, records_of-get_collection, records_of-set_in,
  get_collection-records_of,
}

module _ (v c id : Text) (e : Envelope) where
  get-set_in :
      (w d j : Text) (s : Memory)
      → get w d j (set_in v c id e s)
        ≡ ite
            (dec_text w v)
            (ite (dec_text d c) (ite (dec_text j id) (some e) (get w d j s)) (get w d j s))
            (get w d j s)
  get-set_in w d j s = ground (
    arith,
    get-records_of w d j s,
    get-records_of w d j (set_in v c id e s),
    records_of-set_in v c w d id e s,
    lookup-insert dec_text id j e (records_of v c s),
  )

-- The write went through: the record is there, no other changed, and what was expected held.
pub record Stored (v c id : Text) (e : Envelope) (expected : Option ℕ) (s s' : Memory)
    : Type 0 where
  pub reads : (w d j : Text) → get w d j s' ≡ at_key v c id w d j (some e) (get w d j s)
  pub expectation :
      (n : ℕ) (old : Envelope) → expected ≡ some n → get v c id s ≡ some old → old.v ≡ n

-- The write was refused: the record has another version than the one expected, and no record
-- changed.
pub record Refused (v c id : Text) (expected : Option ℕ) (found : ℕ) (s s' : Memory) : Type 0 where
  pub reads : (w d j : Text) → get w d j s' ≡ get w d j s
  pub mismatch :
      (n : ℕ) × (old : Envelope) × (expected ≡ some n)
      × (get v c id s ≡ some old)
      × (old.v ≡ found)
      × (found ≢ n)

-- What `put` leaves, by what it settles to.
abbrev pub PutResult :
    (v c id : Text) (e : Envelope) (expected : Option ℕ) (s s' : Memory)
    → Outcome StoreError Unit
    → Type 0
PutResult v c id e expected s s' (ok _) = Stored v c id e expected s s'
PutResult v c id e expected s s' (thrown (conflict n)) = Refused v c id expected n s s'
PutResult v c id e expected s s' (thrown _) = ⊥

mismatch_of :
    (expected : Option ℕ) (o : Option Envelope) (found : ℕ)
    → version_conflict expected o ≡ some found
    → (n : ℕ) × (old : Envelope) × (expected ≡ some n)
      × (o ≡ some old)
      × (old.v ≡ found)
      × (found ≢ n)
unfolding version_conflict
mismatch_of (some n) (some old) found h = (n, old, refl, refl, ground arith, ground arith)
mismatch_of (some n) none found h = cc
mismatch_of none o found h = cc

expectation_of :
    (expected : Option ℕ) (o : Option Envelope)
    → version_conflict expected o ≡ none
    → (n : ℕ) (old : Envelope) → expected ≡ some n
    → o ≡ some old
    → old.v ≡ n
unfolding version_conflict
expectation_of expected o h n old p q = ground arith

module _ (v c id : Text) (e : Envelope) (expected : Option ℕ) (s : Memory) where
  -- The settled write, by what the guard found.
  abbrev settle : Option ℕ → Memory × Outcome StoreError Unit
  settle o = elim o [
    | some found ↦ ((get_collection v c s).0, thrown (conflict found))
    | none ↦ (set_in v c id e (get_collection v c s).0, ok tt)
  ]

  put-settle : put v c id e expected s ≡ settle (version_conflict expected (get v c id s))
  unfolding put
  put-settle =
      ap (λ o. settle (version_conflict expected o))
        (rw get_collection-records_of (sym (get-records_of v c id s)))

  get-get_collection : (w d j : Text) → get w d j (get_collection v c s).0 ≡ get w d j s
  get-get_collection w d j = rw (get-records_of, get-records_of, records_of-get_collection)

  settle_lem :
      (o : Option ℕ)
      → version_conflict expected (get v c id s) ≡ o
      → PutResult v c id e expected s (settle o).0 (settle o).1
  unfolding version_conflict
  settle_lem (some n) h = record {
    reads = get-get_collection;
    mismatch = mismatch_of expected (get v c id s) n h;
  }
  settle_lem none h = record {
    reads = λ w d j.
        get-set_in v c id e w d j _ ∙ ap (at_key v c id w d j (some e)) (get-get_collection w d j);
    expectation = expectation_of expected (get v c id s) h;
  }

  -- `put` either stores the record, which happens exactly if no version is expected, no record is
  -- there or its version is the one expected, and then changes no other record; or it throws a
  -- conflict with the version that is there, and changes no record.
  pub put_lem :
      PutResult v c id e expected s (put v c id e expected s).0 (put v c id e expected s).1
  put_lem = rw put-settle (settle_lem _ refl)

module _ (v c id : Text) (s : Memory) where
  -- `delete` makes the record absent and changes no other record.
  pub delete_lem :
      (w d j : Text) → get w d j (delete v c id s) ≡ at_key v c id w d j none (get w d j s)
  unfolding delete get
  delete_lem w d j =
      let comp = or_empty (lookup dec_text v s) in
      let coll = or_empty (lookup dec_text c comp) in
      ground (
        arith,
        lookup-insert dec_text v w (insert dec_text c (remove dec_text id coll) comp) s,
        lookup-insert dec_text c d (remove dec_text id coll) comp,
        lookup-remove dec_text id j coll,
      )
