-- ===== src/Memory/Snapshot.antt =====
-- `saveAll` and `loadAll`: the round trip of a snapshot.
use noydb.Base.{
  ◌≡◌, ◌≢◌, ◌∙◌, sym, ap, refl, false, Option, none, some, [], ◌∷◌, ◌++◌, lookup, dec_text, Text,
  arith, All,
}
use mathlib.Core.List.{append_assoc, append-nil}
use noydb.Dict.{
  insert, lookup-insert, Distinct, insert_absent, insert-insert, insert_same, All-lookup-append,
}
use noydb.Store.{Envelope, Records, VaultSnapshot}
use noydb.Memory.Lookup.{inner-ensure}
use noydb.Memory.{
  Memory, set_in, get_collection, or_empty, ensure, is_internal, user_only, internal_only, load_all,
  save_records, save_collections, clear_user, save_all,
}

-- The snapshot of an object of objects, with no internal collection in it.
pub record IsSnapshot (snapshot : VaultSnapshot) : Type 0 where
  pub distinct : Distinct dec_text snapshot
  pub user : All (λ e. is_internal e.0 ≡ false) snapshot
  pub records : All (λ e. Distinct dec_text e.1) snapshot

-- The collections of a vault; a missing vault has none.
abbrev pub collections : Text → Memory → VaultSnapshot
collections vault s = or_empty (lookup dec_text vault s)

-- `saveAll` writes the records of a new collection in the order in which they come.
abbrev write_all : Records → Records → Records
write_all [] coll = coll
write_all (e ∷ l) coll = write_all l (insert dec_text e.0 e.1 coll)

All-none : (l : Records) → All (λ e. ◌≡◌ {A = Option Envelope} (lookup dec_text e.0 []) none) l
unfolding lookup
All-none [] = tt
All-none (e ∷ l) = (refl, All-none l)

write_all-append :
    (l coll : Records)
    → Distinct dec_text l
    → All (λ e. lookup dec_text e.0 coll ≡ none) l
    → write_all l coll ≡ coll ++ l
write_all-append [] coll d a = sym (append-nil coll)
write_all-append (e ∷ l) coll d a = rw (insert_absent dec_text e.0 e.1 coll a.0) (
    write_all-append l (coll ++ e ∷ []) d.1 (All-lookup-append dec_text e coll l d.0 a.1)
    ∙ append_assoc coll (e ∷ []) l)

module _ (v c : Text) where
  save_records_lem :
      (l : Records) (coll : Records) (comp : VaultSnapshot) (s : Memory)
      → lookup dec_text v s ≡ some comp
      → lookup dec_text c comp ≡ some coll
      → lookup dec_text v (save_records v c l s) ≡ some (insert dec_text c (write_all l coll) comp)
  unfolding save_records set_in
  save_records_lem [] coll comp s hv hc = hv ∙ ap some (sym (insert_same dec_text c coll comp hc))
  save_records_lem (e ∷ l) coll comp s hv hc =
      let coll' = insert dec_text e.0 e.1 coll in
      let comp' = insert dec_text c coll' comp in
      save_records_lem l coll' comp' _ (ground (arith, lookup-insert dec_text v v comp' s))
        (ground (arith, lookup-insert dec_text c c coll' comp))
      ∙ ap some (insert-insert dec_text c (write_all l coll') coll' comp)

  get_collection_new :
      (s : Memory)
      → lookup dec_text c (collections v s) ≡ none
      → lookup dec_text v (get_collection v c s).0 ≡ some (insert dec_text c [] (collections v s))
  unfolding get_collection ensure
  get_collection_new s new = ground (
    arith,
    inner-ensure v v s,
    lookup-insert dec_text v v (ensure c (collections v (ensure v s))) (ensure v s),
  )

  -- A new collection, made and filled.
  save_one :
      (records : Records) (s : Memory)
      → Distinct dec_text records
      → lookup dec_text c (collections v s) ≡ none
      → lookup dec_text v (save_records v c records (get_collection v c s).0)
        ≡ some (collections v s ++ (c, records) ∷ [])
  save_one records s d new =
      let comp = collections v s in
      let filled : write_all records [] ≡ records =
        write_all-append records [] d (All-none records) in
      save_records_lem records [] (insert dec_text c [] comp) _ (get_collection_new s new)
        (ground (arith, lookup-insert dec_text c c [] comp))
      ∙ ap some (
          insert-insert dec_text c (write_all records []) [] comp
          ∙ insert_absent dec_text c (write_all records []) comp new
          ∙ ap (λ r. comp ++ (c, r) ∷ []) filled)

-- `saveAll` adds the collections of a snapshot, none of which is there, behind those that are.
save_collections_lem :
    (v : Text) (snapshot : VaultSnapshot) (s : Memory)
    → Distinct dec_text snapshot
    → All (λ e. Distinct dec_text e.1) snapshot
    → All (λ e. lookup dec_text e.0 (collections v s) ≡ none) snapshot
    → collections v (save_collections v snapshot s) ≡ collections v s ++ snapshot
unfolding save_collections
save_collections_lem v [] s d r a = sym (append-nil _)
save_collections_lem v ((c, records) ∷ l) s d r a =
    let s' = save_records v c records (get_collection v c s).0 in
    let one : collections v s' ≡ collections v s ++ (c, records) ∷ [] =
      ap or_empty (save_one v c records s r.0 a.0) in
    save_collections_lem v l s' d.1 r.1
      (rw one (All-lookup-append dec_text (c, records) (collections v s) l d.0 a.1))
    ∙ ap (λ m. m ++ l) one
    ∙ append_assoc (collections v s) ((c, records) ∷ []) l

lookup-internal_only :
    (name : Text) (m : VaultSnapshot)
    → is_internal name ≡ false
    → lookup dec_text name (internal_only m) ≡ none
unfolding internal_only lookup
lookup-internal_only name [] h = refl
lookup-internal_only name (e ∷ m) h = ground (arith, lookup-internal_only name m h)

All-absent :
    (m l : VaultSnapshot)
    → All (λ e. is_internal e.0 ≡ false) l
    → All (λ e. lookup dec_text e.0 (internal_only m) ≡ none) l
All-absent m [] u = tt
All-absent m (e ∷ l) u = (lookup-internal_only e.0 m u.0, All-absent m l u.1)

user_only-append :
    (m l : VaultSnapshot)
    → All (λ e. is_internal e.0 ≡ false) l
    → (user_only (internal_only m ++ l) ≡ l)
      × (internal_only (internal_only m ++ l) ≡ internal_only m)
unfolding user_only internal_only
user_only-append [] [] u = (refl, refl)
user_only-append [] (e ∷ l) u = ground (arith, user_only-append [] l u.1)
user_only-append (e ∷ m) l u = ground (arith, user_only-append m l u)

module _ (v : Text) where
  -- A write to one vault leaves the others.
  lookup-save_records :
      (c w : Text) (l : Records) (s : Memory)
      → w ≢ v
      → lookup dec_text w (save_records v c l s) ≡ lookup dec_text w s
  unfolding save_records set_in
  lookup-save_records c w [] s h = refl
  lookup-save_records c w (e ∷ l) s h =
      lookup-save_records c w l _ h
      ∙ ground (
        arith,
        lookup-insert dec_text v w
            (insert dec_text c
              (insert dec_text e.0 e.1 (or_empty (lookup dec_text c (collections v s))))
              (collections v s))
            s,
      )

  lookup-get_collection :
      (c w : Text) (s : Memory)
      → w ≢ v
      → lookup dec_text w (get_collection v c s).0 ≡ lookup dec_text w s
  unfolding get_collection ensure
  lookup-get_collection c w s h = ground (
    arith,
    lookup-insert dec_text v w (ensure c (collections v (ensure v s))) (ensure v s),
    lookup-insert dec_text v w [] s,
  )

  lookup-save_collections :
      (w : Text) (snapshot : VaultSnapshot) (s : Memory)
      → w ≢ v
      → lookup dec_text w (save_collections v snapshot s) ≡ lookup dec_text w s
  unfolding save_collections
  lookup-save_collections w [] s h = refl
  lookup-save_collections w ((c, r) ∷ l) s h =
      lookup-save_collections w l _ h
      ∙ lookup-save_records c w r _ h
      ∙ lookup-get_collection c w s h

  collections-clear_user :
      (s : Memory) → collections v (clear_user v s) ≡ internal_only (collections v s)
  unfolding clear_user internal_only
  collections-clear_user s =
      ground (arith, lookup-insert dec_text v v (internal_only (collections v s)) s)

  load_all-user_only : (s : Memory) → load_all v s ≡ user_only (collections v s)
  unfolding load_all user_only
  load_all-user_only s = ground arith

  lookup-clear_user :
      (w : Text) (s : Memory) → w ≢ v → lookup dec_text w (clear_user v s) ≡ lookup dec_text w s
  unfolding clear_user
  lookup-clear_user w s h =
      ground (arith, lookup-insert dec_text v w (internal_only (collections v s)) s)

  -- After `saveAll` of a snapshot with no internal collection, `loadAll` gives that snapshot back,
  -- in order; the internal collections of the vault and all other vaults are as before.
  pub load_all-save_all :
      (snapshot : VaultSnapshot) (s : Memory)
      → IsSnapshot snapshot
      → (load_all v (save_all v snapshot s) ≡ snapshot)
        × (internal_only (collections v (save_all v snapshot s)) ≡ internal_only (collections v s))
        × ((w : Text) → w ≢ v → lookup dec_text w (save_all v snapshot s) ≡ lookup dec_text w s)
  unfolding save_all
  load_all-save_all snapshot s h =
      let cleared = collections-clear_user s in
      let saved =
        save_collections_lem v snapshot (clear_user v s) h.distinct h.records
          (rw cleared (All-absent (collections v s) snapshot h.user))
        ∙ ap (λ m. m ++ snapshot) cleared in
      let parts = user_only-append (collections v s) snapshot h.user in
      (
        load_all-user_only _ ∙ ap user_only saved ∙ parts.0,
        ap internal_only saved ∙ parts.1,
        λ w ne. lookup-save_collections w snapshot (clear_user v s) ne ∙ lookup-clear_user w s ne,
      )
