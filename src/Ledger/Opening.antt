-- ===== src/Ledger/Opening.antt =====
-- When `append` settles: where the store answers and the entries that it shows can be read.
use noydb.Base.{◌≡◌, ◌∙◌, sym, refl, ℕ, Option, none, some, List, [], ◌∷◌, Text, sort}
use noydb.Store.{Envelope, StoreError, Outcome, ok, thrown, NoydbStore, IsLawful}
use noydb.Store.Answers.{IsOk, Answers}
use noydb.Patch
use noydb.Entry.{Platform, LedgerEntry, padded_index}
use noydb.Ledger
use noydb.Ledger.{
  LedgerState, LedgerError, LedgerOptions, AppendInput, Draw, Head, after, called, call,
  ledger_collection, deltas_collection, load_entries, decrypt_entry, load_all_entries, keep_head,
  load_head, get_cached_head, put_delta, write_entry, write_after, append, last,
}
use noydb.Ledger.Quiet.{
  ListsUnseen, Quiet, entries_with, entries_after, bind-Quiet, call-Quiet, decrypt_entry-Quiet,
  load_entries-Quiet,
}

module _ {S : Type 0} (store : NoydbStore S) (l : IsLawful store) (platform : Platform)
    (options : LedgerOptions) where
  -- The envelope decrypts to an entry.
  abbrev pub Opens : Envelope → Type 0
  Opens e = (s : LedgerState S) → IsOk (decrypt_entry platform options store e s).1

  -- Every entry that the store shows can be read.
  abbrev pub IsReadable : S → Type 0
  IsReadable t =
      (key : Text) (e : Envelope)
      → IsLawful.view l options.vault ledger_collection key t ≡ some e
      → Opens e

module _ {S : Type 0} (store : NoydbStore S) (l : IsLawful store) (answers : Answers store)
    (platform : Platform) (options : LedgerOptions) where
  abbrev Settling : {A : Type 0} → Ledger.Action S A → Type 0
  Settling m = (s : LedgerState S) → IsReadable store l platform options s.store → IsOk (m s).1

  abbrev Unseen : {A : Type 0} → Ledger.Action S A → Type 0
  Unseen m = (key : Text) → Quiet store l options.vault ledger_collection key m

  IsReadable-same :
      (t u : S)
      → ((key : Text)
          → IsLawful.view l options.vault ledger_collection key u
            ≡ IsLawful.view l options.vault ledger_collection key t)
      → IsReadable store l platform options t
      → IsReadable store l platform options u
  IsReadable-same t u h r key e k = r key e (sym (h key) ∙ k)

  after-Settling :
      {A B : Type 0} (f : A → Ledger.Action S B) (p : LedgerState S × Outcome LedgerError A)
      → IsOk p.1
      → IsReadable store l platform options p.0.store
      → ((a : A) → Settling (f a))
      → IsOk (after f p).1
  after-Settling f (s, ok a) h r g = g a s r
  after-Settling f (s, thrown e) h r g = absurd h

  bind-Settling :
      {A B : Type 0} (m : Ledger.Action S A) (f : A → Ledger.Action S B)
      → Settling m
      → Unseen m
      → ((a : A) → Settling (f a))
      → Settling (Ledger.◌>>=◌ m f)
  bind-Settling m f h u g s r =
      after-Settling f (m s) (h s r) (IsReadable-same s.store (m s).0.store (λ key. u key s) r) g

  called-IsOk :
      {A : Type 0} (cache : Option (Option Head)) (r : S × Outcome StoreError A)
      → IsOk r.1
      → IsOk (called cache r).1
  called-IsOk cache (t, ok a) h = tt
  called-IsOk cache (t, thrown e) h = absurd h

  entries_with-Settling :
      (keys : List Text) (e : LedgerEntry)
      → Settling (load_entries platform options store keys)
      → Settling (entries_with store l options.vault ledger_collection [] platform options keys e)
  entries_with-Settling keys e h =
      bind-Settling (load_entries platform options store keys) (λ es. Ledger.return (e ∷ es)) h
        (λ key.
          load_entries-Quiet store l options.vault ledger_collection key platform options keys)
        (λ es s r. tt)

  -- What follows the read of one key.
  found-IsOk :
      (keys : List Text) (cache : Option (Option Head))
      (r : S × Outcome StoreError (Option Envelope))
      → IsOk r.1
      → IsReadable store l platform options r.0
      → ((e : Envelope) → r.1 ≡ ok (some e) → Opens store l platform options e)
      → Settling (load_entries platform options store keys)
      → IsOk
          (after
            (entries_after store l options.vault ledger_collection [] platform options keys)
            (called cache r)).1
  found-IsOk keys cache (t, thrown x) h r o g = absurd h
  found-IsOk keys cache (t, ok none) h r o g = g (record { store = t; head_cache = cache }) r
  found-IsOk keys cache (t, ok (some e)) h r o g =
      bind-Settling (decrypt_entry platform options store e)
        (entries_with store l options.vault ledger_collection [] platform options keys)
        (λ s k. o e refl s)
        (λ key. decrypt_entry-Quiet store l options.vault ledger_collection key platform options e)
        (λ entry. entries_with-Settling keys entry g) (record { store = t; head_cache = cache }) r

  load_entries-Settling : (keys : List Text) → Settling (load_entries platform options store keys)
  unfolding load_entries
  load_entries-Settling [] = λ s r. tt
  load_entries-Settling (key ∷ keys) = λ s r.
      let p = store.get options.vault ledger_collection key s.store in
      found-IsOk keys s.head_cache p
        (Answers.get_answers answers options.vault ledger_collection key s.store)
        (IsReadable-same s.store p.0
          (λ j.
            IsLawful.get_view l options.vault ledger_collection key options.vault ledger_collection
              j s.store)
          r)
        (λ e h.
          r key e (sym (IsLawful.get_ok l options.vault ledger_collection key s.store (some e) h)))
        (load_entries-Settling keys)

  load_head-Settling : ListsUnseen store l → Settling (load_head platform options store)
  unfolding load_head load_all_entries
  load_head-Settling lists =
      let list = store.list options.vault ledger_collection in
      let quiet : Unseen (call list) = λ key.
        call-Quiet store l options.vault ledger_collection key list
          (λ t. lists options.vault ledger_collection options.vault ledger_collection key t) in
      bind-Settling (load_all_entries platform options store)
        (λ entries. keep_head platform options store (last entries))
        (bind-Settling (call list) (λ keys. load_entries platform options store (sort keys))
          (λ s r.
            called-IsOk s.head_cache (list s.store)
              (Answers.list_answers answers options.vault ledger_collection s.store))
          quiet (λ keys. load_entries-Settling (sort keys)))
        (λ key.
          bind-Quiet store l options.vault ledger_collection key (call list)
            (λ keys. load_entries platform options store (sort keys)) (quiet key)
            (λ keys.
              load_entries-Quiet store l options.vault ledger_collection key platform options
                (sort keys)))
        (λ entries. kept (last entries))
    where
      kept : (o : Option LedgerEntry) → Settling (keep_head platform options store o)
      kept none s r = tt
      kept (some e) s r = tt

  get_cached_head-Settling : ListsUnseen store l → Settling (get_cached_head platform options store)
  unfolding get_cached_head
  get_cached_head-Settling lists s r =
      elim s.head_cache
        as (λ o. IsOk (
          let p : LedgerState S × Outcome LedgerError (Option Head) = elim o [
            | some h ↦ (s, ok h)
            | none ↦ load_head platform options store s
          ] in
          p.1)) [ some h ↦ tt | none ↦ load_head-Settling lists s r ]

  after-IsOk :
      {A B : Type 0} (f : A → Ledger.Action S B) (p : LedgerState S × Outcome LedgerError A)
      → IsOk p.1
      → ((a : A) (s : LedgerState S) → IsOk (f a s).1)
      → IsOk (after f p).1
  after-IsOk f (s, ok a) h g = g a s
  after-IsOk f (s, thrown e) h g = absurd h

  put_delta-IsOk :
      (n : ℕ) (d : Draw) (o : Option (List Patch.Op)) (s : LedgerState S)
      → IsOk (put_delta platform options store n d o s).1
  unfolding put_delta
  put_delta-IsOk n d none s = tt
  put_delta-IsOk n d (some ops) s =
      after-IsOk
        (λ a.
          Ledger.delta_hash_of platform options store
            (Ledger.encrypt_delta platform options store d ops))
        _
        (called-IsOk s.head_cache _ (
          Answers.put_answers answers options.vault deltas_collection (padded_index n)
            (Ledger.encrypt_delta platform options store d ops) s.store))
        (λ a t. tt)

  write_entry-IsOk :
      (input : AppendInput) (d : Draw) (h : Option Head) (o : Option Text) (s : LedgerState S)
      → IsOk (write_entry platform options store input d h o s).1
  unfolding write_entry
  write_entry-IsOk input d h o s =
      let entry = Ledger.next_entry platform options store h input d.now o in
      after-IsOk (λ a. Ledger.written platform options store entry) _
        (called-IsOk s.head_cache _ (
          Answers.put_answers answers options.vault ledger_collection (padded_index entry.index)
            (Ledger.encrypt_entry platform options store d.vector entry) s.store))
        (λ a t. tt)

  pub append-IsOk :
      ListsUnseen store l
      → (input : AppendInput) (d e : Draw) (s : LedgerState S)
      → IsReadable store l platform options s.store
      → IsOk (append platform options store input d e s).1
  unfolding append
  append-IsOk lists input d e s r =
      after-IsOk (write_after platform options store input d e) _
        (get_cached_head-Settling lists s r)
        (λ h t.
          after-IsOk (write_entry platform options store input e h) _
            (put_delta-IsOk (Ledger.next_index h) d input.delta t)
            (λ o u. write_entry-IsOk input e h o u))
