-- ===== src/Ledger/Quiet.antt =====
-- What the reads of the ledger leave of what the store shows.
use noydb.Base.{◌≡◌, ◌∙◌, refl, Option, none, some, List, [], ◌∷◌, Text, sort}
use noydb.Store.{Envelope, StoreError, Outcome, ok, thrown, Method, NoydbStore, IsLawful}
use noydb.Entry.{Platform, LedgerEntry}
use noydb.Ledger
use noydb.Ledger.{
  LedgerState, LedgerError, LedgerOptions, Head, after, called, call, ledger_collection,
  load_entries, decrypt_entry, load_all_entries, keep_head, load_head, get_cached_head, last,
}

-- What is asked of the store beside the contract: a list changes nothing that is shown.
abbrev pub ListsUnseen : {S : Type 0} → (store : NoydbStore S) → IsLawful store → Type 0
ListsUnseen {S} store l =
    (v c w d j : Text) (s : S)
    → IsLawful.view l w d j (store.list v c s).0 ≡ IsLawful.view l w d j s

module _ {S : Type 0} (store : NoydbStore S) (l : IsLawful store) (vault name id : Text) where
  abbrev pub shown : S → Option Envelope
  shown t = IsLawful.view l vault name id t

  abbrev pub shown_by : LedgerState S → Option Envelope
  shown_by s = shown s.store

  pub after_shown :
      {A B : Type 0} (f : A → Ledger.Action S B) (p : LedgerState S × Outcome LedgerError A)
      → ((a : A) (s : LedgerState S) → shown_by (f a s).0 ≡ shown_by s)
      → shown_by (after f p).0 ≡ shown_by p.0
  after_shown f (s, ok a) h = h a s
  after_shown f (s, thrown e) h = refl

  pub called_shown :
      {A : Type 0} (cache : Option (Option Head)) (r : S × Outcome StoreError A)
      → shown_by (called cache r).0 ≡ shown r.0
  called_shown cache (t, ok a) = refl
  called_shown cache (t, thrown e) = refl

  -- The action is not seen at the record.
  abbrev pub Quiet : {A : Type 0} → Ledger.Action S A → Type 0
  Quiet m = (s : LedgerState S) → shown_by (m s).0 ≡ shown_by s

  pub bind-Quiet :
      {A B : Type 0} (m : Ledger.Action S A) (f : A → Ledger.Action S B)
      → Quiet m
      → ((a : A) → Quiet (f a))
      → Quiet (Ledger.◌>>=◌ m f)
  bind-Quiet m f h g s = after_shown f (m s) g ∙ h s

  pub then-Quiet :
      {A B : Type 0} (m : Ledger.Action S A) (k : Ledger.Action S B)
      → Quiet m
      → Quiet k
      → Quiet (Ledger.◌>>◌ m k)
  then-Quiet m k h g s = after_shown (λ a. k) (m s) (λ a. g) ∙ h s

  pub or_throw-Quiet : {A : Type 0} (e : LedgerError) (o : Option A) → Quiet (Ledger.or_throw e o)
  or_throw-Quiet e none s = refl
  or_throw-Quiet e (some a) s = refl

  pub call-Quiet :
      {A : Type 0} (m : Method S A) → ((t : S) → shown (m t).0 ≡ shown t) → Quiet (call m)
  call-Quiet m h s = called_shown s.head_cache (m s.store) ∙ h s.store

  module _ (platform : Platform) (options : LedgerOptions) where
    pub decrypt_entry-Quiet : (e : Envelope) → Quiet (decrypt_entry platform options store e)
    unfolding decrypt_entry
    decrypt_entry-Quiet e =
        bind-Quiet (Ledger.or_throw Ledger.decryption (Ledger.unseal platform options store e))
          (λ json. Ledger.or_throw Ledger.syntax (platform.parse_entry json))
          (or_throw-Quiet Ledger.decryption (Ledger.unseal platform options store e))
          (λ json. or_throw-Quiet Ledger.syntax (platform.parse_entry json))

    abbrev pub entries_with : List Text → LedgerEntry → Ledger.Action S (List LedgerEntry)
    entries_with keys entry =
        Ledger.◌>>=◌ (load_entries platform options store keys)
          (λ entries. Ledger.return (entry ∷ entries))

    abbrev pub entries_after : List Text → Option Envelope → Ledger.Action S (List LedgerEntry)
    entries_after keys found = elim found [
      | none ↦ load_entries platform options store keys
      | some e ↦ Ledger.◌>>=◌ (decrypt_entry platform options store e) (entries_with keys)
    ]

    pub load_entries-Quiet : (keys : List Text) → Quiet (load_entries platform options store keys)
    unfolding load_entries
    load_entries-Quiet [] s = refl
    load_entries-Quiet (key ∷ keys) s =
        bind-Quiet (call (store.get options.vault ledger_collection key)) (entries_after keys)
          (call-Quiet (store.get options.vault ledger_collection key)
            (λ t. IsLawful.get_view l options.vault ledger_collection key vault name id t))
          (λ found. elim found as (λ o. Quiet (entries_after keys o)) [
            | none ↦ load_entries-Quiet keys
            | some e ↦
                bind-Quiet (decrypt_entry platform options store e) (entries_with keys)
                  (decrypt_entry-Quiet e)
                  (λ entry.
                    bind-Quiet (load_entries platform options store keys)
                      (λ entries. Ledger.return (entry ∷ entries)) (load_entries-Quiet keys)
                      (λ entries t. refl))
          ])
          s

    pub keep_head-Quiet : (e : Option LedgerEntry) → Quiet (keep_head platform options store e)
    keep_head-Quiet none s = refl
    keep_head-Quiet (some e) s = refl

    pub load_head-Quiet : ListsUnseen store l → Quiet (load_head platform options store)
    unfolding load_head load_all_entries
    load_head-Quiet lists =
        bind-Quiet (load_all_entries platform options store)
          (λ entries. keep_head platform options store (last entries))
          (bind-Quiet (call (store.list options.vault ledger_collection))
            (λ keys. load_entries platform options store (sort keys))
            (call-Quiet (store.list options.vault ledger_collection)
              (λ t. lists options.vault ledger_collection vault name id t))
            (λ keys. load_entries-Quiet (sort keys)))
          (λ entries. keep_head-Quiet (last entries))

    pub get_cached_head-Quiet : ListsUnseen store l → Quiet (get_cached_head platform options store)
    unfolding get_cached_head
    get_cached_head-Quiet lists s =
        elim s.head_cache
          as (λ o.
            shown_by (
              let p : LedgerState S × Outcome LedgerError (Option Head) = elim o [
                | some h ↦ (s, ok h)
                | none ↦ load_head platform options store s
              ] in
              p.0)
            ≡ shown_by s) [ some h ↦ refl | none ↦ load_head-Quiet lists s ]
