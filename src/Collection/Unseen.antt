-- ===== src/Collection/Unseen.antt =====
-- The history and the ledger are written to collections of their own.
use noydb.Base.{
  ◌≡◌, ◌++◌, length, arith, ◌≢◌, ◌∙◌, refl, ap, ℕ, Option, none, some, List, [], ◌∷◌, Text, sort,
}
use noydb.Store.Views.{at_key_other, if_ok_same}
use noydb.Store.{Envelope, StoreError, Outcome, ok, thrown, NoydbStore, IsLawful}
use noydb.Crdt.{add_all}
use noydb.History.{
  PruneOptions, history_collection, history_id, save_history, prune_history, prune_found,
  prune_listed, matching, surplus, add_before, add_expired, delete_all, after_delete, counted,
}
use noydb.Patch
use noydb.Entry.{Platform, padded_index}
use noydb.Ledger
use noydb.Ledger.{
  LedgerState, LedgerError, LedgerOptions, AppendInput, Draw, Head, after, called, call,
  ledger_collection, deltas_collection, load_entries, decrypt_entry, load_all_entries, keep_head,
  load_head, get_cached_head, put_delta, write_entry, write_after, append, last,
}
use noydb.Ledger.Quiet.{
  ListsUnseen, shown, shown_by, Quiet, bind-Quiet, then-Quiet, call-Quiet, get_cached_head-Quiet,
}

module _ {S : Type 0} (store : NoydbStore S) (l : IsLawful store) (vault name id : Text) where
  pub put_other :
      (v c key : Text) (e : Envelope) (x : Option ℕ) (t : S)
      → name ≢ c
      → shown store l vault name id (store.put v c key e x t).0 ≡ shown store l vault name id t
  put_other v c key e x t h =
      IsLawful.put_view l v c key e x vault name id t
      ∙ (let same =
            at_key_other v c key vault name id (some e) (shown store l vault name id t)
              (λ p q. h q) in
          rw same (if_ok_same (store.put v c key e x t).1 (shown store l vault name id t)))

  pub delete_other :
      (v c key : Text) (t : S)
      → name ≢ c
      → shown store l vault name id (store.delete v c key t).0 ≡ shown store l vault name id t
  delete_other v c key t h =
      IsLawful.delete_view l v c key vault name id t
      ∙ (let same =
            at_key_other v c key vault name id none (shown store l vault name id t) (λ p q. h q) in
          rw same (if_ok_same (store.delete v c key t).1 (shown store l vault name id t)))

  module _ (apart : name ≢ history_collection) where
    after_other :
        (v : Text) (out : Outcome StoreError Unit) (rest : S × Outcome StoreError Unit) (s1 t : S)
        → shown store l vault name id rest.0 ≡ shown store l vault name id t
        → shown store l vault name id s1 ≡ shown store l vault name id t
        → shown store l vault name id (after_delete store v rest s1 out).0
          ≡ shown store l vault name id t
    unfolding after_delete
    after_other v (ok a) rest s1 t h k = h
    after_other v (thrown e) rest s1 t h k = k

    delete_all_other :
        (v : Text) (ids : List Text) (t : S)
        → shown store l vault name id (delete_all store v ids t).0 ≡ shown store l vault name id t
    unfolding delete_all
    delete_all_other v [] t = refl
    delete_all_other v (x ∷ ids) t =
        let p = store.delete v history_collection x t in
        after_other v p.1 (delete_all store v ids p.0) p.0 t
          (delete_all_other v ids p.0 ∙ delete_other v history_collection x t apart)
          (delete_other v history_collection x t apart)

    add_expired_other :
        (v date : Text) (ids found : List Text) (t : S)
        → shown store l vault name id (add_expired store v date ids found t).0
          ≡ shown store l vault name id t
    unfolding add_expired
    add_expired_other v date [] found t = refl
    add_expired_other v date (x ∷ ids) found t =
        let p = store.get v history_collection x t in
        let read : shown store l vault name id p.0 ≡ shown store l vault name id t =
          IsLawful.get_view l v history_collection x vault name id t in
        ground (
          arith,
          read,
          add_expired_other v date ids found t,
          add_expired_other v date ids found p.0,
          add_expired_other v date ids (found ++ x ∷ []) p.0,
        )

    add_before_other :
        (v : Text) (date : Option Text) (ids found : List Text) (t : S)
        → shown store l vault name id (add_before store v date ids found t).0
          ≡ shown store l vault name id t
    unfolding add_before
    add_before_other v none ids found t = refl
    add_before_other v (some []) ids found t = refl
    add_before_other v (some (c ∷ date)) ids found t = add_expired_other v (c ∷ date) ids found t

    counted_other :
        (v : Text) (n : ℕ) (p : S × Outcome StoreError Unit) → (counted store v n p).0 ≡ p.0
    counted_other v n (s, ok a) = refl
    counted_other v n (s, thrown e) = refl

    pub save_history_other :
        (v : Text) (padded : ℕ → Text) (c key : Text) (e : Envelope) (t : S)
        → shown store l vault name id (save_history store v padded c key e t).0
          ≡ shown store l vault name id t
    unfolding save_history
    save_history_other v padded c key e t =
        put_other v history_collection (history_id padded c key e.v) e none t apart

    found_other :
        (v : Text) (p : S × Outcome StoreError (List Text))
        → shown store l vault name id (prune_found store v p).0 ≡ shown store l vault name id p.0
    unfolding prune_found
    found_other v (s, thrown x) = refl
    found_other v (s, ok found) =
        ap (shown store l vault name id)
          (counted_other v (length (add_all [] found)) (delete_all store v (add_all [] found) s))
        ∙ delete_all_other v (add_all [] found) s

    listed_other :
        (v c : Text) (key : Option Text) (o : PruneOptions) (p : S × Outcome StoreError (List Text))
        → shown store l vault name id (prune_listed store v c key o p).0
          ≡ shown store l vault name id p.0
    unfolding prune_listed
    listed_other v c key o (s, thrown x) = refl
    listed_other v c key o (s, ok ids) =
        let sorted = sort (matching c key ids) in
        found_other v
          (add_before store v o.before_date sorted (surplus store v o.keep_versions sorted) s)
        ∙ add_before_other v o.before_date sorted (surplus store v o.keep_versions sorted) s

    pub prune_history_other :
        ListsUnseen store l
        → (v c : Text) (key : Option Text) (o : PruneOptions) (t : S)
        → shown store l vault name id (prune_history store v c key o t).0
          ≡ shown store l vault name id t
    unfolding prune_history
    prune_history_other lists v c key o t =
        listed_other v c key o (store.list v history_collection t)
        ∙ lists v history_collection vault name id t

  module _ (apart : name ≢ ledger_collection) (apart' : name ≢ deltas_collection)
      (platform : Platform) (options : LedgerOptions) where
    put_delta-Quiet :
        (n : ℕ) (d : Draw) (o : Option (List Patch.Op))
        → Quiet store l vault name id (put_delta platform options store n d o)
    unfolding put_delta
    put_delta-Quiet n d none = λ s. refl
    put_delta-Quiet n d (some ops) =
        let e = Ledger.encrypt_delta platform options store d ops in
        then-Quiet store l vault name id
          (call (store.put options.vault deltas_collection (padded_index n) e none))
          (Ledger.delta_hash_of platform options store e)
          (call-Quiet store l vault name id
            (store.put options.vault deltas_collection (padded_index n) e none)
            (λ t. put_other options.vault deltas_collection (padded_index n) e none t apart'))
          (λ s. refl)

    write_entry-Quiet :
        (input : AppendInput) (d : Draw) (h : Option Head) (o : Option Text)
        → Quiet store l vault name id (write_entry platform options store input d h o)
    unfolding write_entry
    write_entry-Quiet input d h o =
        let entry = Ledger.next_entry platform options store h input d.now o in
        let e = Ledger.encrypt_entry platform options store d.vector entry in
        then-Quiet store l vault name id
          (call (store.put options.vault ledger_collection (padded_index entry.index) e none))
          (Ledger.written platform options store entry)
          (call-Quiet store l vault name id
            (store.put options.vault ledger_collection (padded_index entry.index) e none)
            (λ t.
              put_other options.vault ledger_collection (padded_index entry.index) e none t apart))
          (λ s. refl)

    pub append-Quiet :
        ListsUnseen store l
        → (input : AppendInput) (d e : Draw) (s : LedgerState S)
        → shown_by store l vault name id (append platform options store input d e s).0
          ≡ shown_by store l vault name id s
    unfolding append
    append-Quiet lists input d e =
        bind-Quiet store l vault name id (get_cached_head platform options store)
          (Ledger.write_after platform options store input d e)
          (get_cached_head-Quiet store l vault name id platform options lists)
          (λ h.
            bind-Quiet store l vault name id
              (put_delta platform options store (Ledger.next_index h) d input.delta)
              (Ledger.write_entry platform options store input e h)
              (put_delta-Quiet (Ledger.next_index h) d input.delta) (write_entry-Quiet input e h))
