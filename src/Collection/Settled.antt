-- ===== src/Collection/Settled.antt =====
-- When the steps of `put` and `delete` settle.
use noydb.Base.{
  ◌≢◌, ◌∙◌, sym, if◌then◌else◌, arith, ◌≡◌, ℕ, zero, suc, Bool, true, false, Option, none, some,
  List, Text,
}
use noydb.Json.{Json}
use noydb.Store.{Envelope, Method, IsLawful}
use noydb.Store.Answers.{IsOk, Answers}
use noydb.Sync.{Action}
use noydb.History.{history_collection, PruneOptions, prune_history, save_history}
use noydb.Patch
use noydb.Entry
use noydb.Entry.{EntryOp}
use noydb.Ledger.{ledger_collection, LedgerOptions}
use noydb.Keyring.{has_write_permission}
use noydb.Collection.{
  history_save, throw, read_only, missing_translation, ◌>>◌, Cached, CollectionError, Config,
  Collection, Draws, RefEnforcer, return, call, on_ledger, emit, encrypt_record,
}
use noydb.Collection.Writes
use noydb.Collection.Held.{Triple, then-Triple}
use noydb.Collection.Steps.{if-Triple}
use noydb.Collection.Unseen.{save_history_other, prune_history_other}
use noydb.Ledger.Quiet.{ListsUnseen}
use noydb.Ledger.Opening.{IsReadable, append-IsOk}
use noydb.History.Answered.{prune_listed-IsOk}
use noydb.Collection.Running.{
  Runs, Always, then-Always, first-Runs, all-Settles, call-Always, as_ledger_error-IsOk,
}

module _ {S : Type 0} (cfg : Config S) (l : IsLawful cfg.adapter) where
  -- The entries of the ledger, if there is one, can be read.
  abbrev pub IsReady : Collection S → Type 0
  IsReady s =
      (q : Entry.Platform) (o : LedgerOptions)
      → cfg.ledger_config ≡ some (q, o)
      → IsReadable cfg.adapter l q o s.ledger_state.store

  -- Nothing that a write calls refuses it. What checks the references may write to the ledger, and
  -- leaves entries that can be read.
  pub record IsWilling : Type 0 where
    pub answers : Answers cfg.adapter
    pub may_write : has_write_permission cfg.keyring cfg.name ≡ true
    pub translated : (f : Json → Bool) (v : Json) → cfg.i18n_put_validator ≡ some f → f v ≡ true
    pub puts_refer :
        (r : RefEnforcer S) (v : Json) (s : Collection S)
        → cfg.ref_enforcer ≡ some r
        → IsReady s
        → IsOk (r.on_put v s).1 × IsReady (r.on_put v s).0
    pub deletes_refer :
        (r : RefEnforcer S) (id : Text) (s : Collection S)
        → cfg.ref_enforcer ≡ some r
        → IsReady s
        → IsOk (r.on_delete id s).1 × IsReady (r.on_delete id s).0
    pub marks : (id : Text) (a : Action) (n : ℕ) → IsOk (cfg.on_dirty id a n)

  -- A call that is not seen in the ledger of any vault.
  abbrev LedgerUnseen : {A : Type 0} → Method S A → Type 0
  LedgerUnseen m =
      (v key : Text) (t : S)
      → IsLawful.view l v ledger_collection key (m t).0 ≡ IsLawful.view l v ledger_collection key t

  pub call-Ready :
      {A : Type 0} (m : Method S A) → LedgerUnseen m → Triple IsReady (call m) (λ a. IsReady)
  call-Ready m h s r =
      all-Settles IsReady (call m s)
        (λ q o e key x k. r q o e key x (sym (h o.vault key s.ledger_state.store) ∙ k))

  if-Runs :
      (b : Bool) (e : CollectionError)
      → b ≡ true
      → Runs {S = S} Always (if b then return tt else throw e)
  if-Runs true e h s k = tt
  if-Runs false e h s k = absurd (ground (arith, h))

  module _ (w : IsWilling) (lists : ListsUnseen cfg.adapter l) where
    pub permission-Runs : Runs Always (Writes.check_permission cfg)
    unfolding Writes.check_permission
    permission-Runs = if-Runs (has_write_permission cfg.keyring cfg.name) read_only w.may_write

    pub permission-Ready : Triple IsReady (Writes.check_permission cfg) (λ a. IsReady)
    unfolding Writes.check_permission
    permission-Ready = if-Triple IsReady (has_write_permission cfg.keyring cfg.name) read_only

    pub translations-Runs :
        (o : Option (Json → Bool)) (v : Json)
        → cfg.i18n_put_validator ≡ o
        → Runs Always (Writes.check_translations cfg o v)
    translations-Runs none v e = λ s h. tt
    translations-Runs (some f) v e = if-Runs (f v) missing_translation (w.translated f v e)

    pub translations-Ready :
        (o : Option (Json → Bool)) (v : Json)
        → Triple IsReady (Writes.check_translations cfg o v) (λ a. IsReady)
    translations-Ready none v = λ s h. h
    translations-Ready (some f) v = if-Triple IsReady (f v) missing_translation

    pub check_put-Ready :
        (o : Option (RefEnforcer S)) (v : Json)
        → cfg.ref_enforcer ≡ o
        → (s : Collection S) → IsReady s
        → IsOk (Writes.check_put cfg o v s).1 × IsReady (Writes.check_put cfg o v s).0
    check_put-Ready none v e s h = (tt, h)
    check_put-Ready (some r) v e s h = w.puts_refer r v s e h

    pub check_delete-Ready :
        (o : Option (RefEnforcer S)) (id : Text)
        → cfg.ref_enforcer ≡ o
        → (s : Collection S) → IsReady s
        → IsOk (Writes.check_delete cfg o id s).1 × IsReady (Writes.check_delete cfg o id s).0
    check_delete-Ready none id e s h = (tt, h)
    check_delete-Ready (some r) id e s h = w.deletes_refer r id s e h

    prune-Runs : (id : Text) (o : Option ℕ) → Runs Always (Writes.prune_after cfg id o)
    unfolding prune_history
    prune-Runs id none = λ s h. tt
    prune-Runs id (some zero) = λ s h. tt
    prune-Runs id (some (suc n)) =
        let o : PruneOptions = record { keep_versions = some (suc n); before_date = none } in
        let m = prune_history cfg.adapter cfg.vault cfg.name (some id) o in
        then-Always (call m) (return tt)
          (call-Always m (λ t.
            prune_listed-IsOk cfg.adapter w.answers cfg.vault cfg.name (some id) (suc n)
              (cfg.adapter.list cfg.vault history_collection t)
              (Answers.list_answers w.answers cfg.vault history_collection t)))
          (λ s h. tt)

    save-Runs :
        (draws : Draws) (id : Text) (v : Cached) → Runs Always (Writes.save_version cfg draws id v)
    unfolding save_history
    save-Runs draws id v =
        call-Always
          (save_history cfg.adapter cfg.vault cfg.platform.padded cfg.name id
            (encrypt_record cfg draws.for_history v.value v.version))
          (λ t. Answers.put_answers w.answers cfg.vault history_collection _ _ t)

    pub keep_version-Runs :
        (draws : Draws) (id : Text) (b : Bool) (o : Option Cached)
        → Runs Always (Writes.keep_version cfg draws id b o)
    unfolding Writes.keep_version
    keep_version-Runs draws id true (some v) =
        let save = Writes.save_version cfg draws id v in
        then-Always (save >> emit _) (Writes.prune_after cfg id cfg.history_config.max_versions)
          (then-Always save (emit _) (save-Runs draws id v) (λ s h. tt))
          (prune-Runs id cfg.history_config.max_versions)
    keep_version-Runs draws id true none = λ s h. tt
    keep_version-Runs draws id false o = λ s h. tt

    pub keep_deleted-Runs :
        (draws : Draws) (id : Text) (b : Bool) (o : Option Cached)
        → Runs Always (Writes.keep_deleted cfg draws id b o)
    unfolding Writes.keep_deleted
    keep_deleted-Runs draws id true (some v) = save-Runs draws id v
    keep_deleted-Runs draws id true none = λ s h. tt
    keep_deleted-Runs draws id false o = λ s h. tt

    ledger_apart : ledger_collection ≢ history_collection
    ledger_apart e = ground (arith, e)

    prune-Ready :
        (id : Text) (o : Option ℕ) → Triple IsReady (Writes.prune_after cfg id o) (λ a. IsReady)
    prune-Ready id none = λ s h. h
    prune-Ready id (some zero) = λ s h. h
    prune-Ready id (some (suc n)) =
        let o : PruneOptions = record { keep_versions = some (suc n); before_date = none } in
        let m = prune_history cfg.adapter cfg.vault cfg.name (some id) o in
        then-Triple (λ a. IsReady) (call m) (return tt)
          (call-Ready m (λ v key t.
            prune_history_other cfg.adapter l v ledger_collection key ledger_apart lists cfg.vault
              cfg.name (some id) o t))
          (λ s h. h)

    save-Ready :
        (draws : Draws) (id : Text) (v : Cached)
        → Triple IsReady (Writes.save_version cfg draws id v) (λ a. IsReady)
    save-Ready draws id v =
        let e = encrypt_record cfg draws.for_history v.value v.version in
        call-Ready (save_history cfg.adapter cfg.vault cfg.platform.padded cfg.name id e)
          (λ w key t.
            save_history_other cfg.adapter l w ledger_collection key ledger_apart cfg.vault
              cfg.platform.padded cfg.name id e t)

    pub keep_version-Ready :
        (draws : Draws) (id : Text) (b : Bool) (o : Option Cached)
        → Triple IsReady (Writes.keep_version cfg draws id b o) (λ a. IsReady)
    unfolding Writes.keep_version
    keep_version-Ready draws id true (some v) =
        let save = Writes.save_version cfg draws id v in
        then-Triple (λ a. IsReady) (save >> emit (history_save id v.version))
          (Writes.prune_after cfg id cfg.history_config.max_versions)
          (then-Triple (λ a. IsReady) save (emit (history_save id v.version))
            (save-Ready draws id v) (λ s h. h))
          (prune-Ready id cfg.history_config.max_versions)
    keep_version-Ready draws id true none = λ s h. h
    keep_version-Ready draws id false o = λ s h. h

    pub keep_deleted-Ready :
        (draws : Draws) (id : Text) (b : Bool) (o : Option Cached)
        → Triple IsReady (Writes.keep_deleted cfg draws id b o) (λ a. IsReady)
    unfolding Writes.keep_deleted
    keep_deleted-Ready draws id true (some v) = save-Ready draws id v
    keep_deleted-Ready draws id true none = λ s h. h
    keep_deleted-Ready draws id false o = λ s h. h

    pub append-Runs :
        (draws : Draws) (o : Option (Entry.Platform × LedgerOptions)) (op : EntryOp) (id : Text)
        (n : ℕ) (e : Option Envelope) (delta : Option (List Patch.Op))
        → cfg.ledger_config ≡ o
        → Runs IsReady (Writes.append_entry cfg draws o op id n e delta)
    unfolding Writes.append_entry
    append-Runs draws none op id n e delta k = λ s h. tt
    append-Runs draws (some (q, o)) op id n e delta k =
        first-Runs IsReady (on_ledger _) (return tt)
          (λ s h.
            as_ledger_error-IsOk _
              (append-IsOk cfg.adapter l w.answers q o lists _ _ _ s.ledger_state (h q o k)))
          (λ s h. tt)
