-- ===== src/Collection/Steps.antt =====
-- What each step of a put and of a delete leaves of the cache, the indexes and the store.
use mathlib.Core.Path.{subst}
use noydb.Base.{
  ◌≡◌, ◌∙◌, sym, refl, ap, ℕ, zero, suc, Bool, true, false, if◌then◌else◌, Option, none, some, List,
  lookup, Text, dec_text,
}
use noydb.Dict
use noydb.Dict.{insert, lookup-insert, lookup-remove}
use noydb.Json.{Json}
use noydb.Store.{Envelope, Outcome, ok, thrown, IsLawful}
use noydb.Sync.{Action}
use noydb.History.{PruneOptions, prune_history, save_history}
use noydb.Patch
use noydb.Entry
use noydb.Entry.{EntryOp}
use noydb.Ledger
use noydb.Ledger.{LedgerOptions, ledger_collection, deltas_collection}
use noydb.Indexes
use noydb.Keyring.{has_write_permission}
use noydb.Indexes.{CollectionIndexes}
use noydb.Collection.{
  read_only, missing_translation, throw, ◌>>◌, Cached, CollectionError, Config, Collection, Draws,
  RefEnforcer, history_save, changed, next, return, settle, call, on_ledger, emit, value_of,
  encrypt_record, ensure_hydrated, hydrate_if,
}
use noydb.Collection.Writes
use noydb.Collection.Sound.{IsSound}
use noydb.Collection.Held.{
  Settles, Triple, then-Triple, Holds, call-Holds, on_ledger-Holds, emit-Holds,
}
use noydb.Collection.Unseen.{save_history_other, prune_history_other, append-Quiet}

pub if-Triple :
    {S : Type 0} (P : Collection S → Type 0) (b : Bool) (e : CollectionError)
    → Triple P (if b then return tt else throw e) (λ a. P)
if-Triple P true e s h = h
if-Triple P false e s h = tt

module _ {S : Type 0} (cfg : Config S) (l : IsLawful cfg.adapter) (p : IsSound cfg l)
    (c : List (Text × Cached)) (x : CollectionIndexes) (f : Text → Option Envelope) where
  abbrev H : Collection S → Type 0
  H = Holds cfg l c x f

  pub permission-Triple : Triple H (Writes.check_permission cfg) (λ a. H)
  unfolding Writes.check_permission
  permission-Triple = if-Triple H (has_write_permission cfg.keyring cfg.name) read_only

  pub translations-Triple :
      (o : Option (Json → Bool)) (v : Json) → Triple H (Writes.check_translations cfg o v) (λ a. H)
  translations-Triple none v s h = h
  translations-Triple (some valid) v s h = if-Triple H (valid v) missing_translation s h

  pub check_put-Triple :
      (o : Option (RefEnforcer S)) (v : Json)
      → cfg.ref_enforcer ≡ o
      → Triple H (Writes.check_put cfg o v) (λ a. H)
  check_put-Triple none v e s h = h
  check_put-Triple (some r) v e s h = p.puts_elsewhere r v c x f e s h

  pub check_delete-Triple :
      (o : Option (RefEnforcer S)) (id : Text)
      → cfg.ref_enforcer ≡ o
      → Triple H (Writes.check_delete cfg o id) (λ a. H)
  check_delete-Triple none id e s h = h
  check_delete-Triple (some r) id e s h = p.deletes_elsewhere r id c x f e s h

  pub previous-Triple :
      (id : Text) → Triple H (Writes.previous cfg id) (λ o s. H s × (o ≡ lookup dec_text id c))
  unfolding Writes.previous ensure_hydrated
  previous-Triple id s h =
      subst (Settles (λ o t. H t × (o ≡ lookup dec_text id c)))
        (sym (
          ap (λ o. Writes.previous_in cfg id o s) h.eager
          ∙ ap (λ b. next (λ u t. (t, ok (lookup dec_text id t.cache))) (hydrate_if cfg b s))
              h.is_hydrated))
        (h, ap (lookup dec_text id) h.cache_is)

  pub deleted-Triple :
      (id : Text) → Triple H (Writes.deleted cfg id) (λ o s. H s × (o ≡ lookup dec_text id c))
  unfolding Writes.deleted
  deleted-Triple id s h =
      subst (Settles (λ o t. H t × (o ≡ lookup dec_text id c)))
        (sym (
          ap (λ o. Writes.deleted_in cfg cfg.history_config.enabled id o s) h.eager
          ∙ no_lru cfg.history_config.enabled id s))
        (h, ap (lookup dec_text id) h.cache_is)
    where
      no_lru :
          (b : Bool) (id : Text) (s : Collection S)
          → Writes.deleted_in cfg b id none s ≡ (s, ok (lookup dec_text id s.cache))
      no_lru true id s = refl
      no_lru false id s = refl

  prune-Triple : (id : Text) (o : Option ℕ) → Triple H (Writes.prune_after cfg id o) (λ a. H)
  prune-Triple id none s h = h
  prune-Triple id (some zero) s h = h
  prune-Triple id (some (suc n)) s h =
      let o : PruneOptions = record { keep_versions = some (suc n); before_date = none } in
      let m = prune_history cfg.adapter cfg.vault cfg.name (some id) o in
      then-Triple (λ a. H) (call m) (return tt)
        (call-Holds cfg l m (λ j t.
          prune_history_other cfg.adapter l cfg.vault cfg.name j p.no_history p.lists cfg.vault
            cfg.name (some id) o t))
        (λ t k. k) s h

  save-Triple :
      (draws : Draws) (id : Text) (v : Cached)
      → Triple H (Writes.save_version cfg draws id v) (λ a. H)
  save-Triple draws id v =
      let e = encrypt_record cfg draws.for_history v.value v.version in
      call-Holds cfg l (save_history cfg.adapter cfg.vault cfg.platform.padded cfg.name id e)
        (λ j t.
          save_history_other cfg.adapter l cfg.vault cfg.name j p.no_history cfg.vault
            cfg.platform.padded cfg.name id e t)

  pub keep_version-Triple :
      (draws : Draws) (id : Text) (b : Bool) (o : Option Cached)
      → Triple H (Writes.keep_version cfg draws id b o) (λ a. H)
  unfolding Writes.keep_version
  keep_version-Triple draws id false o s h = h
  keep_version-Triple draws id true none s h = h
  keep_version-Triple draws id true (some v) s h =
      then-Triple (λ a. H) (Writes.save_version cfg draws id v >> emit (history_save id v.version))
        (Writes.prune_after cfg id cfg.history_config.max_versions)
        (then-Triple (λ a. H) (Writes.save_version cfg draws id v)
          (emit (history_save id v.version)) (save-Triple draws id v)
          (emit-Holds cfg l (history_save id v.version)))
        (prune-Triple id cfg.history_config.max_versions) s h

  pub keep_deleted-Triple :
      (draws : Draws) (id : Text) (b : Bool) (o : Option Cached)
      → Triple H (Writes.keep_deleted cfg draws id b o) (λ a. H)
  unfolding Writes.keep_deleted
  keep_deleted-Triple draws id false o s h = h
  keep_deleted-Triple draws id true none s h = h
  keep_deleted-Triple draws id true (some v) s h = save-Triple draws id v s h

  pub append-Triple :
      (draws : Draws) (o : Option (Entry.Platform × LedgerOptions)) (op : EntryOp) (id : Text)
      (n : ℕ) (e : Option Envelope) (delta : Option (List Patch.Op))
      → Triple H (Writes.append_entry cfg draws o op id n e delta) (λ a. H)
  unfolding Writes.append_entry
  append-Triple draws none op id n e delta s h = h
  append-Triple draws (some (platform, options)) op id n e delta s h =
      let input : Ledger.AppendInput = record {
        op = op;
        collection = cfg.name;
        id = id;
        version = n;
        actor = cfg.user_id;
        payload_hash = Entry.envelope_payload_hash platform e;
        delta = delta;
      } in
      let m = Ledger.append platform options cfg.adapter input draws.for_delta draws.for_entry in
      then-Triple (λ a. H) (on_ledger m) (return tt)
        (on_ledger-Holds cfg l m (λ j t.
          append-Quiet cfg.adapter l cfg.vault cfg.name j p.no_ledger p.no_deltas platform options
            p.lists input draws.for_delta draws.for_entry t))
        (λ t k. k) s h

  pub remember-Triple :
      (id : Text) (v : Cached) (o : Option Cached)
      → Triple H
          (Writes.remember cfg id v o)
          (λ a. Holds cfg l (insert dec_text id v c) (Indexes.upsert id v.value (value_of o) x) f)
  unfolding Writes.remember
  remember-Triple id v o s h =
      subst
        (Settles
          (λ a. Holds cfg l (insert dec_text id v c) (Indexes.upsert id v.value (value_of o) x) f))
        (sym (ap (λ z. Writes.remember_in cfg z id v o s) h.eager))
        (record {
          eager = h.eager;
          is_hydrated = h.is_hydrated;
          cache_is = ap (insert dec_text id v) h.cache_is;
          indexes_are = ap (Indexes.upsert id v.value (value_of o)) h.indexes_are;
          shows = h.shows;
        })

  pub forget-Triple :
      (id : Text) (o : Option Cached)
      → Triple H
          (Writes.forget cfg id o)
          (λ a. Holds cfg l (Dict.remove dec_text id c) (Writes.drop_index cfg id o x) f)
  unfolding Writes.forget
  forget-Triple id o s h =
      subst
        (Settles (λ a. Holds cfg l (Dict.remove dec_text id c) (Writes.drop_index cfg id o x) f))
        (sym (ap (λ z. Writes.forget_in cfg z id o s) h.eager))
        (record {
          eager = h.eager;
          is_hydrated = h.is_hydrated;
          cache_is = ap (Dict.remove dec_text id) h.cache_is;
          indexes_are = ap (Writes.drop_index cfg id o) h.indexes_are;
          shows = h.shows;
        })

  -- The calls that end a write.
  pub tell-Triple :
      (id : Text) (a : Action) (n : ℕ)
      → Triple H (settle (cfg.on_dirty id a n) >> emit (changed id a)) (λ a. H)
  tell-Triple id a n s h =
      then-Triple (λ a. H) (settle (cfg.on_dirty id a n)) (emit (changed id a))
        (told (cfg.on_dirty id a n)) (emit-Holds cfg l (changed id a)) s h
    where
      told : (out : Outcome CollectionError Unit) → Triple H (settle out) (λ a. H)
      told (ok u) s h = h
      told (thrown e) s h = tt
