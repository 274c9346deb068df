-- ===== src/Collection/Writes.antt =====
-- `put` without CRDT mode, and `delete`. A collection has no field that is translated by itself.
use noydb.Base.{
  ℕ, suc, ◌+◌, if◌then◌else◌, Bool, true, false, Option, none, some, List, lookup, Text, dec_text,
}
use noydb.Dict
use noydb.Dict.{insert}
use noydb.Store.{Envelope, ok}
use noydb.Json.{Json}
use noydb.Lru
use noydb.Lru.{Lru}
use noydb.Sync.{Action}
use noydb.History.{save_history, prune_history}
use noydb.Patch
use noydb.Patch.{compute_patch}
use noydb.Entry
use noydb.Entry.{EntryOp, envelope_payload_hash}
use noydb.Ledger
use noydb.Ledger.{LedgerOptions, AppendInput}
use noydb.Indexes
use noydb.Keyring.{has_write_permission}
use noydb.Collection.{
  Cached, read_only, schema_input, missing_translation, history_save, dirty, changed, Config, Step,
  Draws, RefEnforcer, ◌>>=◌, ◌>>◌, next, return, throw, settle, call, on_ledger, emit, version_of,
  value_of, encrypt_record, validated, ensure_hydrated, or_load, with_lru, remember_lru,
}

module _ {S : Type 0} (cfg : Config S) where
  unfoldable pub check_permission : Step S Unit
  unfolding has_write_permission
  check_permission =
      if has_write_permission cfg.keyring cfg.name then return tt else throw read_only

  abbrev pub check_translations : Option (Json → Bool) → Json → Step S Unit
  check_translations none v = return tt
  check_translations (some valid) v = if valid v then return tt else throw missing_translation

  abbrev pub check_put : Option (RefEnforcer S) → Json → Step S Unit
  check_put none v = return tt
  check_put (some r) v = r.on_put v

  abbrev pub check_delete : Option (RefEnforcer S) → Text → Step S Unit
  check_delete none id = return tt
  check_delete (some r) id = r.on_delete id

  -- The previous record, of the bounded cache or of the map.
  abbrev pub previous_in : Text → Option (Lru Text Cached) → Step S (Option Cached)
  previous_in id (some l) s =
      let (l', found) = Lru.get dec_text id l in or_load cfg id found (with_lru l' s)
  previous_in id none s = next (λ u t. (t, ok (lookup dec_text id t.cache))) (ensure_hydrated cfg s)

  unfoldable pub previous : Text → Step S (Option Cached)
  unfolding ensure_hydrated
  previous id s = previous_in id s.lru s

  abbrev pub prune_after : Text → Option ℕ → Step S Unit
  prune_after id (some (suc n)) =
      call (
        prune_history cfg.adapter cfg.vault cfg.name (some id)
          (record { keep_versions = some (suc n); before_date = none }))
      >> return tt
  prune_after id _ = return tt

  abbrev pub save_version : Draws → Text → Cached → Step S Unit
  save_version draws id c = call (
      save_history cfg.adapter cfg.vault cfg.platform.padded cfg.name id
        (encrypt_record cfg draws.for_history c.value c.version))

  -- The history of the version that is overwritten.
  unfoldable pub keep_version : Draws → Text → Bool → Option Cached → Step S Unit
  unfolding save_history prune_history encrypt_record
  keep_version draws id true (some c) =
      (save_version draws id c >> emit (history_save id c.version))
      >> prune_after id cfg.history_config.max_versions
  keep_version draws id _ _ = return tt

  -- The patch that undoes a put.
  abbrev pub delta_of : Json → Option Cached → Option (List Patch.Op)
  delta_of value none = none
  delta_of value (some c) = some (compute_patch value c.value)

  unfoldable pub append_entry :
      Draws
      → Option (Entry.Platform × LedgerOptions)
      → EntryOp
      → Text
      → ℕ
      → Option Envelope
      → Option (List Patch.Op)
      → Step S Unit
  unfolding envelope_payload_hash
  append_entry draws none op id version e delta = return tt
  append_entry draws (some (platform, options)) op id version e delta =
      on_ledger (
        Ledger.append platform options cfg.adapter
          (record {
            op = op;
            collection = cfg.name;
            id = id;
            version = version;
            actor = cfg.user_id;
            payload_hash = envelope_payload_hash platform e;
            delta = delta;
          })
          draws.for_delta draws.for_entry)
      >> return tt

  -- The caches and the indexes after a put.
  abbrev pub remember_in : Option (Lru Text Cached) → Text → Cached → Option Cached → Step S Unit
  remember_in (some l) id c existing s = remember_lru cfg id c s
  remember_in none id c existing s = (
    record s {
      cache = insert dec_text id c s.cache;
      indexes = Indexes.upsert id c.value (value_of existing) s.indexes;
    },
    ok tt,
  )

  unfoldable pub remember : Text → Cached → Option Cached → Step S Unit
  remember id c existing s = remember_in s.lru id c existing s

  -- What follows the write.
  unfoldable pub finish_put : Draws → Text → Json → Option Cached → Envelope → Step S Unit
  unfolding append_entry remember
  finish_put draws id value existing e =
      let version = version_of existing + 1 in
      ((append_entry draws cfg.ledger_config EntryOp.put id version (some e)
            (delta_of value existing)
          >> remember id (record { value = value; version = version }) existing)
        >> emit (dirty id Action.put version))
      >> (settle (cfg.on_dirty id Action.put version) >> emit (changed id Action.put))

  unfoldable pub write : Draws → Text → Json → Option Cached → Step S Unit
  unfolding keep_version finish_put encrypt_record
  write draws id value existing =
      let e = encrypt_record cfg draws.for_record value (version_of existing + 1) in
      keep_version draws id cfg.history_config.enabled existing
      >> (call (cfg.adapter.put cfg.vault cfg.name id e none)
          >> finish_put draws id value existing e)

  -- What follows the validation of the input.
  unfoldable pub put_valid : Draws → Text → Json → Step S Unit
  unfolding previous write
  put_valid draws id value =
      check_translations cfg.i18n_put_validator value
      >> (check_put cfg.ref_enforcer value >> (previous id >>= write draws id value))

  unfoldable pub put : Draws → Text → Json → Step S Unit
  unfolding check_permission put_valid
  put draws id value =
      check_permission >> (settle (validated schema_input cfg.schema value) >>= put_valid draws id)

  -- The previous record of a delete: the map is not filled for it.
  abbrev pub deleted_in : Bool → Text → Option (Lru Text Cached) → Step S (Option Cached)
  deleted_in true id (some l) s =
      let (l', found) = Lru.get dec_text id l in or_load cfg id found (with_lru l' s)
  deleted_in false id (some l) s =
      let (l', found) = Lru.get dec_text id l in (with_lru l' s, ok found)
  deleted_in b id none s = (s, ok (lookup dec_text id s.cache))

  unfoldable pub deleted : Text → Step S (Option Cached)
  deleted id s = deleted_in cfg.history_config.enabled id s.lru s

  -- The history of the version that is deleted; nothing is pruned.
  unfoldable pub keep_deleted : Draws → Text → Bool → Option Cached → Step S Unit
  unfolding save_history encrypt_record
  keep_deleted draws id true (some c) = save_version draws id c
  keep_deleted draws id _ _ = return tt

  abbrev pub drop_index :
      Text → Option Cached → Indexes.CollectionIndexes → Indexes.CollectionIndexes
  drop_index id none l = l
  drop_index id (some c) l = Indexes.remove id c.value l

  abbrev pub forget_in : Option (Lru Text Cached) → Text → Option Cached → Step S Unit
  forget_in (some l) id existing s = (with_lru (Lru.remove dec_text id l).0 s, ok tt)
  forget_in none id existing s = (
    record s {
      cache = Dict.remove dec_text id s.cache;
      indexes = drop_index id existing s.indexes;
    },
    ok tt,
  )

  unfoldable pub forget : Text → Option Cached → Step S Unit
  forget id existing s = forget_in s.lru id existing s

  unfoldable pub finish_delete : Draws → Text → Option Cached → Option Envelope → Step S Unit
  unfolding append_entry forget
  finish_delete draws id existing e =
      ((append_entry draws cfg.ledger_config EntryOp.delete id (version_of existing) e none
          >> forget id existing)
        >> emit (dirty id Action.delete (version_of existing)))
      >> (settle (cfg.on_dirty id Action.delete (version_of existing))
          >> emit (changed id Action.delete))

  -- What follows the reading of the stored envelope.
  abbrev pub delete_stored : Draws → Text → Option Cached → Option Envelope → Step S Unit
  delete_stored draws id existing e =
      call (cfg.adapter.delete cfg.vault cfg.name id) >> finish_delete draws id existing e

  unfoldable pub erase : Draws → Text → Option Cached → Step S Unit
  unfolding keep_deleted finish_delete
  erase draws id existing =
      keep_deleted draws id cfg.history_config.enabled existing
      >> (call (cfg.adapter.get cfg.vault cfg.name id) >>= delete_stored draws id existing)

  unfoldable pub delete : Draws → Text → Step S Unit
  unfolding check_permission deleted erase
  delete draws id =
      check_permission >> (check_delete cfg.ref_enforcer id >> (deleted id >>= erase draws id))
