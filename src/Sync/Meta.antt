-- ===== src/Sync/Meta.antt =====
-- `ensureLoaded`, `persistMeta`, `trackChange`, `status` and the online switch of `SyncEngine`.
use noydb.Base.{ℕ, true, false, Option, none, some, [], ◌∷◌, ◌++◌, length, Text, codes, dec_text}
use noydb.Dict.{insert}
use noydb.Store.{Envelope, StoreError, Outcome, ok, thrown}
use noydb.Sync.{
  Action, DirtyEntry, SyncMetadata, SyncStatus, Resolver, sync_online, sync_offline, Engine, Config,
  record_change,
}

abbrev pub sync_collection : Text
sync_collection = codes "_sync"

abbrev pub meta_id : Text
meta_id = codes "meta"

module _ {L R : Type 0} where
  unfoldable pub register_conflict_resolver : Text → Resolver → Engine L R → Engine L R
  register_conflict_resolver collection resolver e = record e {
    resolvers = insert dec_text collection resolver e.resolvers;
  }

  unfoldable pub status : Engine L R → SyncStatus
  status e = record {
    dirty = length e.dirty;
    last_push = e.last_push;
    last_pull = e.last_pull;
    online = e.is_online;
  }

  -- The handler of `online` up to the sync that it starts.
  unfoldable pub handle_online : Engine L R → Engine L R
  handle_online e = record e { is_online = true; events = e.events ++ sync_online ∷ [] }

  unfoldable pub handle_offline : Engine L R → Engine L R
  handle_offline e = record e { is_online = false; events = e.events ++ sync_offline ∷ [] }

  -- The metadata that is read on the first use.
  unfoldable pub with_meta : SyncMetadata → Engine L R → Engine L R
  with_meta m e = record e { dirty = m.dirty; last_push = m.last_push; last_pull = m.last_pull }

module _ {L R : Type 0} (cfg : Config L R) where
  unfoldable pub loaded_from :
      Engine L R → Outcome StoreError (Option Envelope) → Engine L R × Outcome StoreError Unit
  unfolding with_meta
  loaded_from e (thrown x) = (e, thrown x)
  loaded_from e (ok none) = (record e { loaded = true }, ok tt)
  loaded_from e (ok (some envelope)) =
      let e' = with_meta (cfg.read_meta envelope.data_text) e in
      (record e' { loaded = true }, ok tt)

  unfoldable pub ensure_loaded : Engine L R → Engine L R × Outcome StoreError Unit
  unfolding loaded_from
  ensure_loaded e = elim e.loaded [
    | true ↦ (e, ok tt)
    | false ↦
        let (l, out) = cfg.local_store.get cfg.vault sync_collection meta_id e.local in
        loaded_from (record e { local = l }) out
  ]

  unfoldable pub meta_envelope : Text → Engine L R → Envelope
  meta_envelope now e = record {
    noydb = 1;
    v = 1;
    ts = now;
    iv = [];
    data_text =
        cfg.write_meta
          (record { last_push = e.last_push; last_pull = e.last_pull; dirty = e.dirty });
    by = none;
  }

  unfoldable pub persist_meta : Text → Engine L R → Engine L R × Outcome StoreError Unit
  unfolding meta_envelope
  persist_meta now e =
      let (l, out) =
        cfg.local_store.put cfg.vault sync_collection meta_id (meta_envelope now e) none e.local in
      (record e { local = l }, out)

  -- `trackChange` up to the notification of the scheduler.
  unfoldable pub track_change :
      Text → Text → Action → ℕ → Text → Engine L R → Engine L R × Outcome StoreError Unit
  unfolding ensure_loaded persist_meta
  track_change collection id action version now e =
      let (e1, out) = ensure_loaded e in
      elim out [
        | thrown x ↦ (e1, thrown x)
        | ok _ ↦
            let entry : DirtyEntry = record {
              vault = cfg.vault;
              collection = collection;
              id = id;
              action = action;
              version = version;
              timestamp = now;
            } in
            persist_meta now (record e1 { dirty = record_change entry e1.dirty })
      ]
