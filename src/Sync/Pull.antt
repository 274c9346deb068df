-- ===== src/Sync/Pull.antt =====
-- `pull` and `sync` of `SyncEngine`.
pub mod Newest
use noydb.Base.{
  ℕ, ◌+◌, ltb, if◌then◌else◌, Bool, true, false, Option, none, some, List, [], ◌∷◌, ◌++◌, lookup,
  Text, dec_text, text_le,
}
use noydb.Store.{Envelope, StoreError, Outcome, ok, thrown, Records, VaultSnapshot}
use noydb.Sync.{
  DirtyEntry, Conflict, Winner, Handled, Resolver, PullResult, PullOptions, PushResult, Event,
  sync_pull, Engine, Config, selects, is_dirty, drop_dirty,
}
use noydb.Sync.Meta.{ensure_loaded, persist_meta}
use noydb.Sync.Push.{handle_conflict, push}

-- The variables of the loops, with the local store.
pub record PullState (L : Type 0) : Type 0 where
  pub local : L
  pub dirty : List DirtyEntry
  pub pulled : ℕ
  pub conflicts : List Conflict
  pub errors : List StoreError
  pub events : List Event

-- `options?.modifiedSince && ts <= options.modifiedSince`; an empty text counts as none.
unfoldable pub is_skipped : Option Text → Text → Bool
is_skipped none ts = false
is_skipped (some []) ts = false
is_skipped (some (c ∷ since)) ts = text_le ts (c ∷ since)

module _ {L : Type 0} where
  unfoldable pub pull_fail : StoreError → PullState L → PullState L
  pull_fail x s = record s { errors = s.errors ++ x ∷ [] }

  -- After a write that takes the remote side of a conflict.
  unfoldable pub after_taken : Text → Text → Outcome StoreError Unit → PullState L → PullState L
  unfolding pull_fail
  after_taken name id (thrown x) s = pull_fail x s
  after_taken name id (ok _) s = record s {
    dirty = drop_dirty name id s.dirty;
    pulled = s.pulled + 1;
  }

  unfoldable pub after_copied : Outcome StoreError Unit → PullState L → PullState L
  unfolding pull_fail
  after_copied (thrown x) s = pull_fail x s
  after_copied (ok _) s = record s { pulled = s.pulled + 1 }

module _ {L R : Type 0} (cfg : Config L R) (resolvers : List (Text × Resolver))
    (name id : Text) where
  unfoldable pub put_pulled : Envelope → PullState L → PullState L × Outcome StoreError Unit
  put_pulled envelope s =
      let (l, out) = cfg.local_store.put cfg.vault name id envelope none s.local in
      (record s { local = l }, out)

  unfoldable pub apply_pulled : Handled → Conflict → PullState L → PullState L
  unfolding put_pulled after_taken
  apply_pulled Winner.remote c s =
      let (s1, out) = put_pulled c.remote s in after_taken name id out s1
  apply_pulled (Winner.merged _) c s =
      let (s1, out) = put_pulled c.local s in after_taken name id out s1
  apply_pulled _ c s = s

  unfoldable pub after_pull_conflict :
      Outcome StoreError (Handled × Conflict) → PullState L → PullState L
  unfolding apply_pulled pull_fail
  after_pull_conflict (thrown x) s = pull_fail x s
  after_pull_conflict (ok (handled, c)) s =
      apply_pulled handled c (record s { conflicts = s.conflicts ++ c ∷ [] })

  unfoldable pub pull_dirty : Envelope → Envelope → PullState L → PullState L
  unfolding handle_conflict after_pull_conflict
  pull_dirty local remote s =
      let (events, out) = handle_conflict cfg resolvers name id local remote in
      after_pull_conflict out (record s { events = s.events ++ events })

  unfoldable pub copy_remote : Envelope → PullState L → PullState L
  unfolding put_pulled after_copied
  copy_remote remote s = let (s1, out) = put_pulled remote s in after_copied out s1

  unfoldable pub compare_versions : Envelope → Envelope → PullState L → PullState L
  unfolding copy_remote pull_dirty
  compare_versions local remote s =
      if ltb local.v remote.v
      then (if is_dirty name id s.dirty then pull_dirty local remote s else copy_remote remote s)
      else s

  unfoldable pub after_pull_get :
      Envelope → Outcome StoreError (Option Envelope) → PullState L → PullState L
  unfolding copy_remote compare_versions pull_fail
  after_pull_get remote (thrown x) s = pull_fail x s
  after_pull_get remote (ok none) s = copy_remote remote s
  after_pull_get remote (ok (some local)) s = compare_versions local remote s

  -- The body of the inner loop.
  unfoldable pub pull_record : Option Text → Envelope → PullState L → PullState L
  unfolding after_pull_get is_skipped
  pull_record since remote s =
      let (l, out) = cfg.local_store.get cfg.vault name id s.local in
      if is_skipped since remote.ts then s else after_pull_get remote out (record s { local = l })

module _ {L R : Type 0} (cfg : Config L R) where
  unfoldable pub pull_records :
      List (Text × Resolver) → Option Text → Text → Records → PullState L → PullState L
  unfolding pull_record
  pull_records resolvers since name [] s = s
  pull_records resolvers since name ((id, remote) ∷ l) s =
      pull_records resolvers since name l (pull_record cfg resolvers name id since remote s)

  unfoldable pub pull_collections :
      List (Text × Resolver) → PullOptions → VaultSnapshot → PullState L → PullState L
  unfolding pull_records
  pull_collections resolvers options [] s = s
  pull_collections resolvers options ((name, records) ∷ l) s =
      pull_collections resolvers options l (
        if selects options.collections name
        then pull_records resolvers options.modified_since name records s
        else s)

  unfoldable pub pull_snapshot :
      List (Text × Resolver)
      → PullOptions
      → Outcome StoreError VaultSnapshot
      → PullState L
      → PullState L
  unfolding pull_collections pull_fail
  pull_snapshot resolvers options (thrown x) s = pull_fail x s
  pull_snapshot resolvers options (ok snapshot) s = pull_collections resolvers options snapshot s

  -- What follows the loops.
  unfoldable pub finish_pull :
      Text → Engine L R → R → PullState L → Engine L R × Outcome StoreError PullResult
  unfolding persist_meta
  finish_pull now e r s =
      let result : PullResult = record {
        pulled = s.pulled;
        conflicts = s.conflicts;
        errors = s.errors;
      } in
      let (e1, out) = persist_meta cfg now (record e {
        local = s.local;
        remote = r;
        dirty = s.dirty;
        last_pull = some now;
        events = s.events;
      }) in
      elim out [
        | thrown x ↦ (e1, thrown x)
        | ok _ ↦ (record e1 { events = e1.events ++ sync_pull result ∷ [] }, ok result)
      ]

  unfoldable pub pull_loaded :
      PullOptions
      → Text
      → Engine L R × Outcome StoreError Unit
      → Engine L R × Outcome StoreError PullResult
  unfolding pull_snapshot finish_pull
  pull_loaded options now (e, thrown x) = (e, thrown x)
  pull_loaded options now (e, ok _) =
      let (r, out) = cfg.remote_store.load_all cfg.vault e.remote in
      finish_pull now e r (
        pull_snapshot e.resolvers options out (record {
          local = e.local;
          dirty = e.dirty;
          pulled = 0;
          conflicts = [];
          errors = [];
          events = e.events;
        }))

  unfoldable pub pull : PullOptions → Text → Engine L R → Engine L R × Outcome StoreError PullResult
  unfolding ensure_loaded pull_loaded
  pull options now e = pull_loaded options now (ensure_loaded cfg e)

  unfoldable pub after_pull :
      Option (List Text)
      → Text
      → Engine L R × Outcome StoreError PullResult
      → Engine L R × Outcome StoreError (PullResult × PushResult)
  unfolding push
  after_pull collections now (e, thrown x) = (e, thrown x)
  after_pull collections now (e, ok pulled) =
      let (e2, out) = push cfg collections now e in
      (e2, elim out [ thrown x ↦ thrown x | ok pushed ↦ ok (pulled, pushed) ])

  unfoldable pub sync :
      PullOptions
      → Option (List Text)
      → Text
      → Text
      → Engine L R
      → Engine L R × Outcome StoreError (PullResult × PushResult)
  unfolding pull after_pull
  sync options collections now later e = after_pull collections later (pull options now e)
