-- ===== src/Sync/Push.antt =====
-- `push` and `pushFiltered` of `SyncEngine`, which run one loop over the dirty log, and
-- `handleConflict`. The version of a `put` entry is at least 1, as `collection.ts` counts them.
pub mod Synced
pub mod Loop
pub mod Log
use noydb.Base.{
  ℕ, ◌+◌, ◌-◌, if◌then◌else◌, Bool, true, false, Option, none, some, List, [], ◌∷◌, ◌++◌, lookup,
  Text, dec_text,
}
use noydb.Store.{Envelope, StoreError, conflict, failure, Outcome, ok, thrown}
use noydb.Sync.{
  Action, DirtyEntry, Conflict, Side, Winner, Handled, Resolver, PushResult, Event, sync_push,
  sync_conflict, Engine, Config, legacy_resolve, selects,
}
use noydb.Sync.Meta.{ensure_loaded, persist_meta}

-- The variables of the loop, with the stores that it writes to.
pub record PushState (L R : Type 0) : Type 0 where
  pub local : L
  pub remote : R
  pub pushed : ℕ
  pub conflicts : List Conflict
  pub errors : List StoreError
  pub events : List Event

-- The state after one entry, and whether its index is among `completed`.
abbrev pub Stepped : Type 0 → Type 0 → Type 0
Stepped L R = PushState L R × Bool

module _ {L R : Type 0} where
  unfoldable pub fail : StoreError → PushState L R → Stepped L R
  fail x s = (record s { errors = s.errors ++ x ∷ [] }, false)

  unfoldable pub complete_pushed : PushState L R → Stepped L R
  complete_pushed s = (record s { pushed = s.pushed + 1 }, true)

  -- What follows a write to the remote store that ends the entry.
  unfoldable pub after_remote : Outcome StoreError Unit → PushState L R → Stepped L R
  unfolding fail complete_pushed
  after_remote (ok _) s = complete_pushed s
  after_remote (thrown x) s = fail x s

  unfoldable pub after_local : Outcome StoreError Unit → PushState L R → Stepped L R
  unfolding fail
  after_local (ok _) s = (s, true)
  after_local (thrown x) s = fail x s

module _ {L R : Type 0} (cfg : Config L R) where
  unfoldable pub base_conflict : Text → Text → Envelope → Envelope → Conflict
  base_conflict collection id local remote = record {
    vault = cfg.vault;
    collection = collection;
    id = id;
    local = local;
    remote = remote;
    local_version = local.v;
    remote_version = remote.v;
  }

  unfoldable pub winner_conflict : Winner → Conflict → Conflict
  winner_conflict (Winner.merged m) c = record c { local = m; local_version = m.v }
  winner_conflict _ c = c

  unfoldable pub side_handled : Side → Handled
  side_handled Side.local = Winner.local
  side_handled Side.remote = Winner.remote

  -- The events that it emits, and what it answers.
  unfoldable pub handle_conflict :
      List (Text × Resolver)
      → Text
      → Text
      → Envelope
      → Envelope
      → List Event × Outcome StoreError (Handled × Conflict)
  unfolding base_conflict winner_conflict side_handled legacy_resolve
  handle_conflict resolvers collection id local remote =
      let base = base_conflict collection id local remote in
      elim (lookup dec_text collection resolvers) [
        | some resolver ↦ (
          [],
          elim (resolver id local remote) [
            | thrown x ↦ thrown x
            | ok winner ↦ ok (winner, winner_conflict winner base)
          ],
        )
        | none ↦
            (sync_conflict base ∷ [], ok (side_handled (legacy_resolve cfg.strategy base), base))
      ]

  module _ (resolvers : List (Text × Resolver)) (entry : DirtyEntry) where
    unfoldable pub put_remote :
        Envelope → Option ℕ → PushState L R → PushState L R × Outcome StoreError Unit
    put_remote envelope expected s =
        let (r, out) =
          cfg.remote_store.put cfg.vault entry.collection entry.id envelope expected s.remote in
        (record s { remote = r }, out)

    unfoldable pub put_local : Envelope → PushState L R → PushState L R × Outcome StoreError Unit
    put_local envelope s =
        let (l, out) =
          cfg.local_store.put cfg.vault entry.collection entry.id envelope none s.local in
        (record s { local = l }, out)

    unfoldable pub apply_merged : Envelope → PushState L R → Stepped L R
    unfolding put_remote put_local after_remote fail
    apply_merged merged s =
        let (s1, out) = put_remote merged none s in
        elim out [
          | thrown x ↦ fail x s1
          | ok _ ↦ let (s2, out2) = put_local merged s1 in after_remote out2 s2
        ]

    unfoldable pub apply_handled : Handled → Conflict → PushState L R → Stepped L R
    unfolding put_remote put_local after_remote after_local apply_merged
    apply_handled Winner.local c s =
        let (s1, out) = put_remote c.local none s in after_remote out s1
    apply_handled Winner.remote c s = let (s1, out) = put_local c.remote s in after_local out s1
    apply_handled (Winner.merged _) c s = apply_merged c.local s
    apply_handled Winner.deferred c s = (s, false)

    unfoldable pub after_conflict :
        Outcome StoreError (Handled × Conflict) → PushState L R → Stepped L R
    unfolding apply_handled fail
    after_conflict (thrown x) s = fail x s
    after_conflict (ok (handled, c)) s =
        apply_handled handled c (record s { conflicts = s.conflicts ++ c ∷ [] })

    unfoldable pub push_resolved : Envelope → Envelope → PushState L R → Stepped L R
    unfolding handle_conflict after_conflict
    push_resolved envelope remote_envelope s =
        let (events, out) =
          handle_conflict resolvers entry.collection entry.id envelope remote_envelope in
        after_conflict out (record s { events = s.events ++ events })

    unfoldable pub after_remote_get :
        Envelope → Outcome StoreError (Option Envelope) → PushState L R → Stepped L R
    unfolding push_resolved fail
    after_remote_get envelope (thrown x) s = fail x s
    after_remote_get envelope (ok none) s = (s, false)
    after_remote_get envelope (ok (some remote)) s = push_resolved envelope remote s

    unfoldable pub push_conflict : Envelope → PushState L R → Stepped L R
    unfolding after_remote_get
    push_conflict envelope s =
        let (r, out) = cfg.remote_store.get cfg.vault entry.collection entry.id s.remote in
        after_remote_get envelope out (record s { remote = r })

    unfoldable pub after_remote_put :
        Envelope → Outcome StoreError Unit → PushState L R → Stepped L R
    unfolding push_conflict fail complete_pushed
    after_remote_put envelope (ok _) s = complete_pushed s
    after_remote_put envelope (thrown (conflict n)) s = push_conflict envelope s
    after_remote_put envelope (thrown (failure t)) s = fail (failure t) s

    unfoldable pub after_local_get :
        Outcome StoreError (Option Envelope) → PushState L R → Stepped L R
    unfolding after_remote_put put_remote fail
    after_local_get (thrown x) s = fail x s
    after_local_get (ok none) s = (s, true)
    after_local_get (ok (some envelope)) s =
        let (s1, out) = put_remote envelope (some (entry.version - 1)) s in
        after_remote_put envelope out s1

    unfoldable pub push_action : Action → PushState L R → Stepped L R
    unfolding after_local_get after_remote
    push_action Action.delete s =
        let (r, out) = cfg.remote_store.delete cfg.vault entry.collection entry.id s.remote in
        after_remote out (record s { remote = r })
    push_action Action.put s =
        let (l, out) = cfg.local_store.get cfg.vault entry.collection entry.id s.local in
        after_local_get out (record s { local = l })

    unfoldable pub push_entry : PushState L R → Stepped L R
    unfolding push_action
    push_entry s = push_action entry.action s

  -- The loop, and the entries that are not completed.
  unfoldable pub push_entries :
      (DirtyEntry → Bool)
      → List (Text × Resolver)
      → List DirtyEntry
      → PushState L R
      → PushState L R × List DirtyEntry
  unfolding push_entry
  push_entries predicate resolvers [] s = (s, [])
  push_entries predicate resolvers (entry ∷ l) s =
      let (s1, completed) : Stepped L R =
        if predicate entry then push_entry resolvers entry s else (s, false) in
      let (s2, rest) = push_entries predicate resolvers l s1 in
      (s2, if completed then rest else entry ∷ rest)

  abbrev pub start_push : Engine L R → PushState L R
  start_push e = record {
    local = e.local;
    remote = e.remote;
    pushed = 0;
    conflicts = [];
    errors = [];
    events = e.events;
  }

  -- What follows the loop.
  unfoldable pub finish_push :
      Text
      → Engine L R
      → PushState L R × List DirtyEntry
      → Engine L R × Outcome StoreError PushResult
  unfolding persist_meta
  finish_push now e (s, rest) =
      let result : PushResult = record {
        pushed = s.pushed;
        conflicts = s.conflicts;
        errors = s.errors;
      } in
      let (e1, out) = persist_meta cfg now (record e {
        local = s.local;
        remote = s.remote;
        dirty = rest;
        last_push = some now;
        events = s.events;
      }) in
      elim out [
        | thrown x ↦ (e1, thrown x)
        | ok _ ↦ (record e1 { events = e1.events ++ sync_push result ∷ [] }, ok result)
      ]

  unfoldable pub push_loaded :
      (DirtyEntry → Bool)
      → Text
      → Engine L R × Outcome StoreError Unit
      → Engine L R × Outcome StoreError PushResult
  unfolding push_entries finish_push
  push_loaded predicate now (e, thrown x) = (e, thrown x)
  push_loaded predicate now (e, ok _) =
      finish_push now e (push_entries predicate e.resolvers e.dirty (start_push e))

  unfoldable pub push_filtered :
      (DirtyEntry → Bool) → Text → Engine L R → Engine L R × Outcome StoreError PushResult
  unfolding ensure_loaded push_loaded
  push_filtered predicate now e = push_loaded predicate now (ensure_loaded cfg e)

  unfoldable pub push :
      Option (List Text) → Text → Engine L R → Engine L R × Outcome StoreError PushResult
  unfolding push_filtered
  push collections = push_filtered (λ entry. selects collections entry.collection)
