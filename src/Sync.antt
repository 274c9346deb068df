-- ===== src/Sync.antt =====
-- packages/hub/src/sync.ts: `SyncEngine`. An operation runs to its end before the next one: what
-- other calls do at an `await` is not modelled. `new Date().toISOString()` is an argument, `now`.
pub mod Meta
pub mod Push
pub mod Pull
pub mod Track
mod Tests
use noydb.Base.{
  ℕ, zero, suc, ◌+◌, ◌-◌, leb, ltb, if◌then◌else◌, ite, Bool, true, false, not, ◌&&◌, Option, none,
  some, List, [], ◌∷◌, ◌++◌, length, lookup, Text, codes, dec_text, text_le,
}
use noydb.Dict.{insert}
use noydb.Store.{
  Envelope, StoreError, conflict, failure, Outcome, ok, thrown, NoydbStore, Records, VaultSnapshot,
}

pub data Action : Type 0 where
  put delete : Action

pub record DirtyEntry : Type 0 where
  pub vault : Text
  pub collection : Text
  pub id : Text
  pub action : Action
  pub version : ℕ
  pub timestamp : Text

pub record SyncMetadata : Type 0 where
  pub last_push : Option Text
  pub last_pull : Option Text
  pub dirty : List DirtyEntry

pub record Conflict : Type 0 where
  pub vault : Text
  pub collection : Text
  pub id : Text
  pub local : Envelope
  pub remote : Envelope
  pub local_version : ℕ
  pub remote_version : ℕ

pub data Side : Type 0 where
  local remote : Side

pub data ConflictStrategy : Type 0 where
  local_wins remote_wins version : ConflictStrategy
  custom : (Conflict → Side) → ConflictStrategy

-- What a collection's resolver answers: `null`, one of the two objects that it was given, or
-- another one.
pub data Winner : Type 0 where
  deferred local remote : Winner
  merged : Envelope → Winner

abbrev pub Resolver : Type 0
Resolver = Text → Envelope → Envelope → Outcome StoreError Winner

-- How a conflict was handled; `merged` carries the new `conflict.local`.
abbrev pub Handled : Type 0
Handled = Winner

pub record PushResult : Type 0 where
  pub pushed : ℕ
  pub conflicts : List Conflict
  pub errors : List StoreError

pub record PullResult : Type 0 where
  pub pulled : ℕ
  pub conflicts : List Conflict
  pub errors : List StoreError

pub record PullOptions : Type 0 where
  pub collections : Option (List Text)
  pub modified_since : Option Text

pub record SyncStatus : Type 0 where
  pub dirty : ℕ
  pub last_push : Option Text
  pub last_pull : Option Text
  pub online : Bool

pub data Event : Type 0 where
  sync_push : PushResult → Event
  sync_pull : PullResult → Event
  sync_conflict : Conflict → Event
  sync_online sync_offline : Event

-- The fields that the methods change, with the two stores that they write to.
pub record Engine (L R : Type 0) : Type 0 where
  pub local : L
  pub remote : R
  pub dirty : List DirtyEntry
  pub last_push : Option Text
  pub last_pull : Option Text
  pub loaded : Bool
  pub is_online : Bool
  pub resolvers : List (Text × Resolver)
  pub events : List Event

-- What the constructor is given. `write_meta` and `read_meta` are `JSON.stringify` and
-- `JSON.parse` at the metadata.
pub record Config (L R : Type 0) : Type 0 where
  pub local_store : NoydbStore L
  pub remote_store : NoydbStore R
  pub strategy : ConflictStrategy
  pub vault : Text
  pub write_meta : SyncMetadata → Text
  pub read_meta : Text → SyncMetadata

unfoldable pub legacy_resolve : ConflictStrategy → Conflict → Side
legacy_resolve (custom f) c = f c
legacy_resolve local_wins c = Side.local
legacy_resolve remote_wins c = Side.remote
legacy_resolve version c = if leb c.remote_version c.local_version then Side.local else Side.remote

abbrev pub is_entry : Text → Text → DirtyEntry → Bool
is_entry collection id d =
    ite (dec_text d.collection collection) (ite (dec_text d.id id) true false) false

-- `names === undefined || names.includes(name)`
unfoldable pub included : Text → List Text → Bool
included name [] = false
included name (n ∷ names) = let rest = included name names in ite (dec_text n name) true rest

abbrev pub selects : Option (List Text) → Text → Bool
selects none name = true
selects (some names) name = included name names

-- The dirty log of `trackChange`: an entry with the same collection and id is replaced in place.
unfoldable pub record_change : DirtyEntry → List DirtyEntry → List DirtyEntry
record_change entry [] = entry ∷ []
record_change entry (d ∷ l) =
    if is_entry entry.collection entry.id d then entry ∷ l else d ∷ record_change entry l

-- `dirty.some(...)` and `dirty.filter(...)` of `pull`
unfoldable pub is_dirty : Text → Text → List DirtyEntry → Bool
is_dirty collection id [] = false
is_dirty collection id (d ∷ l) =
    let rest = is_dirty collection id l in if is_entry collection id d then true else rest

unfoldable pub drop_dirty : Text → Text → List DirtyEntry → List DirtyEntry
drop_dirty collection id [] = []
drop_dirty collection id (d ∷ l) =
    let rest = drop_dirty collection id l in if is_entry collection id d then rest else d ∷ rest
