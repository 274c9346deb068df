-- ===== src/Route.antt =====
-- packages/hub/src/route-store.ts: the options of `routeStore`, its state, and which store an
-- operation goes to. A store is a number, so that stores have an identity; its methods come from a
-- family of stores over one state.
mod Tests
pub mod Methods
pub mod Apart
pub mod Destination
pub mod Lawful
pub mod Snapshots
pub mod Compact
pub mod Resume
use noydb.Base.{
  ℕ, ◌+◌, ◌*◌, Bool, true, false, ◌&&◌, ◌||◌, not, ltb, leb, if◌then◌else◌, ite, Option, none, some,
  is_some, List, [], ◌∷◌, ◌++◌, length, drop, lookup, Text, codes, dec_text, starts_with,
}
use noydb.Dict.{insert, remove}
use noydb.Store.{Envelope, StoreError, Outcome, ok}
use noydb.Memory.{is_internal}
use noydb.Indexes.{member, set_add}

pub record BlobStoreRoute : Type 0 where
  pub small : Option ℕ
  pub large : ℕ
  pub threshold : Option ℕ

-- `opts.blobs`
pub data BlobsOption : Type 0 where
  no_blobs : BlobsOption
  simple : ℕ → BlobsOption
  tiered : BlobStoreRoute → BlobsOption

-- No collections stand for an empty array, and for none.
pub record AgeRoute : Type 0 where
  pub cold : ℕ
  pub cold_after_days : ℕ
  pub collections : List Text

-- A number from 0 to 1.
pub record Fraction : Type 0 where
  pub numerator : ℕ
  pub denominator : ℕ

-- No routes stand for an empty object, and for none.
pub record RouteOptions : Type 0 where
  pub default_store : ℕ
  pub blobs : BlobsOption
  pub route_blob_meta : Bool
  pub routes : List (Text × ℕ)
  pub vault_routes : List (Text × ℕ)
  pub age : Option AgeRoute
  pub overflow : Option ℕ
  pub quota_threshold : Option Fraction

pub data WriteMethod : Type 0 where
  put delete : WriteMethod

pub record QueuedWrite : Type 0 where
  pub method : WriteMethod
  pub vault : Text
  pub collection : Text
  pub id : Text
  pub envelope : Option Envelope
  pub expected_version : Option ℕ

pub record WriteQueue : Type 0 where
  pub writes : List QueuedWrite
  pub max_size : ℕ

-- The variables that the methods of the routing store share.
pub record Router : Type 0 where
  pub overrides : List (Text × ℕ)
  pub suspended : List Text
  pub write_queues : List (Text × WriteQueue)
  pub quota_exceeded : Bool

-- The store that an operation goes to: `NULL_STORE`, or one of the options or of an override.
pub data Target : Type 0 where
  null_store : Target
  backend : ℕ → Target

-- `===` on strings
abbrev pub equals : Text → Text → Bool
equals a b = ite (dec_text a b) true false

-- `o ?? x`
abbrev pub or_else {ℓ} : {A : Type ℓ} → Option A → A → A
or_else none x = x
or_else (some a) x = a

-- `a ?? b`, where both may be missing.
abbrev pub first_of {ℓ} : {A : Type ℓ} → Option A → Option A → Option A
first_of none b = b
first_of (some a) b = some a

unfoldable pub is_blob_chunks : Text → Bool
is_blob_chunks collection = equals collection (codes "_blob_chunks")

unfoldable pub is_blob_meta : Text → Bool
is_blob_meta collection =
    equals collection (codes "_blob_index")
    || (starts_with (codes "_blob_slots_") collection
        || starts_with (codes "_blob_versions_") collection)

-- The first of the vault routes whose prefix the vault starts with.
unfoldable pub matched_route : Text → List (Text × ℕ) → Option (Text × ℕ)
matched_route vault [] = none
matched_route vault (e ∷ l) =
    let rest = matched_route vault l in if starts_with e.0 vault then some e else rest

-- `simpleBlobStore ?? tieredBlobs?.large`
unfoldable pub blob_store : BlobsOption → Option ℕ
blob_store no_blobs = none
blob_store (simple s) = some s
blob_store (tiered t) = some t.large

module _ (opts : RouteOptions) where
  -- A collection with the name of a member that the object of the routes inherits is not modelled.
  unfoldable pub collection_route : Text → Option ℕ
  collection_route collection =
      if is_internal collection then none else lookup dec_text collection opts.routes

  -- Steps 3 and 4 of `storeFor`.
  unfoldable pub blob_route : Text → Option ℕ
  unfolding is_blob_chunks is_blob_meta blob_store
  blob_route collection =
      if is_blob_chunks collection || (opts.route_blob_meta && is_blob_meta collection)
      then blob_store opts.blobs
      else none

  unfoldable pub route_name_for : Text → Text → Text
  unfolding matched_route collection_route blob_route
  route_name_for vault collection = elim (matched_route vault opts.vault_routes) [
    | some e ↦ e.0
    | none ↦
        if is_some (collection_route collection)
        then collection
        else if is_some (blob_route collection)
        then codes "blobs"
        else codes "default"
  ]

  -- Steps 5 and 6 of `storeFor`.
  unfoldable pub overflow_store : Router → ℕ
  overflow_store r =
      if r.quota_exceeded then or_else opts.overflow opts.default_store else opts.default_store

  -- Steps 1 to 6 of `storeFor`.
  unfoldable pub configured_store : Text → Text → Router → ℕ
  unfolding matched_route collection_route blob_route overflow_store
  configured_store vault collection r = elim (matched_route vault opts.vault_routes) [
    | some e ↦ e.1
    | none ↦
        or_else (first_of (collection_route collection) (blob_route collection)) (overflow_store r)
  ]

  unfoldable pub store_for : Text → Text → Router → Target
  unfolding route_name_for configured_store
  store_for vault collection r =
      let name = route_name_for vault collection in
      if member name r.suspended then null_store else elim (lookup dec_text name r.overrides) [
        | some s ↦ backend s
        | none ↦ backend (configured_store vault collection r)
      ]

  unfoldable pub resolve_original_store : Text → ℕ
  unfolding blob_store
  resolve_original_store route =
      if equals route (codes "blobs")
      then or_else (blob_store opts.blobs) opts.default_store
      else if equals route (codes "cold")
      then (elim opts.age [ some a ↦ a.cold | none ↦ opts.default_store ])
      else or_else
          (first_of (lookup dec_text route opts.routes) (lookup dec_text route opts.vault_routes))
          opts.default_store

  -- The store for a blob of this size.
  unfoldable pub size_store : BlobStoreRoute → ℕ → ℕ
  size_store t size =
      if leb size (or_else t.threshold (400 * 1024))
      then or_else t.small opts.default_store
      else t.large

  unfoldable pub blob_store_for_size : ℕ → ℕ
  unfolding size_store
  blob_store_for_size size = elim opts.blobs [
    | no_blobs ↦ opts.default_store
    | simple s ↦ s
    | tiered t ↦ size_store t size
  ]

  -- `opts.age` at a collection that is not internal: the cold store.
  unfoldable pub cold_of : Text → Option ℕ
  cold_of collection = elim opts.age [
    | none ↦ none
    | some a ↦ if is_internal collection then none else some a.cold
  ]

  -- `!opts.age.collections?.length || opts.age.collections.includes(collection)`
  unfoldable pub participates : AgeRoute → Text → Bool
  participates a collection = elim a.collections [ [] ↦ true | _ ↦ member collection a.collections ]

  -- The cold store, if a read of the collection falls back to it.
  unfoldable pub cold_for_read : Text → Option ℕ
  unfolding participates
  cold_for_read collection = elim opts.age [
    | none ↦ none
    | some a ↦
        if not (is_internal collection) && participates a collection then some a.cold else none
  ]

  -- `time_of` is `new Date(ts).getTime()`, without a value where that is NaN.
  unfoldable pub is_cold : (Text → Option ℕ) → ℕ → Text → Envelope → Bool
  unfolding participates
  is_cold time_of now collection envelope = elim opts.age [
    | none ↦ false
    | some a ↦
        if is_internal collection
        then false
        else if participates a collection
        then (elim (time_of envelope.ts) [
          | none ↦ false
          | some t ↦ ltb (t + a.cold_after_days * 24 * 60 * 60 * 1000) now
        ])
        else false
  ]

-- A queue at its size drops its oldest write first.
unfoldable pub push_write : QueuedWrite → WriteQueue → WriteQueue
push_write w q = record q {
  writes = (if leb q.max_size (length q.writes) then drop 1 q.writes else q.writes) ++ w ∷ [];
}

-- The router with the write in the queue, unless the caller is to write.
unfoldable pub maybe_queue_write : Text → QueuedWrite → Router → Option Router
unfolding push_write member
maybe_queue_write name w r =
    if member name r.suspended
    then (elim (lookup dec_text name r.write_queues) [
      | none ↦ none
      | some q ↦
          some (record r { write_queues = insert dec_text name (push_write w q) r.write_queues })
    ])
    else none

-- What `primary.estimateUsage()` settles to, where the store has that method.
pub record Usage : Type 0 where
  pub used_bytes : ℕ
  pub quota_bytes : ℕ

-- `usedBytes / quotaBytes > threshold`
unfoldable pub exceeds_quota : Fraction → Usage → Bool
exceeds_quota f u = ltb (f.numerator * u.quota_bytes) (u.used_bytes * f.denominator)

unfoldable pub check_quota :
    RouteOptions → Option (Outcome StoreError (Option Usage)) → Router → Router × Bool
unfolding exceeds_quota
check_quota opts (some (ok (some usage))) r = elim opts.overflow [
  | none ↦ (r, false)
  | some _ ↦
      let threshold = or_else opts.quota_threshold (record { numerator = 4; denominator = 5 }) in
      let exceeded = exceeds_quota threshold usage in
      (record r { quota_exceeded = exceeded }, exceeded)
]
check_quota opts o r = (r, false)

-- Hydration copies nothing in the source.
unfoldable pub override : Text → ℕ → Router → Router
override route s r = record r { overrides = insert dec_text route s r.overrides }

unfoldable pub clear_override : Text → Router → Router
clear_override route r = record r { overrides = remove dec_text route r.overrides }

pub record SuspendOptions : Type 0 where
  pub queue : Bool
  pub max_queue_size : Option ℕ

unfoldable pub suspend : Text → SuspendOptions → Router → Router
unfolding set_add
suspend route o r =
    let queues =
      if o.queue
      then insert dec_text route (record { writes = []; max_size = or_else o.max_queue_size 10000 })
          r.write_queues
      else r.write_queues in
    record r { suspended = set_add route r.suspended; write_queues = queues }

-- Names of stores stand for their numbers.
pub record RouteStatus : Type 0 where
  pub active_overrides : List (Text × ℕ)
  pub suspended_routes : List Text
  pub queued : List (Text × ℕ)

unfoldable pub queued_counts : List (Text × WriteQueue) → List (Text × ℕ)
queued_counts [] = []
queued_counts (e ∷ l) = (e.0, length e.1.writes) ∷ queued_counts l

unfoldable pub route_status : Router → RouteStatus
unfolding queued_counts
route_status r = record {
  active_overrides = r.overrides;
  suspended_routes = r.suspended;
  queued = queued_counts r.write_queues;
}
