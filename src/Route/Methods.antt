-- ===== src/Route/Methods.antt =====
-- The methods get, put, delete and list of `routeStore`. What `put` does not await, the delete in
-- the cold store, runs before the write.
use noydb.Base.{ℕ, if◌then◌else◌, Option, none, some, List, [], ◌∷◌, length, Text}
use noydb.Store.{Envelope, StoreError, Outcome, ok, thrown, Method, NoydbStore}
use noydb.Indexes.{set_add}
use noydb.Route.{
  RouteOptions, WriteMethod, QueuedWrite, Router, Target, null_store, backend, BlobsOption, tiered,
  is_blob_chunks, route_name_for, store_for, size_store, cold_of, cold_for_read, maybe_queue_write,
}

module _ {S : Type 0} where
  -- `NULL_STORE`
  abbrev pub null_methods : NoydbStore S
  null_methods = record {
    get = λ v c id s. (s, ok none);
    put = λ v c id e expected s. (s, ok tt);
    delete = λ v c id s. (s, ok tt);
    list = λ v c s. (s, ok []);
    load_all = λ v s. (s, ok []);
    save_all = λ v d s. (s, ok tt);
  }

  abbrev pub methods : (ℕ → NoydbStore S) → Target → NoydbStore S
  methods stores null_store = null_methods
  methods stores (backend k) = stores k

-- The ids of `new Set(ids)` with more added.
unfoldable pub merge_ids : List Text → List Text → List Text
unfolding set_add
merge_ids ids [] = ids
merge_ids ids (x ∷ l) = merge_ids (set_add x ids) l

-- `catch(() => [])`
abbrev pub or_no_ids : Outcome StoreError (List Text) → List Text
or_no_ids (ok ids) = ids
or_no_ids (thrown _) = []

-- The store for the chunk of a blob in size-tiered routing.
abbrev pub tier_of : RouteOptions → BlobsOption → Envelope → Option ℕ
tier_of opts (tiered t) e = some (size_store opts t (length e.data_text))
tier_of opts _ e = none

unfoldable pub size_route : RouteOptions → Text → Envelope → Option ℕ
unfolding size_store is_blob_chunks
size_route opts collection e = if is_blob_chunks collection then tier_of opts opts.blobs e else none

module _ {S : Type 0} (stores : ℕ → NoydbStore S) (opts : RouteOptions) where
  abbrev pub Settled : Type 0 → Type 0
  Settled A = S × Outcome StoreError A

  -- What follows `maybeQueueWrite`.
  unfoldable pub unless_queued : Router → S → Option Router → Settled Unit → Router × Settled Unit
  unless_queued r s (some r') p = (r', (s, ok tt))
  unless_queued r s none p = (r, p)

  -- What follows the read of the store that the record is routed to.
  unfoldable pub after_hot :
      Option ℕ → Text → Text → Text → Settled (Option Envelope) → Settled (Option Envelope)
  after_hot (some k) vault collection id (s, ok none) = (stores k).get vault collection id s
  after_hot cold vault collection id p = p

  unfoldable pub get : Text → Text → Text → Router → Method S (Option Envelope)
  unfolding store_for cold_for_read after_hot
  get vault collection id r s =
      after_hot (cold_for_read opts collection) vault collection id
        ((methods stores (store_for opts vault collection r)).get vault collection id s)

  -- A delete in the cold store, whose error is dropped.
  unfoldable pub drop_cold : Option ℕ → Text → Text → Text → S → S
  drop_cold none vault collection id s = s
  drop_cold (some k) vault collection id s = ((stores k).delete vault collection id s).0

  -- The part of `put` that follows the queue.
  unfoldable pub put_now : Text → Text → Text → Envelope → Option ℕ → Router → Method S Unit
  unfolding size_route store_for cold_of drop_cold
  put_now vault collection id e expected r s = elim (size_route opts collection e) [
    | some k ↦ (stores k).put vault collection id e expected s
    | none ↦
        (methods stores (store_for opts vault collection r)).put vault collection id e expected
          (drop_cold (cold_of opts collection) vault collection id s)
  ]

  unfoldable pub put : Text → Text → Text → Envelope → Option ℕ → Router → S → Router × Settled Unit
  unfolding unless_queued maybe_queue_write put_now route_name_for
  put vault collection id e expected r s =
      let w : QueuedWrite = record {
        method = WriteMethod.put;
        vault = vault;
        collection = collection;
        id = id;
        envelope = some e;
        expected_version = expected;
      } in
      unless_queued r s (maybe_queue_write (route_name_for opts vault collection) w r)
        (put_now vault collection id e expected r s)

  -- What follows the delete in the store that the record is routed to.
  unfoldable pub after_delete : Option ℕ → Text → Text → Text → Settled Unit → Settled Unit
  unfolding drop_cold
  after_delete cold vault collection id (s, thrown x) = (s, thrown x)
  after_delete cold vault collection id (s, ok _) = (drop_cold cold vault collection id s, ok tt)

  -- The part of `delete` that follows the queue.
  unfoldable pub delete_now : Text → Text → Text → Router → Method S Unit
  unfolding store_for cold_of after_delete
  delete_now vault collection id r s =
      after_delete (cold_of opts collection) vault collection id
        ((methods stores (store_for opts vault collection r)).delete vault collection id s)

  unfoldable pub delete : Text → Text → Text → Router → S → Router × Settled Unit
  unfolding unless_queued maybe_queue_write delete_now route_name_for
  delete vault collection id r s =
      let w : QueuedWrite = record {
        method = WriteMethod.delete;
        vault = vault;
        collection = collection;
        id = id;
        envelope = none;
        expected_version = none;
      } in
      unless_queued r s (maybe_queue_write (route_name_for opts vault collection) w r)
        (delete_now vault collection id r s)

  -- What follows the list of the store that the collection is routed to.
  unfoldable pub after_list : Option ℕ → Text → Text → Settled (List Text) → Settled (List Text)
  unfolding merge_ids
  after_list (some k) vault collection (s, ok ids) =
      let (s', out) = (stores k).list vault collection s in (s', ok (merge_ids ids (or_no_ids out)))
  after_list cold vault collection p = p

  unfoldable pub list : Text → Text → Router → Method S (List Text)
  unfolding store_for cold_for_read after_list
  list vault collection r s =
      after_list (cold_for_read opts collection) vault collection
        ((methods stores (store_for opts vault collection r)).list vault collection s)
