-- ===== src/Route/Snapshots.antt =====
-- loadAll and saveAll of `routeStore`, `mergeSnapshots`, and what the router forwards from all its
-- stores: listVaults and ping.
pub mod Newest
use noydb.Base.{
  ℕ, ◌==◌, Bool, true, false, ◌||◌, if◌then◌else◌, Option, none, some, List, [], ◌∷◌, ◌++◌, lookup,
  Text, dec_text, text_le,
}
use noydb.Dict.{insert}
use noydb.Objects.{absent, own, inherited, read}
use noydb.Store.{
  Envelope, Records, VaultSnapshot, StoreError, Outcome, ok, thrown, Method, NoydbStore,
}
use noydb.Route.{
  RouteOptions, BlobStoreRoute, BlobsOption, no_blobs, simple, tiered, AgeRoute, Router, Target,
  null_store, backend, matched_route, store_for,
}
use noydb.Route.Methods.{methods, merge_ids}

-- The body of the inner loop of `mergeSnapshots`. The time of an inherited member is missing, and
-- no time is greater or equal to that.
unfoldable pub keep_newest : Text → Envelope → Records → Records
unfolding read
keep_newest id envelope records = elim (read id records) [
  | absent ↦ insert dec_text id envelope records
  | own existing ↦
      if text_le existing.ts envelope.ts then insert dec_text id envelope records else records
  | inherited ↦ records
]

unfoldable pub merge_records : Records → Records → Records
unfolding keep_newest
merge_records merged [] = merged
merge_records merged (e ∷ l) = merge_records (keep_newest e.0 e.1 merged) l

-- The body of the outer loop. Where the collection has the name of an inherited member, the records
-- are written to that member, which all objects share, and are not in the merged snapshot.
unfoldable pub merge_collection : Text → Records → VaultSnapshot → VaultSnapshot
unfolding merge_records read
merge_collection collection records merged = elim (read collection merged) [
  | absent ↦ insert dec_text collection records merged
  | own there ↦ insert dec_text collection (merge_records there records) merged
  | inherited ↦ merged
]

unfoldable pub merge_snapshot : VaultSnapshot → VaultSnapshot → VaultSnapshot
unfolding merge_collection
merge_snapshot merged [] = merged
merge_snapshot merged (e ∷ l) = merge_snapshot (merge_collection e.0 e.1 merged) l

unfoldable pub merge_all : VaultSnapshot → List VaultSnapshot → VaultSnapshot
unfolding merge_snapshot
merge_all merged [] = merged
merge_all merged (s ∷ l) = merge_all (merge_snapshot merged s) l

unfoldable pub merge_snapshots : List VaultSnapshot → VaultSnapshot
unfolding merge_all
merge_snapshots snapshots = merge_all [] snapshots

-- `set.has` and `set.add` on stores
unfoldable pub has_store : ℕ → List ℕ → Bool
has_store k [] = false
has_store k (j ∷ l) = let rest = has_store k l in if k == j then true else rest

unfoldable pub add_store : ℕ → List ℕ → List ℕ
unfolding has_store
add_store k l = if has_store k l then l else l ++ k ∷ []

unfoldable pub add_route_stores : List (Text × ℕ) → List ℕ → List ℕ
unfolding add_store
add_route_stores [] l = l
add_route_stores (e ∷ routes) l = add_route_stores routes (add_store e.1 l)

unfoldable pub add_optional : Option ℕ → List ℕ → List ℕ
unfolding add_store
add_optional none l = l
add_optional (some k) l = add_store k l

unfoldable pub add_blob_stores : BlobsOption → List ℕ → List ℕ
unfolding add_optional add_store
add_blob_stores no_blobs l = l
add_blob_stores (simple s) l = add_store s l
add_blob_stores (tiered t) l = add_optional t.small (add_store t.large l)

unfoldable pub add_cold : Option AgeRoute → List ℕ → List ℕ
unfolding add_store
add_cold none l = l
add_cold (some a) l = add_store a.cold l

unfoldable pub stores_for_vault : RouteOptions → Text → List ℕ
unfolding matched_route add_route_stores add_cold add_blob_stores
stores_for_vault opts vault = elim (matched_route vault opts.vault_routes) [
  | some e ↦ e.1 ∷ []
  | none ↦
      add_route_stores opts.routes
        (add_cold opts.age (add_blob_stores opts.blobs (opts.default_store ∷ [])))
]

-- The stores of every option; `others` are those of the options that no operation reads.
unfoldable pub all_stores : RouteOptions → List (Text × ℕ) → Option ℕ → List ℕ
unfolding add_route_stores add_cold add_blob_stores add_optional
all_stores opts blob_routes archive_store = add_optional archive_store (
    add_optional opts.overflow (
      add_route_stores blob_routes (
        add_route_stores opts.vault_routes (
          add_route_stores opts.routes
            (add_cold opts.age (add_blob_stores opts.blobs (opts.default_store ∷ [])))))))

-- `partitioned.get(s)![collection] = records`, with the entry made if there is none.
unfoldable pub same_target : Target → Target → Bool
same_target null_store null_store = true
same_target (backend a) (backend b) = a == b
same_target _ _ = false

unfoldable pub add_part :
    Target → Text → Records → List (Target × VaultSnapshot) → List (Target × VaultSnapshot)
unfolding same_target
add_part t collection records [] = (t, (collection, records) ∷ []) ∷ []
add_part t collection records (p ∷ l) =
    if same_target t p.0
    then (p.0, insert dec_text collection records p.1) ∷ l
    else p ∷ add_part t collection records l

unfoldable pub partition :
    RouteOptions
    → Text
    → Router
    → VaultSnapshot
    → List (Target × VaultSnapshot)
    → List (Target × VaultSnapshot)
unfolding store_for add_part
partition opts vault r [] parts = parts
partition opts vault r (e ∷ l) parts =
    partition opts vault r l (add_part (store_for opts vault e.0 r) e.0 e.1 parts)

-- `catch(() => ({}))`
abbrev pub or_no_snapshot : Outcome StoreError VaultSnapshot → VaultSnapshot
or_no_snapshot (ok d) = d
or_no_snapshot (thrown _) = []

-- `Promise.all` of writes settles to the first error, after all of them have run.
abbrev pub first_error : Outcome StoreError Unit → Outcome StoreError Unit → Outcome StoreError Unit
first_error (ok _) later = later
first_error (thrown x) later = thrown x

module _ {S : Type 0} (stores : ℕ → NoydbStore S) where
  unfoldable pub load_each : List ℕ → Text → S → S × List VaultSnapshot
  load_each [] vault s = (s, [])
  load_each (k ∷ l) vault s =
      let (s1, out) = (stores k).load_all vault s in
      let (s2, snapshots) = load_each l vault s1 in (s2, or_no_snapshot out ∷ snapshots)

  unfoldable pub load_all : RouteOptions → Text → Method S VaultSnapshot
  unfolding load_each stores_for_vault merge_snapshots
  load_all opts vault s =
      let (s', snapshots) = load_each (stores_for_vault opts vault) vault s in
      (s', ok (merge_snapshots snapshots))

  unfoldable pub save_parts : List (Target × VaultSnapshot) → Text → Method S Unit
  save_parts [] vault s = (s, ok tt)
  save_parts (p ∷ l) vault s =
      let (s1, out) = (methods stores p.0).save_all vault p.1 s in
      let (s2, later) = save_parts l vault s1 in (s2, first_error out later)

  unfoldable pub save_all : RouteOptions → Text → VaultSnapshot → Router → Method S Unit
  unfolding save_parts partition
  save_all opts vault snapshot r s = save_parts (partition opts vault r snapshot []) vault s

-- The stores that have the method, with it.
module _ {S A : Type 0} (method : ℕ → Option (Method S A)) (failed : A) where
  unfoldable pub ask_each : List ℕ → S → S × List A
  ask_each [] s = (s, [])
  ask_each (k ∷ l) s = elim (method k) [
    | none ↦ ask_each l s
    | some m ↦
        let (s1, out) = m s in
        let (s2, answers) = ask_each l s1 in
        (s2, (elim out [ ok a ↦ a | thrown _ ↦ failed ]) ∷ answers)
  ]

unfoldable pub merge_vaults : List (List Text) → List Text → List Text
unfolding merge_ids
merge_vaults [] l = l
merge_vaults (ids ∷ more) l = merge_vaults more (merge_ids l ids)

unfoldable pub any_answered : List Bool → Bool
any_answered [] = false
any_answered (b ∷ l) = b || any_answered l

module _ {S : Type 0} where
  unfoldable pub list_vaults : (ℕ → Option (Method S (List Text))) → List ℕ → Method S (List Text)
  unfolding ask_each merge_vaults
  list_vaults method all s =
      let (s', answers) = ask_each method [] all s in (s', ok (merge_vaults answers []))

  unfoldable pub ping : (ℕ → Option (Method S Bool)) → List ℕ → Method S Bool
  unfolding ask_each any_answered
  ping method all s =
      let (s', answers) = ask_each method false all s in (s', ok (any_answered answers))
