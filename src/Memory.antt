-- ===== src/Memory.antt =====
-- packages/to-memory/src/index.ts: the store over nested `Map`s. A method returns the new maps
-- beside what its promise settles to.
mod Lookup
pub mod Writes
pub mod Snapshot
pub mod Pages
pub mod Lawful
mod Tests
use noydb.Base.{
  ℕ, zero, suc, ◌+◌, ◌-◌, ltb, ◌==◌, if◌then◌else◌, Bool, true, false, not, Option, none, some,
  List, [], ◌∷◌, map, lookup, length, take, drop, Text, codes, dec_text, starts_with, sort,
}
use Prim.Native.Nat.{min}
use noydb.Dict.{keys, insert, remove}
use noydb.Store.{Envelope, StoreError, conflict, Outcome, ok, thrown, Records, VaultSnapshot}

-- vault -> collection -> id -> envelope
abbrev pub Memory : Type 0
Memory = List (Text × VaultSnapshot)

module _ {A : Type 0} where
  -- `m?.get(k)`
  abbrev pub find_in : Text → Option (List (Text × A)) → Option A
  find_in k none = none
  find_in k (some m) = lookup dec_text k m

  abbrev pub or_empty : Option (List A) → List A
  or_empty none = []
  or_empty (some l) = l

  -- A new inner map where there is none.
  unfoldable pub ensure : Text → List (Text × List A) → List (Text × List A)
  ensure k m = elim (lookup dec_text k m) [ none ↦ insert dec_text k [] m | some _ ↦ m ]

unfoldable pub get : Text → Text → Text → Memory → Option Envelope
get vault collection id s = find_in id (find_in collection (find_in vault (some s)))

-- The helper `getCollection`: the maps with the collection made, and the collection.
unfoldable pub get_collection : Text → Text → Memory → Memory × Records
unfolding ensure
get_collection vault collection s =
    let s' = ensure vault s in
    let comp = ensure collection (or_empty (lookup dec_text vault s')) in
    (insert dec_text vault comp s', or_empty (lookup dec_text collection comp))

-- The collection is one object with the one in the maps, so a write to it is a write to them.
unfoldable pub set_in : Text → Text → Text → Envelope → Memory → Memory
set_in vault collection id envelope s =
    let comp = or_empty (lookup dec_text vault s) in
    let coll = or_empty (lookup dec_text collection comp) in
    insert dec_text vault (insert dec_text collection (insert dec_text id envelope coll) comp) s

-- The guard of `put`: the version that is found instead of the one expected.
unfoldable pub version_conflict : Option ℕ → Option Envelope → Option ℕ
version_conflict (some expected) (some existing) =
    if existing.v == expected then none else some existing.v
version_conflict _ _ = none

unfoldable pub put :
    Text → Text → Text → Envelope → Option ℕ → Memory → Memory × Outcome StoreError Unit
unfolding get_collection version_conflict
put vault collection id envelope expected s =
    let (s', coll) = get_collection vault collection s in
    elim (version_conflict expected (lookup dec_text id coll)) [
      | some found ↦ (s', thrown (conflict found))
      | none ↦ (set_in vault collection id envelope s', ok tt)
    ]

unfoldable pub delete : Text → Text → Text → Memory → Memory
delete vault collection id s = elim (lookup dec_text vault s) [
  | none ↦ s
  | some comp ↦ elim (lookup dec_text collection comp) [
    | none ↦ s
    | some coll ↦
        insert dec_text vault (insert dec_text collection (remove dec_text id coll) comp) s
  ]
]

unfoldable pub list : Text → Text → Memory → List Text
list vault collection s = elim (find_in collection (find_in vault (some s))) [
  | none ↦ []
  | some coll ↦ keys coll
]

-- `collName.startsWith('_')`
abbrev pub is_internal : Text → Bool
is_internal name = starts_with (codes "_") name

-- The collections whose name is, or is not, internal.
unfoldable pub user_only : VaultSnapshot → VaultSnapshot
user_only [] = []
user_only (e ∷ l) = let rest = user_only l in if is_internal e.0 then rest else e ∷ rest

unfoldable pub internal_only : VaultSnapshot → VaultSnapshot
internal_only [] = []
internal_only (e ∷ l) = let rest = internal_only l in if is_internal e.0 then e ∷ rest else rest

unfoldable pub load_all : Text → Memory → VaultSnapshot
unfolding user_only
load_all vault s = elim (lookup dec_text vault s) [ none ↦ [] | some comp ↦ user_only comp ]

-- The inner loop of `saveAll`.
unfoldable pub save_records : Text → Text → Records → Memory → Memory
unfolding set_in
save_records vault collection [] s = s
save_records vault collection ((id, envelope) ∷ l) s =
    save_records vault collection l (set_in vault collection id envelope s)

-- The outer loop of `saveAll`.
unfoldable pub save_collections : Text → VaultSnapshot → Memory → Memory
unfolding save_records get_collection
save_collections vault [] s = s
save_collections vault ((name, records) ∷ l) s =
    save_collections vault l (save_records vault name records (get_collection vault name s).0)

-- The first loop of `saveAll`, which deletes the collections that are not internal.
unfoldable pub clear_user : Text → Memory → Memory
unfolding internal_only
clear_user vault s = elim (lookup dec_text vault s) [
  | none ↦ s
  | some comp ↦ insert dec_text vault (internal_only comp) s
]

unfoldable pub save_all : Text → VaultSnapshot → Memory → Memory
unfolding save_collections clear_user
save_all vault snapshot s = save_collections vault snapshot (clear_user vault s)

unfoldable pub list_vaults : Memory → List Text
list_vaults s = keys s

pub record ListPageResult : Type 0 where
  pub items : List (Text × Envelope)
  pub next_cursor : Option ℕ

-- The loop over `ids[start..end)`, which skips an id that the collection lacks.
unfoldable pub page_items : Records → List Text → List (Text × Envelope)
page_items coll [] = []
page_items coll (id ∷ ids) =
    let rest = page_items coll ids in
    elim (lookup dec_text id coll) [ none ↦ rest | some e ↦ (id, e) ∷ rest ]

-- The cursor is the number whose decimal text the source passes along.
unfoldable pub list_page : Text → Text → Option ℕ → ℕ → Memory → ListPageResult
unfolding sort page_items
list_page vault collection cursor limit s = elim (find_in collection (find_in vault (some s))) [
  | none ↦ record { items = []; next_cursor = none }
  | some coll ↦
      let ids = sort (keys coll) in
      let start : ℕ = elim cursor [ none ↦ 0 | some n ↦ n ] in
      let end = min (start + limit) (length ids) in
      record {
        items = page_items coll (take (end - start) (drop start ids));
        next_cursor = if ltb end (length ids) then some end else none;
      }
]
