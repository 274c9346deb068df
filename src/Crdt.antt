-- ===== src/Crdt.antt =====
-- packages/hub/src/crdt.ts: the states of the CRDT modes, their merge, and how they are built from
-- a record. Objects are lists of fields in insertion order; a field's value is any `V`, and
-- `JSON.stringify` at values is a parameter.
pub mod Lww
pub mod Rga
pub mod Build
mod Tests
use noydb.Base.{
  ℕ, suc, ◌+◌, if◌then◌else◌, ite, Bool, true, false, Option, none, some, List, [], ◌∷◌, ◌++◌, map,
  lookup, Text, dec_text, text_le,
}
use noydb.Dict.{keys, insert}
use noydb.Objects.{Member, absent, own, inherited, read}

pub record Register (V : Type 0) : Type 0 where
  pub value : V
  pub ts : Text

abbrev pub Fields : Type 0 → Type 0
Fields V = List (Text × Register V)

pub record RgaState (V : Type 0) : Type 0 where
  pub items : List (Text × V)
  pub tombstones : List Text

pub data CrdtState (V : Type 0) : Type 0 where
  lww_map : Fields V → CrdtState V
  rga : RgaState V → CrdtState V
  yjs : Text → CrdtState V

pub data Snapshot (V : Type 0) : Type 0 where
  fields : List (Text × V) → Snapshot V
  array : List V → Snapshot V
  update : Text → Snapshot V

-- `set.has(x)`
unfoldable pub member : Text → List Text → Bool
member x [] = false
member x (y ∷ l) = let rest = member x l in ite (dec_text x y) true rest

-- `new Set([...l, ...m])`
unfoldable pub add_all : List Text → List Text → List Text
unfolding member
add_all l [] = l
add_all l (x ∷ m) = add_all (if member x l then l else l ++ x ∷ []) m

module _ {V : Type 0} where
  -- The body of the loop of `mergeLwwMap`.
  unfoldable pub pick : Option (Register V) → Option (Register V) → Option (Register V)
  pick none fb = fb
  pick (some fa) none = some fa
  pick (some fa) (some fb) = if text_le fb.ts fa.ts then some fa else some fb

  -- The same at what the two objects answer. A time that is missing is not greater or equal, so
  -- that an inherited member loses on the left and wins on the right. A member that is picked is
  -- a function, which `JSON.stringify` leaves out of the merged state.
  unfoldable pub pick_members : Member (Register V) → Member (Register V) → Option (Register V)
  unfolding pick
  pick_members absent absent = none
  pick_members absent (own fb) = some fb
  pick_members absent inherited = none
  pick_members (own fa) absent = some fa
  pick_members (own fa) (own fb) = pick (some fa) (some fb)
  pick_members (own fa) inherited = none
  pick_members inherited absent = none
  pick_members inherited (own fb) = some fb
  pick_members inherited inherited = none

  unfoldable pub set_field : Text → Option (Register V) → Fields V → Fields V
  set_field field none merged = merged
  set_field field (some reg) merged = insert dec_text field reg merged

  unfoldable pub merge_fields : Fields V → Fields V → List Text → Fields V → Fields V
  unfolding pick_members set_field read
  merge_fields a b [] merged = merged
  merge_fields a b (field ∷ l) merged =
      merge_fields a b l (set_field field (pick_members (read field a) (read field b)) merged)

  unfoldable pub merge_lww_map : Fields V → Fields V → Fields V
  unfolding merge_fields add_all
  merge_lww_map a b = merge_fields a b (add_all (add_all [] (keys a)) (keys b)) []

  -- The items whose id is not in the set.
  unfoldable pub without : List Text → List (Text × V) → List (Text × V)
  unfolding member
  without dead [] = []
  without dead (i ∷ l) = let rest = without dead l in if member i.0 dead then rest else i ∷ rest

  unfoldable pub merge_rga : RgaState V → RgaState V → RgaState V
  unfolding without add_all
  merge_rga a b = record {
    items = a.items ++ without (keys a.items) b.items;
    tombstones = add_all (add_all [] a.tombstones) b.tombstones;
  }

  unfoldable pub merge_crdt_states : CrdtState V → CrdtState V → CrdtState V
  unfolding merge_lww_map merge_rga
  merge_crdt_states (lww_map a) (lww_map b) = lww_map (merge_lww_map a b)
  merge_crdt_states (rga a) (rga b) = rga (merge_rga a b)
  merge_crdt_states a b = a

  unfoldable pub live_values : RgaState V → List V
  unfolding without
  live_values s = map (λ i. i.1) (without s.tombstones s.items)

  unfoldable pub register_values : Fields V → List (Text × V)
  register_values [] = []
  register_values ((field, reg) ∷ l) = (field, reg.value) ∷ register_values l

  unfoldable pub resolve_crdt_snapshot : CrdtState V → Snapshot V
  unfolding live_values register_values
  resolve_crdt_snapshot (lww_map l) = fields (register_values l)
  resolve_crdt_snapshot (rga s) = array (live_values s)
  resolve_crdt_snapshot (yjs u) = update u

  -- The fields of the new record, at the time `now`.
  unfoldable pub stamp : Text → List (Text × V) → Fields V
  stamp now [] = []
  stamp now ((field, value) ∷ l) = (field, record { value = value; ts = now }) ∷ stamp now l

  -- The loop over the existing fields; `in` finds inherited members too.
  unfoldable pub preserve : Fields V → Fields V → Fields V
  unfolding read
  preserve [] built = built
  preserve ((field, reg) ∷ l) built = preserve l (elim (read field built) [
    | absent ↦ insert dec_text field reg built
    | own _ ↦ built
    | inherited ↦ built
  ])

  unfoldable pub build_lww_map_state : List (Text × V) → Option (Fields V) → Text → Fields V
  unfolding stamp preserve
  build_lww_map_state record' none now = stamp now record'
  build_lww_map_state record' (some existing) now = preserve existing (stamp now record')

-- `buildRgaState`: `json` is `JSON.stringify`, and `nid n` what the n-th call of `generateNid`
-- answers.
module _ {V : Type 0} (json : V → Text) (nid : ℕ → Text) where
  -- The map from a text to the first item with it.
  unfoldable pub index_items : List (Text × V) → List (Text × (Text × V)) → List (Text × (Text × V))
  index_items [] by_value = by_value
  index_items (item ∷ l) by_value = index_items l (elim (lookup dec_text (json item.1) by_value) [
    | none ↦ insert dec_text (json item.1) item by_value
    | some _ ↦ by_value
  ])

  -- The item of an element, and how many ids are used afterwards.
  unfoldable pub next_item : Option (Text × V) → V → ℕ → List Text → (Text × V) × ℕ
  unfolding member
  next_item none el n used = ((nid n, el), suc n)
  next_item (some m) el n used = if member m.0 used then ((nid n, el), suc n) else (m, n)

  -- The loop over the array: the new items, and the ids that they use.
  unfoldable pub assign :
      List (Text × (Text × V)) → List V → ℕ → List Text → List (Text × V) × List Text
  unfolding next_item add_all
  assign by_value [] n used = ([], used)
  assign by_value (el ∷ l) n used =
      let (item, n') = next_item (lookup dec_text (json el) by_value) el n used in
      let (rest, used') = assign by_value l n' (add_all used (item.0 ∷ [])) in (item ∷ rest, used')

  -- The tombstones, with the ids that are no longer used.
  unfoldable pub entomb : List Text → List (Text × V) → List Text → List Text
  unfolding add_all
  entomb used [] tombstones = tombstones
  entomb used (item ∷ l) tombstones =
      entomb used l (if member item.0 used then tombstones else add_all tombstones (item.0 ∷ []))

  unfoldable pub build_rga_state : List V → Option (RgaState V) → RgaState V
  unfolding index_items assign entomb without
  build_rga_state arr none = record { items = (assign [] arr 0 []).0; tombstones = [] }
  build_rga_state arr (some existing) =
      let (items, used) = assign (index_items existing.items []) arr 0 [] in
      record {
        items = items ++ without used existing.items;
        tombstones = entomb used existing.items existing.tombstones;
      }
