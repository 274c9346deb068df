-- ===== src/Sync/Track.antt =====
-- The dirty log under `trackChange`.
use noydb.Base.{◌≡◌, refl, if◌then◌else◌, true, Option, none, some, List, [], ◌∷◌, Text, arith}
use noydb.Sync.{DirtyEntry, is_entry, is_dirty, record_change}
use noydb.Sync.Push.Loop.{UniqueDirty}

-- The entry of a record, if it has one.
unfoldable pub find_dirty : Text → Text → List DirtyEntry → Option DirtyEntry
find_dirty c i [] = none
find_dirty c i (d ∷ l) = let rest = find_dirty c i l in if is_entry c i d then some d else rest

is_dirty-record_change :
    (e : DirtyEntry) (l : List DirtyEntry) (c i : Text)
    → is_dirty c i (record_change e l) ≡ (if is_entry c i e then true else is_dirty c i l)
unfolding is_dirty record_change
is_dirty-record_change e [] c i = refl
is_dirty-record_change e (d ∷ l) c i = ground (arith, is_dirty-record_change e l c i)

find_dirty-record_change :
    (e : DirtyEntry) (l : List DirtyEntry) (c i : Text)
    → find_dirty c i (record_change e l) ≡ (if is_entry c i e then some e else find_dirty c i l)
unfolding find_dirty record_change
find_dirty-record_change e [] c i = refl
find_dirty-record_change e (d ∷ l) c i = ground (arith, find_dirty-record_change e l c i)

UniqueDirty-record_change :
    (e : DirtyEntry) (l : List DirtyEntry) → UniqueDirty l → UniqueDirty (record_change e l)
unfolding record_change is_dirty
UniqueDirty-record_change e [] u = (refl, tt)
UniqueDirty-record_change e (d ∷ l) u =
    ground (arith, UniqueDirty-record_change e l u.1, is_dirty-record_change e l d.collection d.id)

-- Recording a change keeps one entry for a record; the record's entry is then the new one, and
-- every other record has the entry that it had.
pub record_change_lem :
    (e : DirtyEntry) (l : List DirtyEntry)
    → UniqueDirty l
    → UniqueDirty (record_change e l)
      × ((c i : Text)
          → find_dirty c i (record_change e l)
            ≡ (if is_entry c i e then some e else find_dirty c i l))
record_change_lem e l u = (UniqueDirty-record_change e l u, find_dirty-record_change e l)
