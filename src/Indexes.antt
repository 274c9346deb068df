-- ===== src/Indexes.antt =====
-- packages/hub/src/query/indexes.ts: the hash indexes of a collection, from a field and the text of
-- a value to the ids of the records that have it.
pub mod Buckets
pub mod Coherent
pub mod Build
use noydb.Base.{
  ◌==◌, if◌then◌else◌, ite, Bool, true, false, Option, none, some, List, [], ◌∷◌, ◌++◌, lookup,
  Text, codes, dec_text,
}
use noydb.Dict.{insert, keys}
use noydb.Dict
use noydb.Json.{Json, Items, null, bool, number, string, array, object, nil, item}
use noydb.Predicate.{read_path}

-- The buckets of one index: a set of ids for a key.
abbrev pub HashIndex : Type 0
HashIndex = List (Text × List Text)

-- The indexes by field, in the order of declaration.
abbrev pub CollectionIndexes : Type 0
CollectionIndexes = List (Text × HashIndex)

unfoldable pub stringify_key : Option Json → Text
stringify_key none = 0 ∷ (codes "NULL" ++ 0 ∷ [])
stringify_key (some null) = 0 ∷ (codes "NULL" ++ 0 ∷ [])
stringify_key (some (string s)) = s
stringify_key (some (number t)) = t
stringify_key (some (bool true)) = codes "true"
stringify_key (some (bool false)) = codes "false"
stringify_key (some (array xs)) = 0 ∷ (codes "OBJECT" ++ 0 ∷ [])
stringify_key (some (object fs)) = 0 ∷ (codes "OBJECT" ++ 0 ∷ [])

-- The key under which a value is indexed, if it is.
abbrev pub index_key : Option Json → Option Text
index_key none = none
index_key (some null) = none
index_key (some v) = some (stringify_key (some v))

-- `set.has(id)`, `set.add(id)` and `set.delete(id)`
unfoldable pub member : Text → List Text → Bool
member x [] = false
member x (y ∷ l) = let rest = member x l in ite (dec_text x y) true rest

unfoldable pub set_add : Text → List Text → List Text
unfolding member
set_add x l = if member x l then l else l ++ x ∷ []

unfoldable pub set_delete : Text → List Text → List Text
set_delete x [] = []
set_delete x (y ∷ l) = let rest = set_delete x l in ite (dec_text x y) rest (y ∷ rest)

abbrev pub bucket_of : Option (List Text) → List Text
bucket_of none = []
bucket_of (some ids) = ids

abbrev pub add_key : Option Text → Text → HashIndex → HashIndex
add_key none id idx = idx
add_key (some key) id idx =
    insert dec_text key (set_add id (bucket_of (lookup dec_text key idx))) idx

unfoldable pub add_to_index : Text → HashIndex → Text → Json → HashIndex
unfolding read_path stringify_key set_add
add_to_index field idx id doc = add_key (index_key (read_path doc field)) id idx

-- An empty bucket is dropped.
abbrev pub put_bucket : Text → List Text → HashIndex → HashIndex
put_bucket key [] idx = Dict.remove dec_text key idx
put_bucket key (x ∷ ids) idx = insert dec_text key (x ∷ ids) idx

abbrev pub delete_key : Option Text → Text → HashIndex → HashIndex
delete_key none id idx = idx
delete_key (some key) id idx = elim (lookup dec_text key idx) [
  | none ↦ idx
  | some ids ↦ put_bucket key (set_delete id ids) idx
]

unfoldable pub remove_from_index : Text → HashIndex → Text → Json → HashIndex
unfolding read_path stringify_key set_delete
remove_from_index field idx id doc = delete_key (index_key (read_path doc field)) id idx

unfoldable pub declare_index : Text → CollectionIndexes → CollectionIndexes
declare_index field l = elim (lookup dec_text field l) [
  | some _ ↦ l
  | none ↦ insert dec_text field [] l
]

abbrev pub has_index : Text → CollectionIndexes → Bool
has_index field l = elim (lookup dec_text field l) [ some _ ↦ true | none ↦ false ]

unfoldable pub add_records : Text → HashIndex → List (Text × Json) → HashIndex
unfolding add_to_index
add_records field idx [] = idx
add_records field idx ((id, doc) ∷ l) = add_records field (add_to_index field idx id doc) l

unfoldable pub build : List (Text × Json) → CollectionIndexes → CollectionIndexes
unfolding add_records
build records [] = []
build records ((field, idx) ∷ l) = (field, add_records field [] records) ∷ build records l

unfoldable pub remove : Text → Json → CollectionIndexes → CollectionIndexes
unfolding remove_from_index
remove id doc [] = []
remove id doc ((field, idx) ∷ l) = (field, remove_from_index field idx id doc) ∷ remove id doc l

unfoldable pub add_to_all : Text → Json → CollectionIndexes → CollectionIndexes
unfolding add_to_index
add_to_all id doc [] = []
add_to_all id doc ((field, idx) ∷ l) = (field, add_to_index field idx id doc) ∷ add_to_all id doc l

unfoldable pub upsert : Text → Json → Option Json → CollectionIndexes → CollectionIndexes
unfolding remove add_to_all
upsert id new_doc none l = add_to_all id new_doc l
upsert id new_doc (some previous) l = add_to_all id new_doc (remove id previous l)

unfoldable pub clear : CollectionIndexes → CollectionIndexes
clear [] = []
clear ((field, idx) ∷ l) = (field, []) ∷ clear l

unfoldable pub lookup_equal : Text → Option Json → CollectionIndexes → Option (List Text)
unfolding stringify_key
lookup_equal field v l = elim (lookup dec_text field l) [
  | none ↦ none
  | some idx ↦ some (bucket_of (lookup dec_text (stringify_key v) idx))
]

abbrev pub add_ids : List Text → List Text → List Text
add_ids out [] = out
add_ids out (id ∷ l) = add_ids (set_add id out) l

unfoldable pub union_of : HashIndex → List Text → Items → List Text
unfolding stringify_key set_add
union_of idx out nil = out
union_of idx out (item v xs) =
    union_of idx (add_ids out (bucket_of (lookup dec_text (stringify_key (some v)) idx))) xs

unfoldable pub lookup_in : Text → Items → CollectionIndexes → Option (List Text)
unfolding union_of
lookup_in field values l = elim (lookup dec_text field l) [
  | none ↦ none
  | some idx ↦ some (union_of idx [] values)
]
