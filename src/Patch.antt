-- ===== src/Patch.antt =====
-- packages/hub/src/ledger/patch.ts: JSON Patch, its computation and its application. What throws
-- is `failed`.
pub mod Escape
pub mod Same
pub mod Equal
pub mod Paths
pub mod Lift
mod Additions
pub mod RoundTrip
mod Tests
use noydb.Base.{
  ℕ, zero, suc, ◌+◌, ◌-◌, ◌*◌, ◌==◌, ◌&&◌, ltb, leb, if◌then◌else◌, ite, Bool, true, false, Option,
  none, some, List, [], ◌∷◌, ◌++◌, map, Text, codes, dec_text,
}
use noydb.Json.{
  Json, Items, Fields, null, bool, number, string, array, object, nil, item, end, field, find,
  count, with_field, without_field, nth, size,
}

pub data Op : Type 0 where
  add : Text → Json → Op
  remove : Text → Op
  replace : Text → Json → Op

abbrev pub path_of : Op → Text
path_of (add p v) = p
path_of (remove p) = p
path_of (replace p v) = p

-- What `applyPatch` answers, or that it throws.
pub data Result {ℓ} (A : Type ℓ) : Type ℓ where
  ok : A → Result A
  failed : Result A

infixl 5 ◌>>=◌
abbrev pub ◌>>=◌ {ℓ κ} : {A : Type ℓ} {B : Type κ} → Result A → (A → Result B) → Result B
ok a >>= f = f a
failed >>= f = failed

-- `segment.replace(/~/g, '~0')` and `.replace(/\//g, '~1')`
unfoldable pub replace_all : ℕ → Text → Text → Text
replace_all c by [] = []
replace_all c by (x ∷ s) = let rest = replace_all c by s in if x == c then by ++ rest else x ∷ rest

unfoldable pub escape_path_segment : Text → Text
unfolding replace_all
escape_path_segment s = replace_all b'/' (codes "~1") (replace_all b'~' (codes "~0") s)

-- `.replace(/~d/g, c)`, from the left
unfoldable pub replace_pair : ℕ → ℕ → Text → Text
replace_pair d c [] = []
replace_pair d c (x ∷ []) = x ∷ []
replace_pair d c (x ∷ y ∷ s) = elim ((x == b'~') && (y == d)) [
  | true ↦ c ∷ replace_pair d c s
  | false ↦ x ∷ replace_pair d c (y ∷ s)
]

unfoldable pub unescape_path_segment : Text → Text
unfolding replace_pair
unescape_path_segment s = replace_pair b'0' b'~' (replace_pair b'1' b'/' s)

-- `s.split('/')`, with the segment that is being read first.
unfoldable pub split_from : Text → Text → List Text
split_from seen [] = seen ∷ []
split_from seen (c ∷ s) = elim (c == b'/') [
  | true ↦ seen ∷ split_from [] s
  | false ↦ split_from (seen ++ c ∷ []) s
]

unfoldable pub parse_path : Text → Result (List Text)
unfolding split_from unescape_path_segment
parse_path [] = failed
parse_path (c ∷ s) = if c == b'/' then ok (map unescape_path_segment (split_from [] s)) else failed

abbrev pub child_path : Text → Text → Text
child_path path key = path ++ (codes "/" ++ escape_path_segment key)

unfoldable mutual
  unfolding find count size dec_text

  pub deep_equal : Json → Json → Bool
  deep_equal null null = true
  deep_equal (bool true) (bool true) = true
  deep_equal (bool false) (bool false) = true
  deep_equal (number s) (number t) = ite (dec_text s t) true false
  deep_equal (string s) (string t) = ite (dec_text s t) true false
  deep_equal (array xs) (array ys) = if size xs == size ys then items_equal xs ys else false
  deep_equal (object fs) (object gs) = if count fs == count gs then fields_equal fs gs else false
  deep_equal _ _ = false

  pub items_equal : Items → Items → Bool
  items_equal nil ys = true
  items_equal (item x xs) nil = false
  items_equal (item x xs) (item y ys) = deep_equal x y && items_equal xs ys

  -- Each field of the first object is equal in the second.
  pub fields_equal : Fields → Fields → Bool
  fields_equal end gs = true
  fields_equal (field k v fs) gs = elim (find k gs) [
    | none ↦ false
    | some w ↦ deep_equal v w && fields_equal fs gs
  ]

-- The fields of `next` that `prev` has not.
unfoldable pub diff_added : Text → Fields → Fields → List Op
unfolding find
diff_added path prev end = []
diff_added path prev (field k w gs) =
    let rest = diff_added path prev gs in
    elim (find k prev) [ none ↦ add (child_path path k) w ∷ rest | some _ ↦ rest ]

unfoldable mutual
  unfolding deep_equal diff_added escape_path_segment

  pub diff : Json → Json → Text → List Op
  diff null null path = []
  diff (bool true) (bool true) path = []
  diff (bool false) (bool false) path = []
  diff (number s) (number t) path = ite (dec_text s t) [] (replace path (number t) ∷ [])
  diff (string s) (string t) path = ite (dec_text s t) [] (replace path (string t) ∷ [])
  diff (array xs) (array ys) path =
      if deep_equal (array xs) (array ys) then [] else replace path (array ys) ∷ []
  diff (object fs) (object gs) path = diff_fields fs gs path ++ diff_added path fs gs
  diff prev next path = replace path next ∷ []

  -- The pass over the fields of `prev`.
  pub diff_fields : Fields → Fields → Text → List Op
  diff_fields end gs path = []
  diff_fields (field k v fs) gs path =
      elim (find k gs) [
        | none ↦ remove (child_path path k) ∷ []
        | some w ↦ diff v w (child_path path k)
      ]
      ++ diff_fields fs gs path

unfoldable pub compute_patch : Json → Json → List Op
unfolding diff
compute_patch prev next = diff prev next []

-- `/^\d+$/` and `parseInt`
unfoldable pub read_digits : ℕ → Text → Option ℕ
read_digits n [] = some n
read_digits n (c ∷ s) =
    let rest = read_digits (n * 10 + (c - b'0')) s in
    if leb b'0' c && leb c b'9' then rest else none

unfoldable pub parse_array_index : Text → ℕ → Result ℕ
unfolding read_digits
parse_array_index [] max = failed
parse_array_index (c ∷ s) max = elim (read_digits 0 (c ∷ s)) [
  | none ↦ failed
  | some n ↦ if leb n max then ok n else failed
]

-- `next[idx] = v`, `next.splice(idx, 1)` and `next.splice(idx, 0, v)`. A write at the length
-- appends.
unfoldable pub set_item : ℕ → Json → Items → Items
set_item n v nil = item v nil
set_item zero v (item x xs) = item v xs
set_item (suc n) v (item x xs) = item x (set_item n v xs)

unfoldable pub remove_item : ℕ → Items → Items
remove_item n nil = nil
remove_item zero (item x xs) = xs
remove_item (suc n) (item x xs) = item x (remove_item n xs)

unfoldable pub insert_item : ℕ → Json → Items → Items
insert_item n v nil = item v nil
insert_item zero v (item x xs) = item v (item x xs)
insert_item (suc n) v (item x xs) = item x (insert_item n v xs)

unfoldable pub item_index : Text → Items → Result ℕ
unfolding parse_array_index size
item_index segment xs =
    ite (dec_text segment (codes "-")) (ok (size xs)) (parse_array_index segment (size xs + 1))

unfoldable pub apply_item : Op → ℕ → Items → Result Json
unfolding set_item remove_item insert_item size
apply_item (remove p) n xs = ok (array (remove_item n xs))
apply_item (add p v) n xs = ok (array (insert_item n v xs))
apply_item (replace p v) n xs = if leb (size xs) n then failed else ok (array (set_item n v xs))

unfoldable pub apply_field : Op → Text → Fields → Result Json
unfolding find with_field without_field
apply_field (remove p) k fs = elim (find k fs) [
  | none ↦ failed
  | some _ ↦ ok (object (without_field k fs))
]
apply_field (add p v) k fs = ok (object (with_field k v fs))
apply_field (replace p v) k fs = elim (find k fs) [
  | none ↦ failed
  | some _ ↦ ok (object (with_field k v fs))
]

unfoldable pub apply_at_terminal : Json → Text → Op → Result Json
unfolding item_index apply_item apply_field
apply_at_terminal (array xs) segment op = do n ← item_index segment xs; apply_item op n xs
apply_at_terminal (object fs) segment op = apply_field op segment fs
apply_at_terminal _ segment op = failed

-- The child of a container at a segment, and the container with another child there.
unfoldable pub child_of : Json → Text → Result Json
unfolding find nth parse_array_index size
child_of (array xs) segment = do
  n ← parse_array_index segment (size xs)
  elim (nth n xs) [ none ↦ failed | some v ↦ ok v ]
child_of (object fs) segment = elim (find segment fs) [ none ↦ failed | some v ↦ ok v ]
child_of _ segment = failed

unfoldable pub with_child : Json → Text → Json → Result Json
unfolding with_field parse_array_index size set_item
with_child (array xs) segment v = do
  n ← parse_array_index segment (size xs)
  ok (array (set_item n v xs))
with_child (object fs) segment v = ok (object (with_field segment v fs))
with_child doc segment v = ok doc

unfoldable pub walk_and_apply : Json → List Text → Op → Result Json
unfolding apply_at_terminal child_of with_child
walk_and_apply doc [] op = failed
walk_and_apply doc (head ∷ []) op = apply_at_terminal doc head op
walk_and_apply doc (head ∷ next ∷ rest) op = do
  child ← child_of doc head
  new_child ← walk_and_apply child (next ∷ rest) op
  with_child doc head new_child

-- An operation at the root.
unfoldable pub apply_root : Op → Json
apply_root (remove p) = null
apply_root (add p v) = v
apply_root (replace p v) = v

unfoldable pub apply_at : Json → Text → Op → Result Json
unfolding apply_root parse_path walk_and_apply
apply_at doc [] op = ok (apply_root op)
apply_at doc (c ∷ path) op = do segments ← parse_path (c ∷ path); walk_and_apply doc segments op

unfoldable pub apply_op : Json → Op → Result Json
unfolding apply_at
apply_op doc op = apply_at doc (path_of op) op

unfoldable pub apply_patch : Json → List Op → Result Json
unfolding apply_op
apply_patch doc [] = ok doc
apply_patch doc (op ∷ l) = do next ← apply_op doc op; apply_patch next l
