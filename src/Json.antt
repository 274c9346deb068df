-- ===== src/Json.antt =====
-- JSON values, and `canonicalJson` of packages/hub/src/ledger/entry.ts. A number is its JSON text,
-- since `===` on finite numbers is equality of these texts. `quote` is `JSON.stringify` at a
-- string.
use noydb.Base.{
  ℕ, zero, suc, ◌+◌, ◌/◌, ◌%◌, ltb, if◌then◌else◌, ite, Bool, true, false, Option, none, some, List,
  [], ◌∷◌, ◌++◌, Text, codes, dec_text, text_le,
}

-- `String(n)`, with fuel for the digits.
unfoldable pub decimal_from : ℕ → ℕ → Text
decimal_from zero n = []
decimal_from (suc fuel) n =
    let rest = decimal_from fuel (n / 10) in
    if ltb n 10 then (b'0' + n) ∷ [] else rest ++ (b'0' + n % 10) ∷ []

unfoldable pub decimal : ℕ → Text
unfolding decimal_from
decimal n = decimal_from (suc n) n

mutual
  pub data Json : Type 0 where
    null : Json
    bool : Bool → Json
    number string : Text → Json
    array : Items → Json
    object : Fields → Json

  pub data Items : Type 0 where
    nil : Items
    item : Json → Items → Items

  -- The entries of an object in their order.
  pub data Fields : Type 0 where
    end : Fields
    field : Text → Json → Fields → Fields

-- `obj[key]`, and whether `key in obj`; the names that objects inherit are not keys.
unfoldable pub find : Text → Fields → Option Json
find k end = none
find k (field j v fs) = let rest = find k fs in ite (dec_text k j) (some v) rest

unfoldable pub count : Fields → ℕ
count end = 0
count (field k v fs) = suc (count fs)

-- `{ ...obj, [key]: value }`
unfoldable pub with_field : Text → Json → Fields → Fields
with_field k v end = field k v end
with_field k v (field j w fs) =
    let rest = with_field k v fs in ite (dec_text k j) (field j v fs) (field j w rest)

-- `delete obj[key]` on a copy
unfoldable pub without_field : Text → Fields → Fields
without_field k end = end
without_field k (field j w fs) =
    let rest = without_field k fs in ite (dec_text k j) rest (field j w rest)

unfoldable pub nth : ℕ → Items → Option Json
nth n nil = none
nth zero (item v xs) = some v
nth (suc n) (item v xs) = nth n xs

unfoldable pub size : Items → ℕ
size nil = 0
size (item v xs) = suc (size xs)

-- `parts.join(',')`
unfoldable pub join : List Text → Text
join [] = []
join (x ∷ []) = x
join (x ∷ y ∷ l) = x ++ (codes "," ++ join (y ∷ l))

-- The parts in the order of their keys.
unfoldable pub insert_part : Text × Text → List (Text × Text) → List (Text × Text)
insert_part p [] = p ∷ []
insert_part p (q ∷ l) = if text_le p.0 q.0 then p ∷ q ∷ l else q ∷ insert_part p l

unfoldable pub sort_parts : List (Text × Text) → List (Text × Text)
unfolding insert_part
sort_parts [] = []
sort_parts (p ∷ l) = insert_part p (sort_parts l)

module _ (quote : Text → Text) where
  unfoldable pub render_parts : List (Text × Text) → List Text
  render_parts [] = []
  render_parts ((k, v) ∷ l) = (quote k ++ (codes ":" ++ v)) ∷ render_parts l

  unfoldable mutual
    unfolding join sort_parts render_parts

    pub canonical_json : Json → Text
    canonical_json null = codes "null"
    canonical_json (bool true) = codes "true"
    canonical_json (bool false) = codes "false"
    canonical_json (number t) = t
    canonical_json (string s) = quote s
    canonical_json (array xs) = codes "[" ++ (join (canonical_items xs) ++ codes "]")
    canonical_json (object fs) =
        codes "{" ++ (join (render_parts (sort_parts (canonical_fields fs))) ++ codes "}")

    pub canonical_items : Items → List Text
    canonical_items nil = []
    canonical_items (item v xs) = canonical_json v ∷ canonical_items xs

    pub canonical_fields : Fields → List (Text × Text)
    canonical_fields end = []
    canonical_fields (field k v fs) = (k, canonical_json v) ∷ canonical_fields fs
