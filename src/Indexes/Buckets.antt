-- ===== src/Indexes/Buckets.antt =====
-- What an index holds after `build`: the ids of the records with a key, in the order of the records.
use noydb.Base.{
  ◌≡◌, ◌≢◌, ◌∙◌, sym, refl, ap, if◌then◌else◌, ite, Bool, true, false, Option, none, some, List, [],
  ◌∷◌, ◌++◌, lookup, Text, dec_text, All, All-map, All-both, arith,
}
use mathlib.Core.List.{append_assoc, append-nil}
use noydb.Dict.{Distinct, lookup-insert}
use noydb.Json.{Json}
use noydb.Predicate.{read_path}
use noydb.Indexes.{
  HashIndex, CollectionIndexes, index_key, member, set_add, bucket_of, add_key, add_to_index,
  add_records, build,
}

-- Whether a value is indexed under a key.
abbrev pub has_key : Option Text → Text → Bool
has_key none k = false
has_key (some key) k = ite (dec_text k key) true false

abbrev pub bucket : Text → HashIndex → List Text
bucket k idx = bucket_of (lookup dec_text k idx)

unfoldable pub ids_of : Text → Text → List (Text × Json) → List Text
unfolding read_path dec_text
ids_of field k [] = []
ids_of field k (e ∷ l) =
    let rest = ids_of field k l in
    if has_key (index_key (read_path e.1 field)) k then e.0 ∷ rest else rest

pub bucket-add_key :
    (k : Text) (o : Option Text) (id : Text) (idx : HashIndex)
    → bucket k (add_key o id idx)
      ≡ (if has_key o k then set_add id (bucket k idx) else bucket k idx)
bucket-add_key k none id idx = refl
bucket-add_key k (some key) id idx =
    ground (arith, lookup-insert dec_text key k (set_add id (bucket key idx)) idx)

pub others :
    (id : Text) (l : List (Text × Json)) → lookup dec_text id l ≡ none → All (λ e. e.0 ≢ id) l
unfolding lookup
others id [] h = tt
others id (e ∷ l) h = ((λ p. ground (arith, h, p)), others id l (ground (arith, h)))

member-append :
    (x y : Text) (l : List Text) → x ≢ y → member x l ≡ false → member x (l ++ y ∷ []) ≡ false
unfolding member
member-append x y [] d h = ground (arith, d)
member-append x y (z ∷ l) d h = ground (arith, d, h, member-append x y l d)

-- One record more.
fresh_step :
    (k id : Text) (o : Option Text) (idx : HashIndex)
    → member id (bucket k idx) ≡ false
    → bucket k (add_key o id idx) ≡ bucket k idx ++ (if has_key o k then id ∷ [] else [])
unfolding set_add
fresh_step k id o idx h = bucket-add_key k o id idx ∙ added (has_key o k) (bucket k idx) h
  where
    added :
        (b : Bool) (ids : List Text)
        → member id ids ≡ false
        → (if b then (if member id ids then ids else ids ++ id ∷ []) else ids)
          ≡ ids ++ (if b then id ∷ [] else [])
    added true ids m = rw m refl
    added false ids m = sym (append-nil ids)

fresh-All :
    (b : Bool) (id : Text) (ids : List Text) (l : List (Text × Json))
    → All (λ e. e.0 ≢ id) l
    → All (λ e. member e.0 ids ≡ false) l
    → All (λ e. member e.0 (ids ++ (if b then id ∷ [] else [])) ≡ false) l
fresh-All true id ids l d a =
    All-map l (λ e p. member-append e.0 id ids p.0 p.1)
      (All-both (λ e. e.0 ≢ id) (λ e. member e.0 ids ≡ false) l d a)
fresh-All false id ids l d a = All-map l (λ e p. ap (member e.0) (append-nil ids) ∙ p) a

join_ids :
    (b : Bool) (id : Text) (ids rest : List Text)
    → (ids ++ (if b then id ∷ [] else [])) ++ rest ≡ ids ++ (if b then id ∷ rest else rest)
join_ids true id ids rest = append_assoc ids (id ∷ []) rest
join_ids false id ids rest = ap (λ z. z ++ rest) (append-nil ids)

pub bucket-add_records :
    (field k : Text) (idx : HashIndex) (l : List (Text × Json))
    → Distinct dec_text l
    → All (λ e. member e.0 (bucket k idx) ≡ false) l
    → bucket k (add_records field idx l) ≡ bucket k idx ++ ids_of field k l
unfolding add_records ids_of add_to_index
bucket-add_records field k idx [] d a = sym (append-nil _)
bucket-add_records field k idx (e ∷ l) d a =
    let o = index_key (read_path e.1 field) in
    let step = fresh_step k e.0 o idx a.0 in
    let new = fresh-All (has_key o k) e.0 (bucket k idx) l (others e.0 l d.0) a.1 in
    bucket-add_records field k (add_key o e.0 idx) l d.1
      (All-map l (λ x m. ap (member x.0) step ∙ m) new)
    ∙ ap (λ z. z ++ ids_of field k l) step
    ∙ join_ids (has_key o k) e.0 (bucket k idx) (ids_of field k l)

pub lookup-build :
    (path : Text) (l : List (Text × Json)) (declared : CollectionIndexes)
    → lookup dec_text path (build l declared) ≡ (elim (lookup dec_text path declared) [
      | none ↦ none
      | some _ ↦ some (add_records path [] l)
    ])
unfolding build lookup
lookup-build path l [] = refl
lookup-build path l (e ∷ declared) = ground (arith, lookup-build path l declared)

pub lookup_self :
    (l : List (Text × Json)) → Distinct dec_text l → All (λ e. lookup dec_text e.0 l ≡ some e.1) l
unfolding lookup
lookup_self [] d = tt
lookup_self (x ∷ l) d = (
  ground arith,
  All-map l (λ e a. ground (arith, a))
      (All-both (λ e. e.0 ≢ x.0) (λ e. lookup dec_text e.0 l ≡ some e.1) l (others x.0 l d.0)
        (lookup_self l d.1)),
)
