-- ===== src/Indexes/Coherent.antt =====
-- The indexes while records are put and deleted.
use noydb.Base.{
  ◌≡◌, ◌∙◌, sym, refl, ap, if◌then◌else◌, ite, Bool, true, false, Option, none, some, List, [], ◌∷◌,
  ◌++◌, lookup, Text, dec_text, All, arith,
}
use noydb.Dict
use noydb.Dict.{insert, lookup-insert, lookup-remove}
use noydb.Json.{Json}
use noydb.Predicate.{read_path}
use noydb.Indexes.{
  HashIndex, CollectionIndexes, index_key, member, set_add, set_delete, add_key, put_bucket,
  delete_key, add_to_index, remove_from_index, add_to_all, remove, upsert,
}
use noydb.Indexes.Buckets.{has_key, bucket, bucket-add_key}

-- Whether what is stored for an id is indexed under a key.
abbrev pub keyed : Text → Text → Option Json → Bool
keyed field k none = false
keyed field k (some r) = has_key (index_key (read_path r field)) k

-- A bucket has exactly the ids of the records with its key.
abbrev pub IsCoherent : Text → List (Text × Json) → HashIndex → Type 0
IsCoherent field cache idx =
    (k id : Text) → member id (bucket k idx) ≡ keyed field k (lookup dec_text id cache)

abbrev pub AllCoherent : List (Text × Json) → CollectionIndexes → Type 0
AllCoherent cache l = All (λ e. IsCoherent e.0 cache e.1) l

member-append_last :
    (x y : Text) (l : List Text) → member x (l ++ y ∷ []) ≡ ite (dec_text x y) true (member x l)
unfolding member
member-append_last x y [] = refl
member-append_last x y (z ∷ l) = ground (arith, member-append_last x y l)

member-set_add :
    (x y : Text) (l : List Text) → member x (set_add y l) ≡ ite (dec_text x y) true (member x l)
unfolding set_add
member-set_add x y l = ground (arith, member-append_last x y l)

member-set_delete :
    (x y : Text) (l : List Text) → member x (set_delete y l) ≡ ite (dec_text x y) false (member x l)
unfolding set_delete member
member-set_delete x y [] = ground arith
member-set_delete x y (z ∷ l) = ground (arith, member-set_delete x y l)

bucket-put_bucket :
    (k key : Text) (ids : List Text) (idx : HashIndex)
    → bucket k (put_bucket key ids idx) ≡ ite (dec_text k key) ids (bucket k idx)
bucket-put_bucket k key [] idx = ground (arith, lookup-remove dec_text key k idx)
bucket-put_bucket k key (x ∷ ids) idx = ground (arith, lookup-insert dec_text key k (x ∷ ids) idx)

member-add_key :
    (x k : Text) (o : Option Text) (id : Text) (idx : HashIndex)
    → member x (bucket k (add_key o id idx)) ≡ (
        if has_key o k
        then ite (dec_text x id) true (member x (bucket k idx))
        else member x (bucket k idx))
member-add_key x k o id idx = ap (member x) (bucket-add_key k o id idx) ∙ under (has_key o k)
  where
    under :
        (b : Bool)
        → member x (if b then set_add id (bucket k idx) else bucket k idx) ≡ (
            if b
            then ite (dec_text x id) true (member x (bucket k idx))
            else member x (bucket k idx))
    under true = member-set_add x id (bucket k idx)
    under false = refl

member-delete_key :
    (x k : Text) (o : Option Text) (id : Text) (idx : HashIndex)
    → member x (bucket k (delete_key o id idx)) ≡ (
        if has_key o k
        then ite (dec_text x id) false (member x (bucket k idx))
        else member x (bucket k idx))
unfolding member
member-delete_key x k none id idx = refl
member-delete_key x k (some key) id idx =
    elim (lookup dec_text key idx)
        as (λ o.
          lookup dec_text key idx ≡ o
          → member x
              (bucket k (elim o [ none ↦ idx | some ids ↦ put_bucket key (set_delete id ids) idx ]))
            ≡ (if ite (dec_text k key) true false
                then ite (dec_text x id) false (member x (bucket k idx))
                else member x (bucket k idx))) [
                  | none ↦ λ e. ground (arith, e)
                  | some ids ↦ λ e.
                      ap (member x) (bucket-put_bucket k key (set_delete id ids) idx)
                      ∙ ground (arith, e, member-set_delete x id ids)
                ]
      refl

-- One id in one bucket, when its record goes and when it comes.
gone_at :
    (field k : Text) (r : Json) {P : Type 0} (d : Dec P) (m : Bool) (o : Option Json)
    → m ≡ keyed field k o
    → (P → o ≡ some r)
    → (if has_key (index_key (read_path r field)) k then ite d false m else m)
      ≡ keyed field k (ite d none o)
gone_at field k r (yes p) m o h e = rw (h, e p) (same (has_key (index_key (read_path r field)) k))
  where
    same : (b : Bool) → (if b then false else b) ≡ false
    same true = refl
    same false = refl
gone_at field k r (no p) m o h e = same (has_key (index_key (read_path r field)) k)
  where
    same : (b : Bool) → (if b then m else m) ≡ keyed field k o
    same true = h
    same false = h

come_at :
    (field k : Text) (r : Json) {P : Type 0} (d : Dec P) (m : Bool) (o : Option Json)
    → m ≡ keyed field k o
    → (P → o ≡ none)
    → (if has_key (index_key (read_path r field)) k then ite d true m else m)
      ≡ keyed field k (ite d (some r) o)
come_at field k r (yes p) m o h e = rw (h, e p) (same (has_key (index_key (read_path r field)) k))
  where
    same : (b : Bool) → (if b then true else false) ≡ b
    same true = refl
    same false = refl
come_at field k r (no p) m o h e = same (has_key (index_key (read_path r field)) k)
  where
    same : (b : Bool) → (if b then m else m) ≡ keyed field k o
    same true = h
    same false = h

remove_step :
    (field id : Text) (r : Json) (cache : List (Text × Json)) (idx : HashIndex)
    → lookup dec_text id cache ≡ some r
    → IsCoherent field cache idx
    → IsCoherent field (Dict.remove dec_text id cache) (remove_from_index field idx id r)
unfolding remove_from_index
remove_step field id r cache idx e h k x =
    member-delete_key x k (index_key (read_path r field)) id idx
    ∙ gone_at field k r (dec_text x id) _ (lookup dec_text x cache) (h k x)
        (λ p. ap (λ z. lookup dec_text z cache) p ∙ e)
    ∙ ap (keyed field k) (sym (lookup-remove dec_text id x cache))

pub add_step :
    (field id : Text) (r : Json) (cache : List (Text × Json)) (idx : HashIndex)
    → lookup dec_text id cache ≡ none
    → IsCoherent field cache idx
    → IsCoherent field (insert dec_text id r cache) (add_to_index field idx id r)
unfolding add_to_index
add_step field id r cache idx e h k x =
    member-add_key x k (index_key (read_path r field)) id idx
    ∙ come_at field k r (dec_text x id) _ (lookup dec_text x cache) (h k x)
        (λ p. ap (λ z. lookup dec_text z cache) p ∙ e)
    ∙ ap (keyed field k) (sym (lookup-insert dec_text id x r cache))

remove_all :
    (id : Text) (r : Json) (cache : List (Text × Json)) (l : CollectionIndexes)
    → lookup dec_text id cache ≡ some r
    → AllCoherent cache l
    → AllCoherent (Dict.remove dec_text id cache) (remove id r l)
unfolding remove
remove_all id r cache [] e h = tt
remove_all id r cache (x ∷ l) e h =
    (remove_step x.0 id r cache x.1 e h.0, remove_all id r cache l e h.1)

add_all :
    (id : Text) (r : Json) (cache : List (Text × Json)) (l : CollectionIndexes)
    → lookup dec_text id cache ≡ none
    → AllCoherent cache l
    → AllCoherent (insert dec_text id r cache) (add_to_all id r l)
unfolding add_to_all
add_all id r cache [] e h = tt
add_all id r cache (x ∷ l) e h = (add_step x.0 id r cache x.1 e h.0, add_all id r cache l e h.1)

-- Coherence speaks of what is found alone.
found_alike :
    (cache other : List (Text × Json)) (l : CollectionIndexes)
    → ((x : Text) → lookup dec_text x cache ≡ lookup dec_text x other)
    → AllCoherent cache l
    → AllCoherent other l
found_alike cache other [] f h = tt
found_alike cache other (e ∷ l) f h =
    (λ k x. h.0 k x ∙ ap (keyed e.0 k) (f x), found_alike cache other l f h.1)

-- Indexes that have in each bucket exactly the ids of the records with its key still do after the
-- update for a put over what was stored, and after the removal for a delete of a stored record.
pub upsert-AllCoherent :
    (id : Text) (new_record : Json) (cache : List (Text × Json)) (l : CollectionIndexes)
    → AllCoherent cache l
    → AllCoherent
        (insert dec_text id new_record cache)
        (upsert id new_record (lookup dec_text id cache) l)
      × ((r : Json)
          → lookup dec_text id cache ≡ some r
          → AllCoherent (Dict.remove dec_text id cache) (remove id r l))
unfolding upsert
upsert-AllCoherent id new_record cache l h = (
  elim (lookup dec_text id cache)
        as (λ o.
          lookup dec_text id cache ≡ o
          → AllCoherent (insert dec_text id new_record cache) (upsert id new_record o l)) [
            | none ↦ λ e. add_all id new_record cache l e h
            | some r ↦ λ e.
                let gone : lookup dec_text id (Dict.remove dec_text id cache) ≡ none =
                  ground (arith, lookup-remove dec_text id id cache) in
                found_alike (insert dec_text id new_record (Dict.remove dec_text id cache))
                  (insert dec_text id new_record cache) _
                  (λ x. ground (
                    arith,
                    lookup-insert dec_text id x new_record (Dict.remove dec_text id cache),
                    lookup-insert dec_text id x new_record cache,
                    lookup-remove dec_text id x cache,
                  ))
                  (add_all id new_record (Dict.remove dec_text id cache) (remove id r l) gone
                    (remove_all id r cache l e h))
          ]
      refl,
  λ r e. remove_all id r cache l e h,
)
