-- ===== src/Query/Answers.antt =====
-- What an index answers for a clause: the records of the bucket of a text are those of the cache.
use noydb.Base.{
  ◌≡◌, ◌≢◌, ◌∙◌, refl, ap, if◌then◌else◌, Bool, true, false, Option, none, some, List, [], ◌∷◌,
  lookup, Text, dec_text, All, arith,
}
use noydb.Json.{Json, null, bool, number, string, array, object}
use noydb.Predicate.{
  Clause, Clauses, Operator, equal, in_list, field_clause, no_clauses, more_clauses, read_path,
  strict_equal,
}
use noydb.Indexes
use noydb.Indexes.{CollectionIndexes, index_key, build, add_records, lookup_equal}
use noydb.Indexes.Buckets.{has_key, ids_of}
use noydb.Query.{materialize_ids}

-- No value, or a text.
abbrev pub IsText : Option Json → Type 0
IsText none = Unit
IsText (some null) = Unit
IsText (some (string s)) = Unit
IsText (some v) = ⊥

-- A clause that an index can answer is an equality with a text, at a field that has texts alone.
abbrev pub Readable : Operator → Option Json → Text → List (Text × Json) → Type 0
Readable equal (some (string t)) path cache = All (λ e. IsText (read_path e.1 path)) cache
Readable equal v path cache = ⊥
Readable in_list v path cache = ⊥
Readable op v path cache = Unit

abbrev pub Covered : CollectionIndexes → List (Text × Json) → Clause → Type 0
Covered declared cache (field_clause path op v) =
    lookup dec_text path declared ≢ none → Readable op v path cache
Covered declared cache c = Unit

abbrev pub AllCovered : CollectionIndexes → List (Text × Json) → Clauses → Type 0
AllCovered declared cache no_clauses = Unit
AllCovered declared cache (more_clauses c l) =
    Covered declared cache c × AllCovered declared cache l

abbrev pub keep : (Json → Bool) → List (Text × Json) → List Json
keep f [] = []
keep f (e ∷ l) = let rest = keep f l in if f e.1 then e.1 ∷ rest else rest

-- On texts, having the key is being equal.
has_key_equal :
    (o : Option Json) (t : Text)
    → IsText o
    → has_key (index_key o) t ≡ strict_equal o (some (string t))
unfolding strict_equal Indexes.stringify_key
has_key_equal none t h = refl
has_key_equal (some null) t h = refl
has_key_equal (some (string s)) t h = ground arith
has_key_equal (some (bool b)) t h = absurd h
has_key_equal (some (number n)) t h = absurd h
has_key_equal (some (array xs)) t h = absurd h
has_key_equal (some (object fs)) t h = absurd h

found_step :
    (o : Option Json) (r : Json) (rs : List Json)
    → o ≡ some r
    → (elim o [ none ↦ rs | some x ↦ x ∷ rs ]) ≡ r ∷ rs
found_step o r rs f = rw f refl

materialize_step :
    (cache : List (Text × Json)) (b : Bool) (id : Text) (r : Json) (ids : List Text)
    (rs : List Json)
    → lookup dec_text id cache ≡ some r
    → materialize_ids cache ids ≡ rs
    → materialize_ids cache (if b then id ∷ ids else ids) ≡ (if b then r ∷ rs else rs)
unfolding materialize_ids
materialize_step cache true id r ids rs f h =
    found_step (lookup dec_text id cache) r _ f ∙ ap (◌∷◌ r) h
materialize_step cache false id r ids rs f h = h

-- The records of the ids are the records that are kept.
pub materialize-ids_of :
    (cache : List (Text × Json)) (field t : Text) (l : List (Text × Json))
    → All (λ e. lookup dec_text e.0 cache ≡ some e.1) l
    → All (λ e. IsText (read_path e.1 field)) l
    → materialize_ids cache (ids_of field t l)
      ≡ keep (λ r. strict_equal (read_path r field) (some (string t))) l
unfolding ids_of materialize_ids
materialize-ids_of cache field t [] a b = refl
materialize-ids_of cache field t (e ∷ l) a b =
    materialize_step cache (has_key (index_key (read_path e.1 field)) t) e.0 e.1 (ids_of field t l)
      _ a.0 (materialize-ids_of cache field t l a.1 b.1)
    ∙ ap
        (λ z.
          if z
          then e.1 ∷ keep (λ r. strict_equal (read_path r field) (some (string t))) l
          else keep (λ r. strict_equal (read_path r field) (some (string t))) l)
        (has_key_equal (read_path e.1 field) t b.0)
