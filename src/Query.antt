-- ===== src/Query.antt =====
-- packages/hub/src/query/builder.ts: a plan, its run on a snapshot, and its run on a source with
-- indexes. `Array.prototype.sort` with a comparator, and `<` on numbers by their texts, are
-- parameters.
pub mod Answers
pub mod Planned
mod Tests
use Prim.Native.Nat.{Ordering, lt, eq, gt}
use noydb.Base.{
  ℕ, if◌then◌else◌, ite, Bool, true, false, Option, none, some, List, [], ◌∷◌, take, drop, lookup,
  Text, dec_text, text_le,
}
use noydb.Json.{Json, null, number, string, array}
use noydb.Predicate.{
  Clause, Clauses, Operator, equal, in_list, field_clause, no_clauses, more_clauses, read_path,
  every_clause,
}
use noydb.Indexes.{CollectionIndexes, lookup_equal, lookup_in}

pub data Direction : Type 0 where
  asc desc : Direction

pub record OrderBy : Type 0 where
  pub field : Text
  pub direction : Direction

pub record QueryPlan : Type 0 where
  pub clauses : Clauses
  pub order_by : List OrderBy
  pub limit : Option ℕ
  pub offset : ℕ

-- The cache of a collection in its order, and its indexes, none if none is declared.
pub record QuerySource : Type 0 where
  pub cache : List (Text × Json)
  pub indexes : Option CollectionIndexes

abbrev pub snapshot : List (Text × Json) → List Json
snapshot [] = []
snapshot (e ∷ l) = e.1 ∷ snapshot l

-- The two ways to have no value.
abbrev pub is_nullish : Option Json → Bool
is_nullish none = true
is_nullish (some null) = true
is_nullish (some v) = false

abbrev pub negate : Ordering → Ordering
negate lt = gt
negate eq = eq
negate gt = lt

abbrev pub if_equal : Ordering → Ordering → Ordering
if_equal eq next = next
if_equal cmp next = cmp

abbrev pub directed : Direction → Ordering → Ordering
directed asc cmp = cmp
directed desc cmp = negate cmp

-- The arguments of a query method chain, added to a plan.
abbrev pub empty_plan : QueryPlan
empty_plan = record { clauses = no_clauses; order_by = []; limit = none; offset = 0 }

abbrev pub push_clause : Clauses → Clause → Clauses
push_clause no_clauses c = more_clauses c no_clauses
push_clause (more_clauses d l) c = more_clauses d (push_clause l c)

unfoldable pub where_clause : QueryPlan → Text → Operator → Option Json → QueryPlan
where_clause plan path op v = record plan {
  clauses = push_clause plan.clauses (field_clause path op v);
}

module _ (number_less : Text → Text → Bool) where
  -- The sign of `compareValues`.
  unfoldable pub compare_values : Option Json → Option Json → Ordering
  unfolding text_le
  compare_values a b =
      if is_nullish a
      then (if is_nullish b then eq else gt)
      else (if is_nullish b then lt else compare_present a b)
    where
      compare_present : Option Json → Option Json → Ordering
      compare_present (some (number s)) (some (number t)) =
          if number_less s t then lt else (if number_less t s then gt else eq)
      compare_present (some (string s)) (some (string t)) =
          if text_le s t then (if text_le t s then eq else lt) else gt
      compare_present _ _ = eq

  unfoldable pub compare_records : List OrderBy → Json → Json → Ordering
  unfolding compare_values read_path
  compare_records [] a b = eq
  compare_records (o ∷ l) a b =
      if_equal (directed o.direction (compare_values (read_path a o.field) (read_path b o.field)))
        (compare_records l a b)

  unfoldable pub filter_records : List Json → Clauses → List Json
  unfolding every_clause
  filter_records [] l = []
  filter_records (r ∷ rs) l =
      let rest = filter_records rs l in if every_clause number_less r l then r ∷ rest else rest

  module _ (sort_by : (Json → Json → Ordering) → List Json → List Json) where
    abbrev pub order : List OrderBy → List Json → List Json
    order [] rs = rs
    order (o ∷ l) rs = sort_by (compare_records (o ∷ l)) rs

    abbrev pub limited : Option ℕ → List Json → List Json
    limited none rs = rs
    limited (some n) rs = take n rs

    -- What follows the filter: the order, the offset and the limit.
    unfoldable pub finish : QueryPlan → List Json → List Json
    unfolding compare_records
    finish plan rs = limited plan.limit (drop plan.offset (order plan.order_by rs))

    unfoldable pub execute_plan : List Json → QueryPlan → List Json
    unfolding filter_records finish
    execute_plan records plan = finish plan (filter_records records plan.clauses)

-- The ids that an index gives for a clause, if one covers it.
unfoldable pub clause_ids : CollectionIndexes → Clause → Option (List Text)
unfolding lookup_equal lookup_in
clause_ids l (field_clause path equal v) = lookup_equal path v l
clause_ids l (field_clause path in_list (some (array xs))) = lookup_in path xs l
clause_ids l c = none

abbrev pub with_remaining : Clause → Option (List Text × Clauses) → Option (List Text × Clauses)
with_remaining c none = none
with_remaining c (some (ids, l)) = some (ids, more_clauses c l)

-- The first clause that an index covers: its ids, and the other clauses.
unfoldable pub pick_clause : CollectionIndexes → Clauses → Option (List Text × Clauses)
unfolding clause_ids
pick_clause idx no_clauses = none
pick_clause idx (more_clauses c l) =
    let rest = pick_clause idx l in
    elim (clause_ids idx c) [ some ids ↦ some (ids, l) | none ↦ with_remaining c rest ]

unfoldable pub materialize_ids : List (Text × Json) → List Text → List Json
materialize_ids cache [] = []
materialize_ids cache (id ∷ l) =
    let rest = materialize_ids cache l in
    elim (lookup dec_text id cache) [ none ↦ rest | some r ↦ r ∷ rest ]

abbrev pub candidates_of :
    List (Text × Json) → Clauses → Option (List Text × Clauses) → List Json × Clauses
candidates_of cache cs none = (snapshot cache, cs)
candidates_of cache cs (some (ids, l)) = (materialize_ids cache ids, l)

abbrev pub pick_in : Option CollectionIndexes → Clauses → Option (List Text × Clauses)
pick_in none cs = none
pick_in (some idx) cs = pick_clause idx cs

unfoldable pub candidate_records : QuerySource → Clauses → List Json × Clauses
unfolding pick_clause materialize_ids
candidate_records source cs = candidates_of source.cache cs (pick_in source.indexes cs)

module _ (number_less : Text → Text → Bool)
    (sort_by : (Json → Json → Ordering) → List Json → List Json) where
  unfoldable pub execute_plan_with_source : QuerySource → QueryPlan → List Json
  unfolding candidate_records filter_records finish
  execute_plan_with_source source plan =
      let (candidates, remaining) = candidate_records source plan.clauses in
      finish number_less sort_by plan (filter_records number_less candidates remaining)
