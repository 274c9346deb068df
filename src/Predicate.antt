-- ===== src/Predicate.antt =====
-- packages/hub/src/query/predicate.ts: the clauses of a query and their evaluation. A value is a
-- JSON value, or none for `undefined`. `<` on numbers, by their texts, is a parameter.
use noydb.Base.{
  ℕ, ◌==◌, ◌&&◌, ◌||◌, not, ite, Bool, true, false, Option, none, some, List, [], ◌∷◌, ◌++◌, length,
  get_elem?, Text, codes, dec_text, text_le, starts_with,
}
use noydb.Json.{
  Json, Items, null, bool, number, string, array, object, nil, item, find, nth, size, decimal,
}
use noydb.Patch.{read_digits}

pub data Operator : Type 0 where
  equal not_equal less less_equal greater greater_equal : Operator
  in_list contains begins_with between : Operator

pub data GroupOp : Type 0 where
  all_of any_of : GroupOp

mutual
  pub data Clause : Type 0 where
    field_clause : Text → Operator → Option Json → Clause
    filter_clause : (Json → Bool) → Clause
    group_clause : GroupOp → Clauses → Clause

  pub data Clauses : Type 0 where
    no_clauses : Clauses
    more_clauses : Clause → Clauses → Clauses

-- The canonical array index that a key is.
unfoldable pub index_of : Text → Option ℕ
unfolding read_digits decimal
index_of key = elim (read_digits 0 key) [
  | none ↦ none
  | some n ↦ ite (dec_text (decimal n) key) (some n) none
]

abbrev pub at_index {ℓ} : {A : Type ℓ} → Option ℕ → (ℕ → Option A) → Option A
at_index none f = none
at_index (some n) f = f n

abbrev pub unit_text : Option ℕ → Option Json
unit_text none = none
unit_text (some c) = some (string (c ∷ []))

-- `value[key]`, without what values inherit.
unfoldable pub property : Json → Text → Option Json
unfolding find nth size index_of
property (object fs) key = find key fs
property (array xs) key =
    ite (dec_text key (codes "length")) (some (number (decimal (size xs))))
      (at_index (index_of key) (λ n. nth n xs))
property (string s) key =
    ite (dec_text key (codes "length")) (some (number (decimal (length s))))
      (at_index (index_of key) (λ n. unit_text (get_elem? s n)))
property v key = none

-- `path.split('.')`, with the segment that is being read first.
unfoldable pub split_dots : Text → Text → List Text
split_dots seen [] = seen ∷ []
split_dots seen (c ∷ s) = elim (c == b'.') [
  | true ↦ seen ∷ split_dots [] s
  | false ↦ split_dots (seen ++ c ∷ []) s
]

-- The loop over the segments, and the tests for null and undefined.
unfoldable pub read_segments : Option Json → List Text → Option Json
unfolding property
read_segments cursor [] = cursor
read_segments none (segment ∷ l) = none
read_segments (some null) (segment ∷ l) = none
read_segments (some v) (segment ∷ l) = read_segments (property v segment) l

-- A path without a dot is one segment.
unfoldable pub read_path : Json → Text → Option Json
unfolding split_dots read_segments
read_path doc path = read_segments (some doc) (split_dots [] path)

-- `===`. An array or an object of a clause is another one than any of a record.
unfoldable pub strict_equal : Option Json → Option Json → Bool
unfolding dec_text
strict_equal none none = true
strict_equal (some null) (some null) = true
strict_equal (some (bool true)) (some (bool true)) = true
strict_equal (some (bool false)) (some (bool false)) = true
strict_equal (some (number s)) (some (number t)) = ite (dec_text s t) true false
strict_equal (some (string s)) (some (string t)) = ite (dec_text s t) true false
strict_equal _ _ = false

-- `items.includes(v)` and `s.includes(t)`
unfoldable pub includes : Items → Option Json → Bool
unfolding strict_equal
includes nil v = false
includes (item x xs) v = strict_equal (some x) v || includes xs v

unfoldable pub text_includes : Text → Text → Bool
unfolding starts_with
text_includes [] t = starts_with t []
text_includes (c ∷ s) t = starts_with t (c ∷ s) || text_includes s t

module _ (number_less : Text → Text → Bool) where
  -- `isComparable(a, b) && a < b`
  unfoldable pub comparable_less : Option Json → Option Json → Bool
  unfolding text_le
  comparable_less (some (number s)) (some (number t)) = number_less s t
  comparable_less (some (string s)) (some (string t)) = not (text_le t s)
  comparable_less _ _ = false

  unfoldable pub comparable_less_equal : Option Json → Option Json → Bool
  unfolding text_le
  comparable_less_equal (some (number s)) (some (number t)) = not (number_less t s)
  comparable_less_equal (some (string s)) (some (string t)) = text_le s t
  comparable_less_equal _ _ = false

  abbrev pub evaluate_in : Option Json → Option Json → Bool
  evaluate_in actual (some (array xs)) = includes xs actual
  evaluate_in actual _ = false

  abbrev pub evaluate_contains : Option Json → Option Json → Bool
  evaluate_contains (some (string s)) (some (string t)) = text_includes s t
  evaluate_contains (some (array xs)) v = includes xs v
  evaluate_contains _ _ = false

  abbrev pub evaluate_starts_with : Option Json → Option Json → Bool
  evaluate_starts_with (some (string s)) (some (string t)) = starts_with t s
  evaluate_starts_with _ _ = false

  abbrev pub evaluate_between : Option Json → Option Json → Bool
  evaluate_between actual (some (array (item lo (item hi nil)))) =
      comparable_less_equal (some lo) actual && comparable_less_equal actual (some hi)
  evaluate_between actual _ = false

  abbrev pub evaluate_operator : Operator → Option Json → Option Json → Bool
  evaluate_operator equal actual v = strict_equal actual v
  evaluate_operator not_equal actual v = not (strict_equal actual v)
  evaluate_operator less actual v = comparable_less actual v
  evaluate_operator less_equal actual v = comparable_less_equal actual v
  evaluate_operator greater actual v = comparable_less v actual
  evaluate_operator greater_equal actual v = comparable_less_equal v actual
  evaluate_operator in_list actual v = evaluate_in actual v
  evaluate_operator contains actual v = evaluate_contains actual v
  evaluate_operator begins_with actual v = evaluate_starts_with actual v
  evaluate_operator between actual v = evaluate_between actual v

  unfoldable pub evaluate_field_clause : Json → Text → Operator → Option Json → Bool
  unfolding read_path strict_equal includes text_includes comparable_less comparable_less_equal
      starts_with
  evaluate_field_clause doc path op v = evaluate_operator op (read_path doc path) v

  unfoldable mutual
    unfolding evaluate_field_clause

    pub evaluate_clause : Json → Clause → Bool
    evaluate_clause doc (field_clause path op v) = evaluate_field_clause doc path op v
    evaluate_clause doc (filter_clause fn) = fn doc
    evaluate_clause doc (group_clause all_of l) = every_clause doc l
    evaluate_clause doc (group_clause any_of l) = some_clause doc l

    pub every_clause : Json → Clauses → Bool
    every_clause doc no_clauses = true
    every_clause doc (more_clauses c l) = evaluate_clause doc c && every_clause doc l

    pub some_clause : Json → Clauses → Bool
    some_clause doc no_clauses = false
    some_clause doc (more_clauses c l) = evaluate_clause doc c || some_clause doc l
