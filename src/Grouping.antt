-- ===== src/Grouping.antt =====
-- packages/hub/src/query/groupby.ts (`groupAndReduce`) and aggregate.ts (`reduceRecords`): the
-- records of a query, by the value of a field, and reduced. The states of the reducers and what they
-- answer are of any type.
pub mod Groups
mod Tests
use noydb.Base.{
  ℕ, zero, suc, ◌+◌, leb, if◌then◌else◌, ite, Bool, true, false, Option, none, some, List, [], ◌∷◌,
  ◌++◌, length, Text, dec_text,
}
use noydb.Dict.{insert}
use noydb.Json.{Json}
use noydb.Predicate.{read_path, strict_equal}

-- The groups in the order of their first records.
abbrev pub Buckets : Type 0
Buckets = List (Option Json × List Json)

unfoldable pub bucket_at : Option Json → Buckets → Option (List Json)
unfolding strict_equal
bucket_at k [] = none
bucket_at k (b ∷ l) = let rest = bucket_at k l in if strict_equal b.0 k then some b.1 else rest

-- `bucket.push(record)`, to the bucket that is there.
unfoldable pub push_to : Option Json → Json → Buckets → Buckets
unfolding strict_equal
push_to k r [] = []
push_to k r (b ∷ l) =
    let rest = push_to k r l in if strict_equal b.0 k then (b.0, b.1 ++ r ∷ []) ∷ l else b ∷ rest

-- What `groupAndReduce` answers, or the `GroupCardinalityError` with the number of groups.
pub data Grouped {ℓ} (A : Type ℓ) : Type ℓ where
  ok : A → Grouped A
  too_many : ℕ → Grouped A

-- One record, with at most so many groups.
unfoldable pub add_record : ℕ → Option Json → Json → Buckets → Grouped Buckets
unfolding bucket_at push_to
add_record most k r bs = elim (bucket_at k bs) [
  | some _ ↦ ok (push_to k r bs)
  | none ↦ if leb most (length bs) then too_many (length bs + 1) else ok (bs ++ (k, r ∷ []) ∷ [])
]

abbrev pub then_group : Grouped Buckets → (Buckets → Grouped Buckets) → Grouped Buckets
then_group (ok bs) f = f bs
then_group (too_many n) f = too_many n

unfoldable pub group_records : ℕ → Text → List Json → Buckets → Grouped Buckets
unfolding add_record read_path
group_records most path [] bs = ok bs
group_records most path (r ∷ rs) bs =
    then_group (add_record most (read_path r path) r bs) (group_records most path rs)

abbrev pub groupby_max_cardinality : ℕ
groupby_max_cardinality = 100000

pub record Reducer (State V : Type 0) : Type 0 where
  pub init : State
  pub step : State → Json → State
  pub finalize : State → V

abbrev pub Spec : Type 0 → Type 0 → Type 0
Spec State V = List (Text × Reducer State V)

-- A reducer's state beside it, under its name.
abbrev pub States : Type 0 → Type 0 → Type 0
States State V = List (Text × Reducer State V × State)

module _ {State V : Type 0} where
  abbrev pub init_states : Spec State V → States State V
  init_states [] = []
  init_states ((name, reducer) ∷ l) = (name, reducer, reducer.init) ∷ init_states l

  abbrev pub step_states : Json → States State V → States State V
  step_states r [] = []
  step_states r ((name, reducer, s) ∷ l) = (name, reducer, reducer.step s r) ∷ step_states r l

  abbrev pub step_all : List Json → States State V → States State V
  step_all [] states = states
  step_all (r ∷ rs) states = step_all rs (step_states r states)

  -- The answers, written over what the row has.
  unfoldable pub finalize_states : States State V → List (Text × V) → List (Text × V)
  unfolding insert
  finalize_states [] row = row
  finalize_states ((name, reducer, s) ∷ l) row =
      finalize_states l (insert dec_text name (reducer.finalize s) row)

  unfoldable pub reduce_records : Spec State V → List Json → List (Text × V)
  unfolding finalize_states
  reduce_records spec records = finalize_states (step_all records (init_states spec)) []

module _ {State V : Type 0} (value : Option Json → V) where
  unfoldable pub reduce_bucket : Text → Spec State V → Option Json × List Json → List (Text × V)
  unfolding finalize_states
  reduce_bucket field spec bucket =
      finalize_states (step_all bucket.1 (init_states spec)) ((field, value bucket.0) ∷ [])

  abbrev pub reduce_buckets : Text → Spec State V → Buckets → List (List (Text × V))
  reduce_buckets field spec [] = []
  reduce_buckets field spec (b ∷ l) = reduce_bucket field spec b ∷ reduce_buckets field spec l

  abbrev pub reduce_grouped :
      Text → Spec State V → Grouped Buckets → Grouped (List (List (Text × V)))
  reduce_grouped field spec (ok bs) = ok (reduce_buckets field spec bs)
  reduce_grouped field spec (too_many n) = too_many n

  unfoldable pub group_and_reduce :
      List Json → Text → Spec State V → Grouped (List (List (Text × V)))
  unfolding group_records reduce_bucket
  group_and_reduce records field spec =
      reduce_grouped field spec (group_records groupby_max_cardinality field records [])
