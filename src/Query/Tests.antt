-- ===== src/Query/Tests.antt =====
-- Queries on a small collection, on its snapshot and through its index.
use Prim.Native.Nat.{Ordering, gt}
use noydb.Base.{
  ◌≡◌, refl, not, Bool, Option, none, some, List, [], ◌∷◌, lookup, Text, codes, dec_text,
  ℕ_discrete, text_le, starts_with,
}
use noydb.Dict
use noydb.Dict.{insert, Distinct}
use noydb.Json.{Json, number, string, object, field, end, find, size, nth, decimal}
use noydb.Predicate.{equal, less, field_clause, no_clauses, more_clauses, read_path, every_clause}
use noydb.Indexes.{CollectionIndexes, build, upsert, remove, member}
use noydb.Indexes.Coherent.{AllCoherent, upsert-AllCoherent}
use noydb.Query.{QueryPlan, desc, snapshot, execute_plan, execute_plan_with_source}
use noydb.Query.Answers.{AllCovered}
use noydb.Query.Planned.{execute_plan_with_source_lem}

program : Unit {0}
unfolding find size nth decimal insert Dict.remove lookup dec_text ℕ_discrete text_le starts_with
    read_path every_clause build upsert execute_plan execute_plan_with_source member
program = tt

abbrev number_less : Text → Text → Bool
number_less s t = not (text_le t s)

abbrev insert_sorted : (Json → Json → Ordering) → Json → List Json → List Json
insert_sorted cmp a [] = a ∷ []
insert_sorted cmp a (b ∷ l) = elim (cmp a b) [ gt ↦ b ∷ insert_sorted cmp a l | _ ↦ a ∷ b ∷ l ]

abbrev sort_by : (Json → Json → Ordering) → List Json → List Json
sort_by cmp [] = []
sort_by cmp (a ∷ l) = insert_sorted cmp a (sort_by cmp l)

abbrev note : Text → Text → Json
note status rank =
    object (field (codes "status") (string status) (field (codes "rank") (number rank) end))

abbrev cache : List (Text × Json)
cache =
    (codes "a", note (codes "open") (codes "1"))
    ∷ (codes "b", note (codes "done") (codes "2"))
    ∷ (codes "c", note (codes "open") (codes "3"))
    ∷ (codes "d", object end)
    ∷ []

abbrev declared : CollectionIndexes
declared = (codes "status", []) ∷ []

abbrev plan : QueryPlan
plan = record {
  clauses = more_clauses (field_clause (codes "rank") less (some (number (codes "9")))) (
      more_clauses (field_clause (codes "status") equal (some (string (codes "open")))) no_clauses);
  order_by = record { field = codes "rank"; direction = desc } ∷ [];
  limit = some 2;
  offset = 0;
}

open_notes :
    execute_plan number_less sort_by (snapshot cache) plan
    ≡ note (codes "open") (codes "3") ∷ note (codes "open") (codes "1") ∷ []
unfolding program
open_notes = refl

cache-Distinct : Distinct dec_text cache
unfolding program
cache-Distinct = (refl, (refl, (refl, (refl, tt))))

plan-AllCovered : AllCovered declared cache plan.clauses
unfolding program
plan-AllCovered = (λ h. tt, (λ h. (tt, (tt, (tt, (tt, tt)))), tt))

execute_plan_with_source_lem_example :
    execute_plan_with_source number_less sort_by
      (record { cache = cache; indexes = some (build cache declared) })
      plan
    ≡ execute_plan number_less sort_by (snapshot cache) plan
execute_plan_with_source_lem_example =
    execute_plan_with_source_lem number_less sort_by declared cache plan cache-Distinct
      plan-AllCovered

abbrev only : QueryPlan → Option Json → QueryPlan
only p v = record p { clauses = more_clauses (field_clause (codes "rank") equal v) no_clauses }

abbrev by_rank : CollectionIndexes
by_rank = build cache ((codes "rank", []) ∷ [])

-- A text finds a number through an index.
text_finds_number :
    execute_plan_with_source number_less sort_by
      (record { cache = cache; indexes = some by_rank })
      (only plan (some (string (codes "1"))))
    ≡ note (codes "open") (codes "1") ∷ []
unfolding program
text_finds_number = refl

text_scan_nothing :
    execute_plan number_less sort_by (snapshot cache) (only plan (some (string (codes "1")))) ≡ []
unfolding program
text_scan_nothing = refl

-- `undefined` finds nothing through an index.
undefined_finds_nothing :
    execute_plan_with_source number_less sort_by
      (record { cache = cache; indexes = some by_rank })
      (only plan none)
    ≡ []
unfolding program
undefined_finds_nothing = refl

undefined_scan :
    execute_plan number_less sort_by (snapshot cache) (only plan none) ≡ object end ∷ []
unfolding program
undefined_scan = refl

empty-AllCoherent : AllCoherent [] ((codes "status", []) ∷ [])
unfolding program
empty-AllCoherent = (λ k id. refl, tt)

abbrev first : Json
first = note (codes "open") (codes "1")

abbrev one : List (Text × Json)
one = (codes "a", first) ∷ []

abbrev one_index : CollectionIndexes
one_index = upsert (codes "a") first none declared

one-AllCoherent : AllCoherent one one_index
unfolding program
one-AllCoherent = (upsert-AllCoherent (codes "a") first [] declared empty-AllCoherent).0

abbrev second : Json
second = note (codes "done") (codes "2")

upsert-AllCoherent_example :
    AllCoherent
      (insert dec_text (codes "a") second one)
      (upsert (codes "a") second (lookup dec_text (codes "a") one) one_index)
    × ((r : Json)
        → lookup dec_text (codes "a") one ≡ some r
        → AllCoherent (Dict.remove dec_text (codes "a") one) (remove (codes "a") r one_index))
upsert-AllCoherent_example = upsert-AllCoherent (codes "a") second one one_index one-AllCoherent
