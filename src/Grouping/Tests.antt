-- ===== src/Grouping/Tests.antt =====
-- Groups of a few records, and their counts.
use noydb.Base.{
  ℕ, suc, ◌≡◌, refl, Option, none, some, List, [], ◌∷◌, lookup, Text, codes, dec_text, ℕ_discrete,
}
use noydb.Dict.{insert}
use noydb.Json.{Json, string, object, field, end, find}
use noydb.Predicate.{read_path, strict_equal}
use noydb.Grouping.{
  Reducer, ok, too_many, bucket_at, push_to, group_records, group_and_reduce, reduce_records,
}
use noydb.Grouping.Groups.{Groups, group_records-Groups}

program : Unit {0}
unfolding find insert lookup dec_text ℕ_discrete read_path strict_equal bucket_at push_to
    group_records group_and_reduce reduce_records
program = tt

abbrev note : Text → Json
note status = object (field (codes "status") (string status) end)

abbrev notes : List Json
notes = note (codes "open") ∷ note (codes "done") ∷ note (codes "open") ∷ object end ∷ []

abbrev counting : Reducer ℕ (Option ℕ)
counting = record { init = 0; step = λ n r. suc n; finalize = λ n. some n }

counts :
    group_and_reduce (λ k. none) notes (codes "status") ((codes "n", counting) ∷ [])
    ≡ ok (
        ((codes "status", none) ∷ (codes "n", some 2) ∷ [])
        ∷ ((codes "status", none) ∷ (codes "n", some 1) ∷ [])
        ∷ ((codes "status", none) ∷ (codes "n", some 1) ∷ [])
        ∷ [])
unfolding program
counts = refl

all_notes : reduce_records ((codes "n", counting) ∷ []) notes ≡ (codes "n", some 4) ∷ []
unfolding program
all_notes = refl

two_only : group_records 2 (codes "status") notes [] ≡ too_many 3
unfolding program
two_only = refl

group_records-Groups_example :
    Groups 2 (codes "status") notes (group_records 2 (codes "status") notes [])
group_records-Groups_example = group_records-Groups 2 (codes "status") notes
