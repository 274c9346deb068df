-- ===== src/Query/Planned.antt =====
-- A run that uses the indexes against the run on a snapshot.
use Prim.Native.Nat.{Ordering}
use noydb.Base.{
  ◌≡◌, ◌∙◌, sym, refl, ap, ◌&&◌, if◌then◌else◌, Bool, true, false, Option, none, some, Option-cases,
  inl, inr, List, [], ◌∷◌, lookup, Text, dec_text, All-map, arith,
}
use noydb.Dict.{Distinct}
use noydb.Json.{Json, Items, string, array}
use noydb.Predicate.{
  Clause, Clauses, equal, in_list, field_clause, no_clauses, more_clauses, read_path, strict_equal,
  evaluate_clause, every_clause,
}
use noydb.Indexes
use noydb.Indexes.{CollectionIndexes, index_key, build, add_records, lookup_equal}
use noydb.Indexes.Buckets.{bucket, bucket-add_records, lookup-build, lookup_self}
use noydb.Query.{
  QueryPlan, snapshot, filter_records, finish, execute_plan, clause_ids, with_remaining,
  pick_clause, materialize_ids, candidates_of, candidate_records, execute_plan_with_source,
}
use noydb.Query.Answers.{Readable, Covered, AllCovered, keep, materialize-ids_of}

and_swap : (a b c : Bool) → (a && (b && c)) ≡ (b && (a && c))
and_swap true true c = refl
and_swap true false c = refl
and_swap false true c = refl
and_swap false false c = refl

remaining_lem :
    (c : Clause) (o : Option (List Text × Clauses)) (ids : List Text) (rest : Clauses)
    → with_remaining c o ≡ some (ids, rest)
    → (ids' : List Text) × (m : Clauses) × (o ≡ some (ids', m))
      × (ids' ≡ ids)
      × (more_clauses c m ≡ rest)
remaining_lem c none ids rest h = absurd (ground (arith, h))
remaining_lem c (some (i, m)) ids rest h = (
  i,
  m,
  refl,
  ap (λ o. elim o [ none ↦ ids | some p ↦ p.0 ]) h,
  ap (λ o. elim o [ none ↦ rest | some p ↦ p.1 ]) h,
)

equal_gone :
    (path : Text) (v : Option Json) (cache : List (Text × Json)) (declared : CollectionIndexes)
    → lookup dec_text path declared ≡ none
    → lookup_equal path v (build cache declared) ≡ none
unfolding lookup_equal
equal_gone path v cache declared h =
    let f : lookup dec_text path (build cache declared) ≡ none =
      lookup-build path cache declared ∙ rw h refl in
    ap (λ o. elim o [ none ↦ none | some idx ↦ some (bucket (Indexes.stringify_key v) idx) ]) f

in_gone :
    (path : Text) (xs : Items) (cache : List (Text × Json)) (declared : CollectionIndexes)
    → lookup dec_text path declared ≡ none
    → Indexes.lookup_in path xs (build cache declared) ≡ none
unfolding Indexes.lookup_in
in_gone path xs cache declared h =
    let f : lookup dec_text path (build cache declared) ≡ none =
      lookup-build path cache declared ∙ rw h refl in
    ap (λ o. elim o [ none ↦ none | some idx ↦ some (Indexes.union_of idx [] xs) ]) f

equal_there :
    (path : Text) (v : Option Json) (cache : List (Text × Json)) (declared : CollectionIndexes)
    (idx : Indexes.HashIndex)
    → lookup dec_text path declared ≡ some idx
    → lookup_equal path v (build cache declared)
      ≡ some (bucket (Indexes.stringify_key v) (add_records path [] cache))
unfolding lookup_equal
equal_there path v cache declared idx h =
    let f : lookup dec_text path (build cache declared) ≡ some (add_records path [] cache) =
      lookup-build path cache declared ∙ rw h refl in
    ap (λ o. elim o [ none ↦ none | some idx ↦ some (bucket (Indexes.stringify_key v) idx) ]) f

module _ (number_less : Text → Text → Bool) where
  -- A clause that was picked, and what the others leave.
  abbrev Picked :
      CollectionIndexes
      → CollectionIndexes
      → List (Text × Json)
      → Clauses
      → Clauses
      → List Text
      → Type 0
  Picked idx declared cache l rest ids =
      (c : Clause) × (clause_ids idx c ≡ some ids)
      × Covered declared cache c
      × ((r : Json)
          → every_clause number_less r l
            ≡ (evaluate_clause number_less r c && every_clause number_less r rest))

  pick_lem :
      (idx declared : CollectionIndexes) (cache : List (Text × Json)) (l rest : Clauses)
      (ids : List Text)
      → AllCovered declared cache l
      → pick_clause idx l ≡ some (ids, rest)
      → Picked idx declared cache l rest ids
  unfolding pick_clause every_clause
  pick_lem idx declared cache no_clauses rest ids a h = absurd (ground (arith, h))
  pick_lem idx declared cache (more_clauses c l) rest ids a h =
      elim (clause_ids idx c)
          as (λ o.
            clause_ids idx c ≡ o
            → (elim o [
              | some found ↦ some (found, l)
              | none ↦ with_remaining c (pick_clause idx l)
            ])
              ≡ some (ids, rest)
            → Picked idx declared cache (more_clauses c l) rest ids) [
              | some found ↦ λ e f.
                  let same : found ≡ ids = ap (λ o. elim o [ none ↦ ids | some p ↦ p.0 ]) f in
                  let left : l ≡ rest = ap (λ o. elim o [ none ↦ rest | some p ↦ p.1 ]) f in
                  (
                    c,
                    e ∙ ap some same,
                    a.0,
                    λ r.
                        ap (λ z. evaluate_clause number_less r c && every_clause number_less r z)
                          left,
                  )
              | none ↦ λ e f.
                  let (ids', m, p, q, k) = remaining_lem c (pick_clause idx l) ids rest f in
                  let (d, x, y, g) = pick_lem idx declared cache l m ids' a.1 p in
                  (
                    d,
                    x ∙ ap some q,
                    y,
                    λ r.
                        ap (λ z. evaluate_clause number_less r c && z) (g r)
                        ∙ and_swap (evaluate_clause number_less r c)
                            (evaluate_clause number_less r d) (every_clause number_less r m)
                        ∙ ap (λ z. evaluate_clause number_less r d && every_clause number_less r z)
                            k,
                  )
            ]
        refl h

  keep_step :
      (a : Bool) (r : Json) (rs : List Json) (rest : Clauses) (out : List Json)
      → filter_records number_less rs rest ≡ out
      → filter_records number_less (if a then r ∷ rs else rs) rest
        ≡ (if a && every_clause number_less r rest then r ∷ out else out)
  unfolding filter_records
  keep_step true r rs rest out h = ap (λ z. if every_clause number_less r rest then r ∷ z else z) h
  keep_step false r rs rest out h = h

  filter_keep :
      (c : Clause) (rest all : Clauses) (l : List (Text × Json))
      → ((r : Json)
          → every_clause number_less r all
            ≡ (evaluate_clause number_less r c && every_clause number_less r rest))
      → filter_records number_less (keep (λ r. evaluate_clause number_less r c) l) rest
        ≡ filter_records number_less (snapshot l) all
  unfolding filter_records
  filter_keep c rest all [] h = refl
  filter_keep c rest all (e ∷ l) h =
      keep_step (evaluate_clause number_less e.1 c) e.1 _ rest _ (filter_keep c rest all l h)
      ∙ ap
          (λ z.
            if z
            then e.1 ∷ filter_records number_less (snapshot l) all
            else filter_records number_less (snapshot l) all)
          (sym (h e.1))

  -- What the index gives for an equality with a text.
  equal_lem :
      (path : Text) (v : Option Json) (cache : List (Text × Json))
      → Distinct dec_text cache
      → Readable equal v path cache
      → materialize_ids cache (bucket (Indexes.stringify_key v) (add_records path [] cache))
        ≡ keep (λ r. strict_equal (read_path r path) v) cache
  unfolding lookup Indexes.stringify_key Indexes.member
  equal_lem path (some (string t)) cache d h =
      ap (materialize_ids cache)
        (bucket-add_records path t [] cache d (All-map cache (λ e x. refl) h))
      ∙ materialize-ids_of cache path t cache (lookup_self cache d) h
  equal_lem path v cache d h = absurd h

  -- What the index gives for a clause that it covers.
  ids_lem :
      (declared : CollectionIndexes) (cache : List (Text × Json)) (c : Clause) (ids : List Text)
      → Distinct dec_text cache
      → Covered declared cache c
      → clause_ids (build cache declared) c ≡ some ids
      → materialize_ids cache ids ≡ keep (λ r. evaluate_clause number_less r c) cache
  unfolding clause_ids evaluate_clause
  ids_lem declared cache (field_clause path equal v) ids d h e =
      elim (Option-cases (lookup dec_text path declared)) [
        | inl missing ↦ absurd (ground (arith, sym e ∙ equal_gone path v cache declared missing))
        | inr (idx, there) ↦
            let same : ids ≡ bucket (Indexes.stringify_key v) (add_records path [] cache) =
              ap (λ o. elim o [ none ↦ ids | some x ↦ x ])
                (sym e ∙ equal_there path v cache declared idx there) in
            ap (materialize_ids cache) same
            ∙ equal_lem path v cache d (h (λ z. ground (arith, z, there)))
      ]
  ids_lem declared cache (field_clause path in_list (some (array xs))) ids d h e =
      elim (Option-cases (lookup dec_text path declared)) [
        | inl missing ↦ absurd (ground (arith, sym e ∙ in_gone path xs cache declared missing))
        | inr (idx, there) ↦ absurd (h (λ z. ground (arith, z, there)))
      ]
  ids_lem declared cache c ids d h e = absurd (ground (arith, e))

  candidates_lem :
      (declared : CollectionIndexes) (cache : List (Text × Json)) (l : Clauses)
      → Distinct dec_text cache
      → AllCovered declared cache l
      → (let (candidates, remaining) =
            candidate_records (record { cache = cache; indexes = some (build cache declared) }) l in
          filter_records number_less candidates remaining
          ≡ filter_records number_less (snapshot cache) l)
  unfolding candidate_records
  candidates_lem declared cache l d a =
      elim (pick_clause (build cache declared) l)
          as (λ o.
            pick_clause (build cache declared) l ≡ o
            → filter_records number_less (candidates_of cache l o).0 (candidates_of cache l o).1
              ≡ filter_records number_less (snapshot cache) l) [
                | none ↦ λ e. refl
                | some p ↦ λ e.
                    let (c, found, covered, split) =
                      pick_lem (build cache declared) declared cache l p.1 p.0 a e in
                    ap (λ z. filter_records number_less z p.1)
                      (ids_lem declared cache c p.0 d covered found)
                    ∙ filter_keep c p.1 l cache split
              ]
        refl

  -- With indexes built from the cache, on a cache with an id once, a plan whose clauses at indexed
  -- fields ask with `==` for a text, at fields that have texts or nothing, and not with `in`, gives
  -- through the indexes the same records in the same order as on the snapshot.
  pub execute_plan_with_source_lem :
      (sort_by : (Json → Json → Ordering) → List Json → List Json) (declared : CollectionIndexes)
      (cache : List (Text × Json)) (plan : QueryPlan)
      → Distinct dec_text cache
      → AllCovered declared cache plan.clauses
      → execute_plan_with_source number_less sort_by
          (record { cache = cache; indexes = some (build cache declared) })
          plan
        ≡ execute_plan number_less sort_by (snapshot cache) plan
  unfolding execute_plan_with_source execute_plan
  execute_plan_with_source_lem sort_by declared cache plan d a =
      ap (finish number_less sort_by plan) (candidates_lem declared cache plan.clauses d a)
