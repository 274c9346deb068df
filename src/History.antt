-- ===== src/History.antt =====
-- packages/hub/src/history.ts: the versions that a record had, in the collection `_history` of
-- any store. `String` at a version, padded to ten digits, is a parameter.
pub mod Answered
pub mod Deletes
mod Tests
use noydb.Base.{
  ℕ, zero, suc, ◌+◌, ◌-◌, ◌==◌, ltb, leb, if◌then◌else◌, Bool, true, false, not, Option, none, some,
  List, [], ◌∷◌, ◌++◌, length, take, drop, Text, codes, starts_with, sort, text_le,
}
use noydb.Store.{Envelope, StoreError, Outcome, ok, thrown, NoydbStore}
use noydb.Sync.{included}
use noydb.Crdt.{add_all}

abbrev pub history_collection : Text
history_collection = codes "_history"

unfoldable pub history_id : (ℕ → Text) → Text → Text → ℕ → Text
history_id padded collection record_id version =
    collection ++ codes ":" ++ record_id ++ codes ":" ++ padded version

-- An empty record id counts as none.
unfoldable pub matches_prefix : Text → Text → Option Text → Bool
unfolding starts_with
matches_prefix id collection (some (c ∷ record_id)) =
    starts_with (collection ++ codes ":" ++ (c ∷ record_id) ++ codes ":") id
matches_prefix id collection _ = starts_with (collection ++ codes ":") id

unfoldable pub matching : Text → Option Text → List Text → List Text
unfolding matches_prefix
matching collection record_id [] = []
matching collection record_id (id ∷ l) =
    let rest = matching collection record_id l in
    if matches_prefix id collection record_id then id ∷ rest else rest

abbrev pub reverse : List Text → List Text
reverse [] = []
reverse (x ∷ l) = reverse l ++ x ∷ []

abbrev pub is_before : Text → Text → Bool
is_before a b = not (text_le b a)

pub record HistoryOptions : Type 0 where
  pub from : Option Text
  pub to : Option Text
  pub limit : Option ℕ

pub record PruneOptions : Type 0 where
  pub keep_versions : Option ℕ
  pub before_date : Option Text

abbrev pub on_date : Option Text → (Text → Bool) → Bool
on_date none f = false
on_date (some []) f = false
on_date (some (c ∷ d)) f = f (c ∷ d)

-- `options?.limit && entries.length >= options.limit`
abbrev pub is_full : Option ℕ → ℕ → Bool
is_full none n = false
is_full (some zero) n = false
is_full (some (suc l)) n = leb (suc l) n

module _ {S : Type 0} (store : NoydbStore S) (vault : Text) where
  unfoldable pub save_history :
      (ℕ → Text) → Text → Text → Envelope → S → S × Outcome StoreError Unit
  unfolding history_id
  save_history padded collection record_id envelope =
      store.put vault history_collection (history_id padded collection record_id envelope.v)
        envelope none

  unfoldable pub get_version_envelope :
      (ℕ → Text) → Text → Text → ℕ → S → S × Outcome StoreError (Option Envelope)
  unfolding history_id
  get_version_envelope padded collection record_id version =
      store.get vault history_collection (history_id padded collection record_id version)

  -- The loop of `getHistory` over the ids, newest first, where `n` entries are there already.
  unfoldable pub read_entries :
      HistoryOptions → ℕ → List Text → S → S × Outcome StoreError (List Envelope)
  read_entries options n [] s = (s, ok [])
  read_entries options n (id ∷ l) s =
      let (s1, out) = store.get vault history_collection id s in
      elim out [
        | thrown x ↦ (s1, thrown x)
        | ok none ↦ read_entries options n l s1
        | ok (some e) ↦ elim (on_date options.from (is_before e.ts)) [
          | true ↦ read_entries options n l s1
          | false ↦ elim (on_date options.to (λ to. is_before to e.ts)) [
            | true ↦ read_entries options n l s1
            | false ↦ elim (is_full options.limit (n + 1)) [
              | true ↦ (s1, ok (e ∷ []))
              | false ↦
                  let (s2, rest) = read_entries options (n + 1) l s1 in
                  (s2, elim rest [ thrown x ↦ thrown x | ok es ↦ ok (e ∷ es) ])
            ]
          ]
        ]
      ]

  unfoldable pub get_history :
      Text → Text → HistoryOptions → S → S × Outcome StoreError (List Envelope)
  unfolding read_entries matching sort
  get_history collection record_id options s =
      let (s1, out) = store.list vault history_collection s in
      elim out [
        | thrown x ↦ (s1, thrown x)
        | ok ids ↦
            read_entries options 0 (reverse (sort (matching collection (some record_id) ids))) s1
      ]

  -- What follows a delete, with what the rest of the loop answers.
  unfoldable pub after_delete :
      S × Outcome StoreError Unit → S → Outcome StoreError Unit → S × Outcome StoreError Unit
  after_delete rest s (ok _) = rest
  after_delete rest s (thrown x) = (s, thrown x)

  -- The loop that deletes, up to the first error.
  unfoldable pub delete_all : List Text → S → S × Outcome StoreError Unit
  unfolding after_delete
  delete_all [] s = (s, ok tt)
  delete_all (id ∷ l) s =
      let (s1, out) = store.delete vault history_collection id s in
      after_delete (delete_all l s1) s1 out

  -- The oldest ids, all but the `keep` last ones.
  unfoldable pub surplus : Option ℕ → List Text → List Text
  surplus none ids = []
  surplus (some keep) ids = if ltb keep (length ids) then take (length ids - keep) ids else []

  -- The loop that adds the ids whose entry is older than the date.
  unfoldable pub add_expired : Text → List Text → List Text → S → S × Outcome StoreError (List Text)
  unfolding included
  add_expired date [] found s = (s, ok found)
  add_expired date (id ∷ l) found s = elim (included id found) [
    | true ↦ add_expired date l found s
    | false ↦
        let (s1, out) = store.get vault history_collection id s in
        elim out [
          | thrown x ↦ (s1, thrown x)
          | ok none ↦ add_expired date l found s1
          | ok (some e) ↦ elim (is_before e.ts date) [
            | true ↦ add_expired date l (found ++ id ∷ []) s1
            | false ↦ add_expired date l found s1
          ]
        ]
  ]

  unfoldable pub add_before :
      Option Text → List Text → List Text → S → S × Outcome StoreError (List Text)
  unfolding add_expired
  add_before (some (c ∷ date)) ids found s = add_expired (c ∷ date) ids found s
  add_before _ ids found s = (s, ok found)

  abbrev pub counted : ℕ → S × Outcome StoreError Unit → S × Outcome StoreError ℕ
  counted n (s, ok _) = (s, ok n)
  counted n (s, thrown x) = (s, thrown x)

  -- The ids to clear: of a record, of a collection, or all.
  unfoldable pub to_clear : Option Text → Option Text → List Text → List Text
  unfolding matching
  to_clear (some (c ∷ collection)) record_id ids = matching (c ∷ collection) record_id ids
  to_clear _ record_id ids = ids

  unfoldable pub clear_history : Option Text → Option Text → S → S × Outcome StoreError ℕ
  unfolding delete_all to_clear
  clear_history collection record_id s =
      let (s1, out) = store.list vault history_collection s in
      elim out [
        | thrown x ↦ (s1, thrown x)
        | ok ids ↦
            let ids' = to_clear collection record_id ids in
            counted (length ids') (delete_all ids' s1)
      ]

  -- What follows the choice of the ids, and the list.
  unfoldable pub prune_found : S × Outcome StoreError (List Text) → S × Outcome StoreError ℕ
  unfolding add_all delete_all
  prune_found (s, thrown x) = (s, thrown x)
  prune_found (s, ok found) =
      let unique = add_all [] found in counted (length unique) (delete_all unique s)

  unfoldable pub prune_listed :
      Text
      → Option Text
      → PruneOptions
      → S × Outcome StoreError (List Text)
      → S × Outcome StoreError ℕ
  unfolding matching surplus add_before prune_found sort
  prune_listed collection record_id options (s, thrown x) = (s, thrown x)
  prune_listed collection record_id options (s, ok ids) =
      let sorted = sort (matching collection record_id ids) in
      prune_found (add_before options.before_date sorted (surplus options.keep_versions sorted) s)

  unfoldable pub prune_history : Text → Option Text → PruneOptions → S → S × Outcome StoreError ℕ
  unfolding prune_listed
  prune_history collection record_id options s =
      prune_listed collection record_id options (store.list vault history_collection s)
