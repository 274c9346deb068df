-- ===== src/Route/Compact.antt =====
-- `compact`: the records of the default store that are older than the cutoff move to the cold one.
pub mod Kept
use noydb.Base.{ℕ, ◌+◌, if◌then◌else◌, Option, none, some, List, [], ◌∷◌, Text}
use noydb.Store.{Envelope, StoreError, Outcome, ok, thrown, Method, NoydbStore}
use noydb.Route.{RouteOptions, AgeRoute, is_cold}
use noydb.Route.Methods.{or_no_ids}

-- The rest of an `async` function, after a call that may throw.
abbrev pub and_then :
    {S A B : Type 0}
    → S × Outcome StoreError A
    → (A → S → S × Outcome StoreError B)
    → S × Outcome StoreError B
and_then (s, thrown x) k = (s, thrown x)
and_then (s, ok a) k = k a s

module _ {S : Type 0} (stores : ℕ → NoydbStore S) (opts : RouteOptions) (time_of : Text → Option ℕ)
    (now : ℕ) where
  -- What follows the write to the cold store, and then the delete.
  unfoldable pub after_cold_delete : ℕ → S × Outcome StoreError Unit → S × Outcome StoreError ℕ
  after_cold_delete n (s, thrown x) = (s, thrown x)
  after_cold_delete n (s, ok _) = (s, ok (n + 1))

  unfoldable pub after_cold_put :
      Text → Text → Text → ℕ → S × Outcome StoreError Unit → S × Outcome StoreError ℕ
  unfolding after_cold_delete
  after_cold_put vault collection id n (s, thrown x) = (s, thrown x)
  after_cold_put vault collection id n (s, ok _) =
      after_cold_delete n ((stores opts.default_store).delete vault collection id s)

  -- What follows the read of a record; `n` have migrated before.
  unfoldable pub after_read :
      AgeRoute
      → Text
      → Text
      → Text
      → ℕ
      → S × Outcome StoreError (Option Envelope)
      → S × Outcome StoreError ℕ
  unfolding after_cold_put is_cold
  after_read a vault collection id n (s, thrown x) = (s, thrown x)
  after_read a vault collection id n (s, ok none) = (s, ok n)
  after_read a vault collection id n (s, ok (some envelope)) =
      if is_cold opts time_of now collection envelope
      then after_cold_put vault collection id n
          ((stores a.cold).put vault collection id envelope none s)
      else (s, ok n)

  unfoldable pub compact_record : AgeRoute → Text → Text → Text → ℕ → Method S ℕ
  unfolding after_read
  compact_record a vault collection id n s =
      after_read a vault collection id n ((stores opts.default_store).get vault collection id s)

  -- The inner loop.
  unfoldable pub compact_ids : AgeRoute → Text → Text → List Text → ℕ → Method S ℕ
  unfolding compact_record
  compact_ids a vault collection [] n s = (s, ok n)
  compact_ids a vault collection (id ∷ ids) n s =
      and_then (compact_record a vault collection id n s) (compact_ids a vault collection ids)

  -- The outer loop.
  unfoldable pub compact_collections : AgeRoute → Text → List Text → ℕ → Method S ℕ
  unfolding compact_ids
  compact_collections a vault [] n s = (s, ok n)
  compact_collections a vault (collection ∷ l) n s =
      let (s1, ids) = (stores opts.default_store).list vault collection s in
      and_then (compact_ids a vault collection (or_no_ids ids) n s1) (compact_collections a vault l)

  -- Without collections in the options, those that the default store lists under an empty name.
  unfoldable pub compact_aged : AgeRoute → List Text → Text → Method S ℕ
  unfolding compact_collections
  compact_aged a [] vault s =
      let (s1, ids) = (stores opts.default_store).list vault [] s in
      compact_collections a vault (or_no_ids ids) 0 s1
  compact_aged a (c ∷ l) vault s = compact_collections a vault (c ∷ l) 0 s

  unfoldable pub compact_option : Option AgeRoute → Text → Method S ℕ
  unfolding compact_aged
  compact_option none vault s = (s, ok 0)
  compact_option (some a) vault s = compact_aged a a.collections vault s

  unfoldable pub compact : Text → Method S ℕ
  unfolding compact_option
  compact vault s = compact_option opts.age vault s
