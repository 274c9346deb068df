-- ===== src/History/Answered.antt =====
-- When the calls of `prune_history` settle.
use noydb.Base.{ℕ, Option, none, some, List, [], ◌∷◌, Text}
use noydb.Store.{StoreError, Outcome, ok, thrown, NoydbStore}
use noydb.Store.Answers.{IsOk, Answers}
use noydb.History.{
  history_collection, add_before, counted, after_delete, delete_all, prune_found, prune_listed,
}

module _ {S : Type 0} (store : NoydbStore S) (a : Answers store) (vault : Text) where
  after_delete-IsOk :
      (rest : S × Outcome StoreError Unit) (s : S) (out : Outcome StoreError Unit)
      → IsOk out
      → IsOk rest.1
      → IsOk (after_delete store vault rest s out).1
  unfolding after_delete
  after_delete-IsOk rest s (ok u) h k = k
  after_delete-IsOk rest s (thrown e) h k = absurd h

  delete_all-IsOk : (ids : List Text) (s : S) → IsOk (delete_all store vault ids s).1
  unfolding delete_all
  delete_all-IsOk [] s = tt
  delete_all-IsOk (id ∷ l) s =
      let s1 = (store.delete vault history_collection id s).0 in
      after_delete-IsOk (delete_all store vault l s1) s1 _
        (Answers.delete_answers a vault history_collection id s) (delete_all-IsOk l s1)

  counted-IsOk :
      (n : ℕ) (p : S × Outcome StoreError Unit) → IsOk p.1 → IsOk (counted store vault n p).1
  counted-IsOk n (s, ok u) h = tt
  counted-IsOk n (s, thrown e) h = absurd h

  pub prune_listed-IsOk :
      (collection : Text) (id : Option Text) (n : ℕ) (p : S × Outcome StoreError (List Text))
      → IsOk p.1
      → IsOk
          (prune_listed store vault collection id
            (record { keep_versions = some n; before_date = none })
            p).1
  unfolding prune_listed prune_found add_before
  prune_listed-IsOk collection id n (s, ok ids) h = counted-IsOk _ _ (delete_all-IsOk _ s)
  prune_listed-IsOk collection id n (s, thrown e) h = absurd h
