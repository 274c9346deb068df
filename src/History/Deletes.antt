-- ===== src/History/Deletes.antt =====
-- Which entries the deleting loops of history.ts leave.
use noydb.Base.{◌≡◌, ite, if◌then◌else◌, Option, none, List, [], ◌∷◌, Text, dec_text, arith}
use noydb.Store.{Envelope, StoreError, Outcome, ok, thrown, NoydbStore, IsLawful, at_key, if_ok}
use noydb.Sync.{included}
use noydb.History

module _ {S : Type 0} (store : NoydbStore S) (vault : Text) (l : IsLawful store) where
  -- The record after the ids have been deleted from the history of the vault.
  abbrev pub without_ids : Text → Text → Text → List Text → Option Envelope → Option Envelope
  without_ids w d j ids o =
      ite (dec_text w vault)
        (ite (dec_text d History.history_collection) (if included j ids then none else o) o) o

  deleted :
      (ids : List Text) (id w d j : Text) (s : S) (rest : S × Outcome StoreError Unit) (s1 : S)
      (out : Outcome StoreError Unit)
      → l.view w d j s1
        ≡ if_ok out
            (at_key vault History.history_collection id w d j none (l.view w d j s))
            (l.view w d j s)
      → (rest.1 ≡ ok tt → l.view w d j rest.0 ≡ without_ids w d j ids (l.view w d j s1))
      → (History.after_delete store vault rest s1 out).1 ≡ ok tt
      → l.view w d j (History.after_delete store vault rest s1 out).0
        ≡ without_ids w d j (id ∷ ids) (l.view w d j s)
  unfolding History.after_delete included
  deleted ids id w d j s rest s1 (ok u) e ih h = ground (arith, e, ih h)
  deleted ids id w d j s rest s1 (thrown x) e ih h = absurd (ground (arith, h))

  -- When the loop settles, the entries with the given ids are gone and every other record is as
  -- it was.
  pub delete_all_lem :
      (ids : List Text) (w d j : Text) (s : S)
      → (History.delete_all store vault ids s).1 ≡ ok tt
      → l.view w d j (History.delete_all store vault ids s).0
        ≡ without_ids w d j ids (l.view w d j s)
  unfolding History.delete_all included
  delete_all_lem [] w d j s h = ground arith
  delete_all_lem (id ∷ ids) w d j s h =
      let (s1, out) = store.delete vault History.history_collection id s in
      deleted ids id w d j s (History.delete_all store vault ids s1) s1 out
        (l.delete_view vault History.history_collection id w d j s) (delete_all_lem ids w d j s1) h
