-- ===== src/Store/Answers.antt =====
-- Outcomes that are no errors, and stores that answer.
use noydb.Base.{◌≡◌, refl, none, Text}
use noydb.Store.{Envelope, Outcome, ok, thrown, NoydbStore}

abbrev pub IsOk : {E A : Type 0} → Outcome E A → Type 0
IsOk (ok a) = Unit
IsOk (thrown e) = ⊥

pub IsOk-unit : {E : Type 0} (out : Outcome E (Unit {0})) → IsOk out → out ≡ ok tt
IsOk-unit (ok tt) h = refl
IsOk-unit (thrown e) h = absurd h

-- The store answers: none of the four calls throws, where a put expects no version.
pub record Answers {S : Type 0} (store : NoydbStore S) : Type 0 where
  pub get_answers : (v c id : Text) (s : S) → IsOk (store.get v c id s).1
  pub put_answers : (v c id : Text) (e : Envelope) (s : S) → IsOk (store.put v c id e none s).1
  pub delete_answers : (v c id : Text) (s : S) → IsOk (store.delete v c id s).1
  pub list_answers : (v c : Text) (s : S) → IsOk (store.list v c s).1
