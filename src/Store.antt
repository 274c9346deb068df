-- ===== src/Store.antt =====
-- The contract between the hub and its stores: packages/hub/src/types.ts (`EncryptedEnvelope`,
-- `NoydbStore`, `VaultSnapshot`) and the `ConflictError` of packages/hub/src/errors.ts.
pub mod Views
pub mod Answers
use noydb.Base.{ℕ, Text, Option, none, some, List, ite, dec_text, ◌≡◌}

pub record Envelope : Type 0 where
  pub noydb : ℕ
  pub v : ℕ
  pub ts : Text
  pub iv : Text
  pub data_text : Text
  pub by : Option Text

-- What a store method throws.
pub data StoreError : Type 0 where
  conflict : ℕ → StoreError
  failure : Text → StoreError

-- What a promise settles to.
pub data Outcome {ℓ} (E A : Type ℓ) : Type ℓ where
  ok : A → Outcome E A
  thrown : E → Outcome E A

-- The records of one collection, and the collections of one vault, in insertion order.
abbrev pub Records : Type 0
Records = List (Text × Envelope)

abbrev pub VaultSnapshot : Type 0
VaultSnapshot = List (Text × Records)

-- A store method: it changes the store, and settles.
abbrev pub Method : Type 0 → Type 0 → Type 0
Method S A = S → S × Outcome StoreError A

pub record NoydbStore (S : Type 0) : Type 0 where
  pub get : Text → Text → Text → Method S (Option Envelope)
  pub put : Text → Text → Text → Envelope → Option ℕ → Method S Unit
  pub delete : Text → Text → Text → Method S Unit
  pub list : Text → Text → Method S (List Text)
  pub load_all : Text → Method S VaultSnapshot
  pub save_all : Text → VaultSnapshot → Method S Unit

-- `x` at the record `v/c/id`, `y` at any other record `w/d/j`.
abbrev pub at_key {ℓ} : {A : Type ℓ} (v c id w d j : Text) → A → A → A
at_key v c id w d j x y = ite (dec_text w v) (ite (dec_text d c) (ite (dec_text j id) x y) y) y

abbrev pub if_ok {ℓ κ} : {E A : Type ℓ} {B : Type κ} → Outcome E A → B → B → B
if_ok (ok _) x y = x
if_ok (thrown _) x y = y

-- What the hub relies on of a store, stated of the records that it shows: a read shows them, a
-- write that settles changes one, and a method that throws changes none.
pub record IsLawful {S : Type 0} (store : NoydbStore S) : Type 0 where
  pub view : Text → Text → Text → S → Option Envelope
  pub get_view : (v c id w d j : Text) (s : S) → view w d j (store.get v c id s).0 ≡ view w d j s
  pub get_ok :
      (v c id : Text) (s : S) (o : Option Envelope)
      → (store.get v c id s).1 ≡ ok o
      → o ≡ view v c id s
  pub put_view :
      (v c id : Text) (e : Envelope) (expected : Option ℕ) (w d j : Text) (s : S)
      → view w d j (store.put v c id e expected s).0
        ≡ if_ok
            (store.put v c id e expected s).1
            (at_key v c id w d j (some e) (view w d j s))
            (view w d j s)
  pub delete_view :
      (v c id w d j : Text) (s : S)
      → view w d j (store.delete v c id s).0
        ≡ if_ok (store.delete v c id s).1 (at_key v c id w d j none (view w d j s)) (view w d j s)
