-- ===== src/Collection/Running.antt =====
-- Steps of a collection that settle, alone and one after the other.
use noydb.Store.{StoreError, Outcome, ok, thrown, Method}
use noydb.Store.Answers.{IsOk}
use noydb.Ledger.{LedgerError}
use noydb.Collection.{
  ◌>>=◌, ◌>>◌, CollectionError, Collection, Step, next, call, as_error, as_ledger_error,
}
use noydb.Collection.Held.{Settles, Triple}

as_error-IsOk : {A : Type 0} (out : Outcome StoreError A) → IsOk out → IsOk (as_error out)
as_error-IsOk (ok a) h = tt
as_error-IsOk (thrown e) h = absurd h

pub as_ledger_error-IsOk :
    {A : Type 0} (out : Outcome LedgerError A) → IsOk out → IsOk (as_ledger_error out)
as_ledger_error-IsOk (ok a) h = tt
as_ledger_error-IsOk (thrown e) h = absurd h

module _ {S : Type 0} where
  -- The step settles, from every collection of which the first holds.
  abbrev pub Runs : {A : Type 0} → (Collection S → Type 0) → Step S A → Type 0
  Runs P m = (s : Collection S) → P s → IsOk (m s).1

  abbrev pub Always : Collection S → Type 0
  Always s = Unit {0}

  next-IsOk :
      {A B : Type 0} (Q : A → Collection S → Type 0) (f : A → Step S B)
      (p : Collection S × Outcome CollectionError A)
      → Settles Q p
      → IsOk p.1
      → ((a : A) → Runs (Q a) (f a))
      → IsOk (next f p).1
  next-IsOk Q f (s, ok a) h k g = g a s h
  next-IsOk Q f (s, thrown e) h k g = absurd k

  pub bind-Runs :
      {A B : Type 0} {P : Collection S → Type 0} (Q : A → Collection S → Type 0) (m : Step S A)
      (f : A → Step S B)
      → Triple P m Q
      → Runs P m
      → ((a : A) → Runs (Q a) (f a))
      → Runs P (m >>= f)
  bind-Runs Q m f t r g s h = next-IsOk Q f (m s) (t s h) (r s h) g

  pub then-Runs :
      {A B : Type 0} {P : Collection S → Type 0} (Q : Collection S → Type 0) (m : Step S A)
      (k : Step S B)
      → Triple P m (λ a. Q)
      → Runs P m
      → Runs Q k
      → Runs P (m >> k)
  then-Runs Q m k t r g s h = next-IsOk (λ a. Q) (λ a. k) (m s) (t s h) (r s h) (λ a. g)

  pub any-Settles :
      {A : Type 0} (p : Collection S × Outcome CollectionError A) → Settles (λ a. Always) p
  any-Settles (s, ok a) = tt
  any-Settles (s, thrown e) = tt

  -- Steps that settle from everywhere.
  pub then-Always :
      {A B : Type 0} (m : Step S A) (k : Step S B)
      → Runs Always m
      → Runs Always k
      → Runs Always (m >> k)
  then-Always m k r g = then-Runs Always m k (λ s h. any-Settles (m s)) r g

  -- The first of two steps, where the second settles from everywhere.
  pub first-Runs :
      {A B : Type 0} (P : Collection S → Type 0) (m : Step S A) (k : Step S B)
      → Runs P m
      → Runs Always k
      → Runs P (m >> k)
  first-Runs P m k r g = then-Runs Always m k (λ s h. any-Settles (m s)) r g

  pub all-Settles :
      {A : Type 0} (Q : Collection S → Type 0) (p : Collection S × Outcome CollectionError A)
      → Q p.0
      → Settles (λ a. Q) p
  all-Settles Q (s, ok a) h = h
  all-Settles Q (s, thrown e) h = tt

  pub call-Always : {A : Type 0} (m : Method S A) → ((t : S) → IsOk (m t).1) → Runs Always (call m)
  call-Always m h s k = as_error-IsOk (m s.ledger_state.store).1 (h s.ledger_state.store)
