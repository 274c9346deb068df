-- ===== src/Collection/Held.antt =====
-- What holds after a step of a collection that settles, and what a step leaves alone.
use mathlib.Core.Path.{subst}
use noydb.Base.{◌≡◌, ◌∙◌, refl, ap, true, Option, none, some, List, Text, dec_text, ite, arith}
use noydb.Store.Views.{at_key_here}
use noydb.Store.{Envelope, StoreError, Outcome, ok, thrown, Method, IsLawful}
use noydb.Ledger
use noydb.Ledger.{LedgerState, LedgerError}
use noydb.Indexes.{CollectionIndexes}
use noydb.Collection.{
  Cached, CollectionError, Event, Config, Collection, Step, next, call, on_ledger, emit, settle,
  with_store, as_error, as_ledger_error, ◌>>=◌, ◌>>◌,
}

module _ {S : Type 0} where
  -- A result that settled has the property.
  abbrev pub Settles :
      {A : Type 0} → (A → Collection S → Type 0) → Collection S × Outcome CollectionError A → Type 0
  Settles Q (s, ok a) = Q a s
  Settles Q (s, thrown e) = Unit

  abbrev pub Triple :
      {A : Type 0} → (Collection S → Type 0) → Step S A → (A → Collection S → Type 0) → Type 0
  Triple P m Q = (s : Collection S) → P s → Settles Q (m s)

  pub Settles-ok :
      {A : Type 0} (Q : A → Collection S → Type 0) (p : Collection S × Outcome CollectionError A)
      (a : A)
      → p.1 ≡ ok a
      → Settles Q p
      → Q a p.0
  Settles-ok Q (s, ok b) a e h = let same : b ≡ a = ground (arith, e) in subst (λ z. Q z s) same h
  Settles-ok Q (s, thrown x) a e h = absurd (ground (arith, e))

  pub next-Settles :
      {A B : Type 0} (Q : A → Collection S → Type 0) (R : B → Collection S → Type 0)
      (f : A → Step S B) (p : Collection S × Outcome CollectionError A)
      → Settles Q p
      → ((a : A) → Triple (Q a) (f a) R)
      → Settles R (next f p)
  next-Settles Q R f (s, ok a) h g = g a s h
  next-Settles Q R f (s, thrown e) h g = tt

  pub map-Settles :
      {A : Type 0} (Q R : A → Collection S → Type 0) (p : Collection S × Outcome CollectionError A)
      → ((a : A) (s : Collection S) → Q a s → R a s)
      → Settles Q p
      → Settles R p
  map-Settles Q R (s, ok a) g h = g a s h
  map-Settles Q R (s, thrown e) g h = tt

  pub bind-Triple :
      {A B : Type 0} {P : Collection S → Type 0} {Q : A → Collection S → Type 0}
      (R : B → Collection S → Type 0) (m : Step S A) (f : A → Step S B)
      → Triple P m Q
      → ((a : A) → Triple (Q a) (f a) R)
      → Triple P (m >>= f) R
  bind-Triple {Q} R m f t g s h = next-Settles Q R f (m s) (t s h) g

  pub then-Triple :
      {A B : Type 0} {P Q : Collection S → Type 0} (R : B → Collection S → Type 0) (m : Step S A)
      (k : Step S B)
      → Triple P m (λ a. Q)
      → Triple Q k R
      → Triple P (m >> k) R
  then-Triple {Q} R m k t g s h = next-Settles (λ a. Q) R (λ a. k) (m s) (t s h) (λ a. g)

  pub settle-Triple :
      {A : Type 0} (P : Collection S → Type 0) (out : Outcome CollectionError A)
      → Triple P (settle out) (λ a s. P s × (out ≡ ok a))
  settle-Triple P (ok a) s h = (h, refl)
  settle-Triple P (thrown e) s h = tt

module _ {S : Type 0} (cfg : Config S) (l : IsLawful cfg.adapter) where
  -- The record of the collection, as the store shows it.
  abbrev pub stored : Text → S → Option Envelope
  stored id t = IsLawful.view l cfg.vault cfg.name id t

  -- The operation is not seen at the records of the collection.
  abbrev pub IsUnseen : {A : Type 0} → (S → S × A) → Type 0
  IsUnseen m = (id : Text) (t : S) → stored id (m t).0 ≡ stored id t

  abbrev pub IsUnseenLedger : {A : Type 0} → (LedgerState S → LedgerState S × A) → Type 0
  IsUnseenLedger m = (id : Text) (s : LedgerState S) → stored id (m s).0.store ≡ stored id s.store

  -- An eager collection with this cache and these indexes, over a store that shows these records.
  pub record Holds (c : List (Text × Cached)) (x : CollectionIndexes) (f : Text → Option Envelope)
      (s : Collection S) : Type 0 where
    pub eager : s.lru ≡ none
    pub is_hydrated : s.hydrated ≡ true
    pub cache_is : s.cache ≡ c
    pub indexes_are : s.indexes ≡ x
    pub shows : (id : Text) → stored id s.ledger_state.store ≡ f id

  settled-Holds :
      {A : Type 0} (c : List (Text × Cached)) (x : CollectionIndexes) (g : Text → Option Envelope)
      (s : Collection S) (out : Outcome StoreError A)
      → ((a : A) → out ≡ ok a → Holds c x g s)
      → Settles (λ a. Holds c x g) (s, as_error out)
  settled-Holds c x g s (ok a) h = h a refl
  settled-Holds c x g s (thrown e) h = tt

  module _ {c : List (Text × Cached)} {x : CollectionIndexes} {f : Text → Option Envelope} where
    with_store-Holds :
        (g : Text → Option Envelope) (s : Collection S) (t : S)
        → Holds c x f s
        → ((id : Text) → stored id t ≡ g id)
        → Holds c x g (with_store t s)
    with_store-Holds g s t h k = record {
      eager = h.eager;
      is_hydrated = h.is_hydrated;
      cache_is = h.cache_is;
      indexes_are = h.indexes_are;
      shows = k;
    }

    pub call-Holds :
        {A : Type 0} (m : Method S A)
        → IsUnseen m
        → Triple (Holds c x f) (call m) (λ a. Holds c x f)
    call-Holds m u s h =
        settled-Holds c x f (with_store (m s.ledger_state.store).0 s) (m s.ledger_state.store).1
          (λ a e. with_store-Holds f s _ h (λ id. u id s.ledger_state.store ∙ h.shows id))

    ledger_case :
        {A : Type 0} (s : Collection S) (out : Outcome LedgerError A)
        → Holds c x f s
        → Settles (λ a. Holds c x f) (s, as_ledger_error out)
    ledger_case s (ok a) h = h
    ledger_case s (thrown e) h = tt

    pub on_ledger-Holds :
        {A : Type 0} (m : Ledger.Action S A)
        → IsUnseenLedger m
        → Triple (Holds c x f) (on_ledger m) (λ a. Holds c x f)
    on_ledger-Holds m u s h =
        ledger_case (record s { ledger_state = (m s.ledger_state).0 }) (m s.ledger_state).1
          (record {
            eager = h.eager;
            is_hydrated = h.is_hydrated;
            cache_is = h.cache_is;
            indexes_are = h.indexes_are;
            shows = λ id. u id s.ledger_state ∙ h.shows id;
          })

    pub emit-Holds : (e : Event) → Triple (Holds c x f) (emit e) (λ a. Holds c x f)
    emit-Holds e s h = record {
      eager = h.eager;
      is_hydrated = h.is_hydrated;
      cache_is = h.cache_is;
      indexes_are = h.indexes_are;
      shows = h.shows;
    }

    -- A write of the collection's own record that settles.
    pub put-Holds :
        (id : Text) (e : Envelope)
        → Triple
            (Holds c x f)
            (call (cfg.adapter.put cfg.vault cfg.name id e none))
            (λ a. Holds c x (λ j. ite (dec_text j id) (some e) (f j)))
    put-Holds id e s h =
        let t = s.ledger_state.store in
        let p = cfg.adapter.put cfg.vault cfg.name id e none t in
        settled-Holds c x _ (with_store p.0 s) p.1 (λ a k. with_store-Holds _ s p.0 h (λ j.
          IsLawful.put_view l cfg.vault cfg.name id e none cfg.vault cfg.name j t
          ∙ rw k (
              at_key_here cfg.vault cfg.name id j (some e) (stored j t)
              ∙ ap (ite (dec_text j id) (some e)) (h.shows j))))

    pub delete-Holds :
        (id : Text)
        → Triple
            (Holds c x f)
            (call (cfg.adapter.delete cfg.vault cfg.name id))
            (λ a. Holds c x (λ j. ite (dec_text j id) none (f j)))
    delete-Holds id s h =
        let t = s.ledger_state.store in
        let p = cfg.adapter.delete cfg.vault cfg.name id t in
        settled-Holds c x _ (with_store p.0 s) p.1 (λ a k. with_store-Holds _ s p.0 h (λ j.
          IsLawful.delete_view l cfg.vault cfg.name id cfg.vault cfg.name j t
          ∙ rw k (
              at_key_here cfg.vault cfg.name id j none (stored j t)
              ∙ ap (ite (dec_text j id) none) (h.shows j))))
