-- ===== src/Collection/Filling.antt =====
-- The loop of hydration over the ids, and what holds within it.
use mathlib.Core.Path.{subst}
use noydb.Base.{
  ◌≡◌, ◌⊎◌, inl, inr, ◌∙◌, sym, refl, ap, ite, Bool, true, false, Option, none, some, List, [], ◌∷◌,
  lookup, Text, dec_text, arith,
}
use noydb.Dict
use noydb.Dict.{insert, lookup-insert, Distinct-insert}
use noydb.Store.{Envelope, StoreError, Outcome, ok, thrown, NoydbStore, IsLawful}
use noydb.Indexes.{member}
use noydb.Indexes.Build.{build-AllCoherent}
use noydb.Collection.{
  ◌>>=◌, Cached, Config, Collection, settle, call, with_store, as_error, docs, value_of,
  decrypt_record, cache_record, hydrate_found, hydrate_ids, rebuild_indexes,
}
use noydb.Collection.Held.{Settles, Triple, bind-Triple, then-Triple, settle-Triple, stored}
use noydb.Collection.Sound.{lookup-docs}
use noydb.Ledger.Quiet.{ListsUnseen}
use noydb.Collection.Mirror.{IsMirror, MirrorAt}

-- A list has every id at which the store shows a record.
abbrev pub ListsAll : {S : Type 0} → (store : NoydbStore S) → IsLawful store → Type 0
ListsAll {S} store l =
    (v c j : Text) (s : S) (ids : List Text)
    → (store.list v c s).1 ≡ ok ids
    → (IsLawful.view l v c j s ≡ none) ⊎ (member j ids ≡ true)

docs-Distinct :
    (c : List (Text × Cached)) → Dict.Distinct dec_text c → Dict.Distinct dec_text (docs c)
docs-Distinct [] d = tt
docs-Distinct (e ∷ c) d = (lookup-docs e.0 c ∙ ap value_of d.0, docs-Distinct c d.1)

settled-at :
    {S A : Type 0} (Q : A → Collection S → Type 0) (s : Collection S) (out : Outcome StoreError A)
    → ((a : A) → out ≡ ok a → Q a s)
    → Settles Q (s, as_error out)
settled-at Q s (ok a) h = h a refl
settled-at Q s (thrown e) h = tt

module _ {S : Type 0} (cfg : Config S) (l : IsLawful cfg.adapter) where
  -- At one id: it is still to be read, or the cache has what the store shows.
  abbrev pub ReadAt : Option Cached → Option Envelope → Bool → Type 0
  ReadAt m o b = ((m ≡ none) × (b ≡ true)) ⊎ MirrorAt cfg l m o

  ReadAt-none :
      {j id : Text} (q : Dec (j ≡ id)) (m : Option Cached) (o : Option Envelope) (b : Bool)
      → (j ≡ id → o ≡ none)
      → ReadAt m o (ite q true b)
      → ReadAt m o b
  ReadAt-none (yes p) m o b f (inl (e, k)) =
      inr (subst (λ z. MirrorAt cfg l z o) (sym e) (subst (MirrorAt cfg l none) (sym (f p)) tt))
  ReadAt-none (yes p) m o b f (inr h) = inr h
  ReadAt-none (no p) m o b f h = h

  ReadAt-some :
      {j id : Text} (q : Dec (j ≡ id)) (m : Option Cached) (o : Option Envelope) (b : Bool)
      (v : Cached) (e : Envelope)
      → (j ≡ id → o ≡ some e)
      → MirrorAt cfg l (some v) (some e)
      → ReadAt m o (ite q true b)
      → ReadAt (ite q (some v) m) o b
  ReadAt-some (yes p) m o b v e f g h = inr (subst (MirrorAt cfg l (some v)) (sym (f p)) g)
  ReadAt-some (no p) m o b v e f g h = h

  -- Within the loop over the ids.
  pub record IsFilling (f : Text → Option Envelope) (ids : List Text) (s : Collection S)
      : Type 0 where
    pub eager : s.lru ≡ none
    pub shows : (id : Text) → stored cfg l id s.ledger_state.store ≡ f id
    pub distinct : Dict.Distinct dec_text s.cache
    pub read : (j : Text) → ReadAt (lookup dec_text j s.cache) (f j) (member j ids)

  module _ (f : Text → Option Envelope) where
    pub get-Triple :
        (id : Text) (ids : List Text)
        → Triple
            (IsFilling f ids)
            (call (cfg.adapter.get cfg.vault cfg.name id))
            (λ o s. IsFilling f ids s × (o ≡ f id))
    get-Triple id ids s h =
        let t = s.ledger_state.store in
        let p = cfg.adapter.get cfg.vault cfg.name id t in
        settled-at (λ o s. IsFilling f ids s × (o ≡ f id)) (with_store p.0 s) p.1
          (λ o e. (
            record {
              eager = h.eager;
              shows =
                  λ j. IsLawful.get_view l cfg.vault cfg.name id cfg.vault cfg.name j t ∙ h.shows j;
              distinct = h.distinct;
              read = h.read;
            },
            IsLawful.get_ok l cfg.vault cfg.name id t o e ∙ h.shows id,
          ))

    pub found-Triple :
        (id : Text) (ids : List Text) (o : Option Envelope)
        → Triple
            (λ s. IsFilling f (id ∷ ids) s × (o ≡ f id))
            (hydrate_found cfg id o)
            (λ a. IsFilling f ids)
    unfolding member
    found-Triple id ids none = λ s h. record {
      eager = h.0.eager;
      shows = h.0.shows;
      distinct = h.0.distinct;
      read = λ j.
          ReadAt-none (dec_text j id) (lookup dec_text j s.cache) (f j) (member j ids)
            (λ p. ap f p ∙ sym h.1) (h.0.read j);
    }
    found-Triple id ids (some e) =
        let P : Collection S → Type 0 = λ s. IsFilling f (id ∷ ids) s × (some e ≡ f id) in
        bind-Triple {Q = λ v s. P s × (decrypt_record cfg false e ≡ ok v)} (λ a. IsFilling f ids)
          (settle (decrypt_record cfg false e)) (cache_record cfg id e.v)
          (settle-Triple P (decrypt_record cfg false e))
          (λ v s h.
            let c : Cached = record { value = v; version = e.v } in
            record {
              eager = h.0.0.eager;
              shows = h.0.0.shows;
              distinct = Distinct-insert dec_text id c s.cache h.0.0.distinct;
              read = λ j.
                  subst (λ z. ReadAt z (f j) (member j ids))
                    (sym (lookup-insert dec_text id j c s.cache))
                    (ReadAt-some (dec_text j id) (lookup dec_text j s.cache) (f j) (member j ids) c
                      e (λ p. ap f p ∙ sym h.0.1) (h.1, refl) (h.0.0.read j));
            })

    pub hydrate_ids-Triple :
        (ids : List Text) → Triple (IsFilling f ids) (hydrate_ids cfg ids) (λ a. IsFilling f [])
    unfolding hydrate_ids
    hydrate_ids-Triple [] = λ s h. h
    hydrate_ids-Triple (id ∷ ids) =
        let get = call (cfg.adapter.get cfg.vault cfg.name id) in
        then-Triple (λ a. IsFilling f []) (get >>= hydrate_found cfg id) (hydrate_ids cfg ids)
          (bind-Triple {Q = λ o s. IsFilling f (id ∷ ids) s × (o ≡ f id)} (λ a. IsFilling f ids) get
            (hydrate_found cfg id) (get-Triple id (id ∷ ids)) (found-Triple id ids))
          (hydrate_ids-Triple ids)

    -- Before anything is read.
    abbrev pub IsCold : Collection S → Type 0
    IsCold s =
        (s.lru ≡ none)
        × (s.cache ≡ [])
        × ((id : Text) → stored cfg l id s.ledger_state.store ≡ f id)

    listed_at :
        (j : Text) (ids : List Text) (c : List (Text × Cached)) (o : Option Envelope)
        → c ≡ []
        → f j ≡ o
        → (o ≡ none) ⊎ (member j ids ≡ true)
        → ReadAt (lookup dec_text j c) (f j) (member j ids)
    unfolding lookup
    listed_at j ids c o e k (inl h) =
        subst (λ z. ReadAt (lookup dec_text j z) (f j) (member j ids)) (sym e)
          (inr (subst (MirrorAt cfg l none) (sym (k ∙ h)) tt))
    listed_at j ids c o e k (inr h) = inl (ap (lookup dec_text j) e, h)

    pub list-Triple :
        ListsUnseen cfg.adapter l
        → ListsAll cfg.adapter l
        → Triple IsCold (call (cfg.adapter.list cfg.vault cfg.name)) (λ ids. IsFilling f ids)
    list-Triple unseen all s h =
        let t = s.ledger_state.store in
        let p = cfg.adapter.list cfg.vault cfg.name t in
        settled-at (λ ids. IsFilling f ids) (with_store p.0 s) p.1
          (λ ids e. record {
            eager = h.0;
            shows = λ j. unseen cfg.vault cfg.name cfg.vault cfg.name j t ∙ h.2 j;
            distinct = subst (Dict.Distinct dec_text) (sym h.1) tt;
            read = λ j.
                listed_at j ids s.cache (stored cfg l j t) h.1 (sym (h.2 j))
                  (all cfg.vault cfg.name j t ids e);
          })

    abbrev pub Hydrated : Unit {0} → Collection S → Type 0
    Hydrated a s = IsMirror cfg l s × ((id : Text) → stored cfg l id s.ledger_state.store ≡ f id)

    pub rebuild-Triple : Triple (IsFilling f []) (rebuild_indexes cfg) Hydrated
    unfolding member
    rebuild-Triple s h = (
      record {
        eager = h.eager;
        is_hydrated = refl;
        agrees = λ j.
            subst (MirrorAt cfg l (lookup dec_text j s.cache)) (sym (h.shows j))
              (elim (h.read j) [ inl e ↦ absurd (ground (arith, e.1)) | inr m ↦ m ]);
        indexed = build-AllCoherent (docs s.cache) s.indexes (docs-Distinct s.cache h.distinct);
      },
      h.shows,
    )
