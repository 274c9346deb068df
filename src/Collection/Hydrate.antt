-- ===== src/Collection/Hydrate.antt =====
-- Hydration, the first call of an eager collection.
use mathlib.Core.Path.{subst}
use noydb.Base.{◌≡◌, sym, refl, false, Option, none, some, List, [], ◌∷◌, Text}
use noydb.Store.{Envelope, ok, IsLawful}
use noydb.Collection.{
  ◌>>=◌, Config, Collection, settle, call, decrypt_record, cache_record, hydrate_found, hydrate_ids,
  rebuild_indexes, hydrate_if, ensure_hydrated,
}
use noydb.Collection.Held.{Settles, Settles-ok, bind-Triple, then-Triple, settle-Triple, stored}
use noydb.Ledger.Quiet.{ListsUnseen}
use noydb.Store.Answers.{IsOk, IsOk-unit, Answers}
use noydb.Collection.Running.{Runs, bind-Runs, then-Runs, call-Always}
use noydb.Collection.Mirror.{IsMirror}
use noydb.Collection.Filling.{
  ListsAll, IsFilling, Hydrated, get-Triple, found-Triple, hydrate_ids-Triple, rebuild-Triple,
  list-Triple,
}

module _ {S : Type 0} (cfg : Config S) (l : IsLawful cfg.adapter) where
  -- The state after a call that settles.
  ensure_hydrated-IsMirror :
      ListsUnseen cfg.adapter l
      → ListsAll cfg.adapter l
      → (s : Collection S) → s.lru ≡ none
      → s.hydrated ≡ false
      → s.cache ≡ []
      → Settles
          (Hydrated cfg l (λ id. stored cfg l id s.ledger_state.store))
          (ensure_hydrated cfg s)
  unfolding ensure_hydrated
  ensure_hydrated-IsMirror unseen all s eager cold empty =
      let f = λ (id : Text). stored cfg l id s.ledger_state.store in
      let list = call (cfg.adapter.list cfg.vault cfg.name) in
      subst (λ b. Settles (Hydrated cfg l f) (hydrate_if cfg b s)) (sym cold)
        (then-Triple (Hydrated cfg l f) (list >>= hydrate_ids cfg) (rebuild_indexes cfg)
          (bind-Triple {Q = λ ids. IsFilling cfg l f ids} (λ a. IsFilling cfg l f []) list
            (hydrate_ids cfg) (list-Triple cfg l f unseen all) (hydrate_ids-Triple cfg l f))
          (rebuild-Triple cfg l f) s (eager, empty, λ id. refl))

  module _ (f : Text → Option Envelope) (answers : Answers cfg.adapter)
      (readable : (id : Text) (e : Envelope)
        → f id ≡ some e
        → IsOk (decrypt_record cfg false e)) where
    found-Runs :
        (id : Text) (ids : List Text) (o : Option Envelope)
        → Runs (λ s. IsFilling cfg l f (id ∷ ids) s × (o ≡ f id)) (hydrate_found cfg id o)
    found-Runs id ids none = λ s h. tt
    found-Runs id ids (some e) =
        let P : Collection S → Type 0 = λ s. IsFilling cfg l f (id ∷ ids) s × (some e ≡ f id) in
        bind-Runs (λ v s. P s × (decrypt_record cfg false e ≡ ok v))
          (settle (decrypt_record cfg false e)) (cache_record cfg id e.v)
          (settle-Triple P (decrypt_record cfg false e)) (λ s h. readable id e (sym h.1))
          (λ v s h. tt)

    hydrate_ids-Runs : (ids : List Text) → Runs (IsFilling cfg l f ids) (hydrate_ids cfg ids)
    unfolding hydrate_ids
    hydrate_ids-Runs [] = λ s h. tt
    hydrate_ids-Runs (id ∷ ids) =
        let get = call (cfg.adapter.get cfg.vault cfg.name id) in
        let found : Collection S → Type 0 = IsFilling cfg l f ids in
        then-Runs found (get >>= hydrate_found cfg id) (hydrate_ids cfg ids)
          (bind-Triple {Q = λ o s. IsFilling cfg l f (id ∷ ids) s × (o ≡ f id)} (λ a. found) get
            (hydrate_found cfg id) (get-Triple cfg l f id (id ∷ ids)) (found-Triple cfg l f id ids))
          (bind-Runs (λ o s. IsFilling cfg l f (id ∷ ids) s × (o ≡ f id)) get (hydrate_found cfg id)
            (get-Triple cfg l f id (id ∷ ids))
            (λ s h.
              call-Always (cfg.adapter.get cfg.vault cfg.name id)
                (λ t. Answers.get_answers answers cfg.vault cfg.name id t) s tt)
            (found-Runs id ids))
          (hydrate_ids-Runs ids)

  -- Over a store that answers, whose list has every id at which it shows a record and changes
  -- nothing, and whose records all decrypt and satisfy the schema, the first call of an eager
  -- collection settles without an error and leaves a collection that mirrors its store, with its
  -- indexes; the store shows what it showed.
  pub ensure_hydrated_lem :
      Answers cfg.adapter
      → ListsUnseen cfg.adapter l
      → ListsAll cfg.adapter l
      → (s : Collection S)
      → ((id : Text) (e : Envelope)
          → stored cfg l id s.ledger_state.store ≡ some e
          → IsOk (decrypt_record cfg false e))
      → s.lru ≡ none
      → s.hydrated ≡ false
      → s.cache ≡ []
      → ((ensure_hydrated cfg s).1 ≡ ok tt)
        × IsMirror cfg l (ensure_hydrated cfg s).0
        × ((id : Text)
            → stored cfg l id (ensure_hydrated cfg s).0.ledger_state.store
              ≡ stored cfg l id s.ledger_state.store)
  unfolding ensure_hydrated
  ensure_hydrated_lem answers unseen all s readable eager cold empty =
      let f = λ (id : Text). stored cfg l id s.ledger_state.store in
      let list = call (cfg.adapter.list cfg.vault cfg.name) in
      let runs : IsOk (hydrate_if cfg false s).1 =
        then-Runs (IsFilling cfg l f []) (list >>= hydrate_ids cfg) (rebuild_indexes cfg)
          (bind-Triple {Q = λ ids. IsFilling cfg l f ids} (λ a. IsFilling cfg l f []) list
            (hydrate_ids cfg) (list-Triple cfg l f unseen all) (hydrate_ids-Triple cfg l f))
          (bind-Runs (λ ids. IsFilling cfg l f ids) list (hydrate_ids cfg)
            (list-Triple cfg l f unseen all)
            (λ s h.
              call-Always (cfg.adapter.list cfg.vault cfg.name)
                (λ t. Answers.list_answers answers cfg.vault cfg.name t) s tt)
            (hydrate_ids-Runs f answers readable))
          (λ s h. tt) s (eager, empty, λ id. refl) in
      let done =
        IsOk-unit (ensure_hydrated cfg s).1
          (subst (λ b. IsOk (hydrate_if cfg b s).1) (sym cold) runs) in
      let kept =
        Settles-ok (Hydrated cfg l f) (ensure_hydrated cfg s) tt done
          (ensure_hydrated-IsMirror unseen all s eager cold empty) in
      (done, kept.0, kept.1)
