-- ===== src/Collection/Delete.antt =====
-- `delete` on a collection that mirrors its store.
use mathlib.Core.Path.{subst}
use noydb.Base.{◌≡◌, ◌∙◌, sym, refl, ap, Option, none, some, List, lookup, Text, dec_text, ite}
use noydb.Dict
use noydb.Dict.{insert, lookup-insert, lookup-remove, remove_absent}
use noydb.Store.{Envelope, IsLawful}
use noydb.Sync.{Action}
use noydb.Entry.{EntryOp}
use noydb.Indexes
use noydb.Indexes.{CollectionIndexes}
use noydb.Indexes.Coherent.{AllCoherent, upsert-AllCoherent}
use noydb.Collection.{
  ◌>>=◌, ◌>>◌, Cached, Config, Collection, Draws, dirty, changed, settle, call, emit, docs,
  version_of, value_of,
}
use noydb.Collection.Writes
use noydb.Collection.Sound.{IsSound, lookup-docs, docs-remove}
use noydb.Collection.Held.{
  Settles, Triple, bind-Triple, map-Settles, then-Triple, stored, Holds, call-Holds, emit-Holds,
  delete-Holds,
}
use noydb.Collection.Steps.{
  permission-Triple, check_delete-Triple, deleted-Triple, keep_deleted-Triple, append-Triple,
  forget-Triple, tell-Triple,
}
use noydb.Collection.Mirror.{IsMirror, mirror-Holds, Holds-IsMirror, MirrorAt-remove}

module _ {S : Type 0} (cfg : Config S) (l : IsLawful cfg.adapter) where
  module _ (p : IsSound cfg l) (c : List (Text × Cached)) (x : CollectionIndexes)
      (f : Text → Option Envelope) (draws : Draws) (id : Text) where
    abbrev H : Collection S → Type 0
    H = Holds cfg l c x f

    abbrev AfterDelete : Unit {0} → Collection S → Type 0
    AfterDelete a =
        Holds cfg l (Dict.remove dec_text id c) (Writes.drop_index cfg id (lookup dec_text id c) x)
          (λ j. ite (dec_text j id) none (f j))

    finish_delete-Triple :
        (e : Option Envelope)
        → Triple
            (Holds cfg l c x (λ j. ite (dec_text j id) none (f j)))
            (Writes.finish_delete cfg draws id (lookup dec_text id c) e)
            AfterDelete
    unfolding Writes.finish_delete
    finish_delete-Triple e =
        let o = lookup dec_text id c in
        let n = version_of o in
        let g = λ (j : Text). ite (dec_text j id) none (f j) in
        let append = Writes.append_entry cfg draws cfg.ledger_config EntryOp.delete id n e none in
        let forget = Writes.forget cfg id o in
        then-Triple AfterDelete ((append >> forget) >> emit (dirty id Action.delete n))
          (settle (cfg.on_dirty id Action.delete n) >> emit (changed id Action.delete))
          (then-Triple AfterDelete (append >> forget) (emit (dirty id Action.delete n))
            (then-Triple AfterDelete append forget
              (append-Triple cfg l p c x g draws cfg.ledger_config EntryOp.delete id n e none)
              (forget-Triple cfg l p c x g id o))
            (emit-Holds cfg l (dirty id Action.delete n)))
          (tell-Triple cfg l p _ _ _ id Action.delete n)

    erase-Triple : Triple H (Writes.erase cfg draws id (lookup dec_text id c)) AfterDelete
    unfolding Writes.erase
    erase-Triple =
        let o = lookup dec_text id c in
        let read = cfg.adapter.get cfg.vault cfg.name id in
        then-Triple AfterDelete (Writes.keep_deleted cfg draws id cfg.history_config.enabled o)
          (call read >>= Writes.delete_stored cfg draws id o)
          (keep_deleted-Triple cfg l p c x f draws id cfg.history_config.enabled o)
          (bind-Triple AfterDelete (call read) (Writes.delete_stored cfg draws id o)
            (call-Holds cfg l read
              (λ j t. IsLawful.get_view l cfg.vault cfg.name id cfg.vault cfg.name j t))
            (λ e.
              then-Triple AfterDelete (call (cfg.adapter.delete cfg.vault cfg.name id))
                (Writes.finish_delete cfg draws id o e) (delete-Holds cfg l id)
                (finish_delete-Triple e)))

    delete-Triple : Triple H (Writes.delete cfg draws id) AfterDelete
    unfolding Writes.delete
    delete-Triple =
        let found = Writes.deleted cfg id >>= Writes.erase cfg draws id in
        then-Triple AfterDelete (Writes.check_permission cfg)
          (Writes.check_delete cfg cfg.ref_enforcer id >> found) (permission-Triple cfg l p c x f)
          (then-Triple AfterDelete (Writes.check_delete cfg cfg.ref_enforcer id) found
            (check_delete-Triple cfg l p c x f cfg.ref_enforcer id refl)
            (bind-Triple {Q = λ o s. H s × (o ≡ lookup dec_text id c)} AfterDelete
              (Writes.deleted cfg id) (Writes.erase cfg draws id) (deleted-Triple cfg l p c x f id)
              (λ o s (h : H s × (o ≡ lookup dec_text id c)).
                subst (λ z. Settles AfterDelete (Writes.erase cfg draws id z s)) (sym h.1)
                  (erase-Triple s h.0))))

  delete_indexed :
      (id : Text) (c : List (Text × Cached)) (x : CollectionIndexes)
      → AllCoherent (docs c) x
      → AllCoherent
          (docs (Dict.remove dec_text id c))
          (Writes.drop_index cfg id (lookup dec_text id c) x)
  delete_indexed id c x h =
      elim (lookup dec_text id c)
          as (λ o.
            lookup dec_text id c ≡ o
            → AllCoherent (docs (Dict.remove dec_text id c)) (Writes.drop_index cfg id o x)) [
              | none ↦
                  λ e. subst (λ z. AllCoherent (docs z) x) (sym (remove_absent dec_text id c e)) h
              | some v ↦ λ e.
                  subst (λ z. AllCoherent z (Indexes.remove id v.value x)) (sym (docs-remove id c))
                    ((upsert-AllCoherent id v.value (docs c) x h).1 v.value
                      (lookup-docs id c ∙ ap value_of e))
            ]
        refl

  -- What a delete that settles has done to the cache.
  abbrev pub DeleteDone : Text → Collection S → Collection S → Type 0
  DeleteDone id s t =
      (j : Text) → lookup dec_text j t.cache ≡ ite (dec_text j id) none (lookup dec_text j s.cache)

  -- On a collection that mirrors its store, a delete that settles leaves a collection that mirrors
  -- its store, with its indexes; the record is gone, and the other records are as they were.
  pub delete-IsMirror :
      IsSound cfg l
      → (draws : Draws) (id : Text) (s : Collection S) → IsMirror cfg l s
      → Settles (λ a t. IsMirror cfg l t × DeleteDone id s t) (Writes.delete cfg draws id s)
  delete-IsMirror p draws id s m =
      let f = λ (j : Text). stored cfg l j s.ledger_state.store in
      map-Settles (AfterDelete p s.cache s.indexes f draws id)
        (λ a t. IsMirror cfg l t × DeleteDone id s t) (Writes.delete cfg draws id s)
        (λ a t h. (
          Holds-IsMirror cfg l _ _ _ t h
              (λ j. MirrorAt-remove cfg l id j s.cache (f j) (m.agrees j))
              (delete_indexed id s.cache s.indexes m.indexed),
          λ j. ap (lookup dec_text j) h.cache_is ∙ lookup-remove dec_text id j s.cache,
        ))
        (delete-Triple p s.cache s.indexes f draws id s (mirror-Holds cfg l s m))
