-- ===== src/Collection/Willing.antt =====
-- `put` and `delete` where nothing that they call refuses.
use mathlib.Core.Path.{subst}
use noydb.Base.{
  ◌≢◌, Bool, true, false, ◌≡◌, ◌∙◌, sym, refl, ap, ℕ, ◌+◌, Option, none, some, List, lookup, Text,
  dec_text,
}
use noydb.Json.{Json}
use noydb.Store.{Envelope, Outcome, ok, thrown, IsLawful}
use noydb.Sync.{Action}
use noydb.Entry.{EntryOp}
use noydb.Indexes.{CollectionIndexes}
use noydb.Collection.{
  set_lru, ◌>>=◌, ◌>>◌, Cached, schema_input, CollectionError, Step, Config, Collection, Draws,
  dirty, changed, settle, call, emit, version_of, validated, encrypt_record, next, hydrate_if,
  ensure_hydrated,
}
use noydb.Collection.Writes
use noydb.Collection.Sound.{IsSound}
use noydb.Collection.Held.{settle-Triple, stored, Holds, Settles, Triple, Settles-ok}
use noydb.Collection.Steps.{
  permission-Triple, translations-Triple, check_put-Triple, check_delete-Triple,
}
use noydb.Collection.Mirror.{IsMirror, mirror-Holds}
use noydb.Lru.{Lru}
use noydb.Store.Answers.{IsOk, IsOk-unit, Answers}
use noydb.Ledger.{ledger_collection}
use noydb.Collection.Unseen.{put_other, delete_other}
use noydb.Collection.Running.{
  Runs, Always, bind-Runs, then-Runs, then-Always, first-Runs, all-Settles, call-Always,
}
use noydb.Collection.Settled.{
  IsWilling, IsReady, call-Ready, permission-Runs, permission-Ready, translations-Runs,
  translations-Ready, check_put-Ready, check_delete-Ready, keep_version-Runs, keep_version-Ready,
  keep_deleted-Runs, keep_deleted-Ready, append-Runs,
}
use noydb.Collection.Put.{put-IsMirror, PutDone}
use noydb.Collection.Delete.{delete-IsMirror, DeleteDone}

module _ {S : Type 0} (cfg : Config S) (l : IsLawful cfg.adapter) (w : IsWilling cfg l)
    (p : IsSound cfg l) where
  marks-Runs :
      (id : Text) (a : Action) (n : ℕ)
      → Runs {S = S} Always (settle (cfg.on_dirty id a n) >> emit (changed id a))
  marks-Runs id a n =
      then-Always (settle (cfg.on_dirty id a n)) (emit (changed id a)) (λ s h. w.marks id a n)
        (λ s h. tt)

  remember-Runs :
      (id : Text) (v : Cached) (o : Option Cached) → Runs Always (Writes.remember cfg id v o)
  unfolding Writes.remember
  remember-Runs id v o s h = in_lru s.lru s
    where
      in_lru :
          (q : Option (Lru Text Cached)) (s : Collection S)
          → IsOk (Writes.remember_in cfg q id v o s).1
      in_lru none s = tt
      in_lru (some q) s = elim s.lru as (λ r. IsOk (set_lru cfg id v r s).1) [
        | none ↦ tt
        | some y ↦ tt
      ]

  forget-Runs : (id : Text) (o : Option Cached) → Runs Always (Writes.forget cfg id o)
  unfolding Writes.forget
  forget-Runs id o s h = elim s.lru as (λ q. IsOk (Writes.forget_in cfg q id o s).1) [
    | none ↦ tt
    | some y ↦ tt
  ]

  -- What follows the append of an entry to the ledger.
  finished-Runs :
      (append keep : Step S Unit) (id : Text) (a : Action) (n : ℕ)
      → Runs (IsReady cfg l) append
      → Runs Always keep
      → Runs (IsReady cfg l) (
          ((append >> keep) >> emit (dirty id a n))
          >> (settle (cfg.on_dirty id a n) >> emit (changed id a)))
  finished-Runs append keep id a n r k =
      first-Runs (IsReady cfg l) ((append >> keep) >> emit (dirty id a n))
        (settle (cfg.on_dirty id a n) >> emit (changed id a))
        (first-Runs (IsReady cfg l) (append >> keep) (emit (dirty id a n))
          (first-Runs (IsReady cfg l) append keep r k) (λ s h. tt))
        (marks-Runs id a n)

  finish_put-Runs :
      (draws : Draws) (id : Text) (v : Json) (o : Option Cached) (e : Envelope)
      → Runs (IsReady cfg l) (Writes.finish_put cfg draws id v o e)
  unfolding Writes.finish_put
  finish_put-Runs draws id v o e =
      let n = version_of o + 1 in
      finished-Runs
        (Writes.append_entry cfg draws cfg.ledger_config EntryOp.put id n (some e)
          (Writes.delta_of cfg v o))
        (Writes.remember cfg id (record { value = v; version = n }) o) id Action.put n
        (append-Runs cfg l w p.lists draws cfg.ledger_config EntryOp.put id n (some e)
          (Writes.delta_of cfg v o) refl)
        (remember-Runs id _ o)

  ledger_apart : ledger_collection ≢ cfg.name
  ledger_apart e = p.no_ledger (sym e)

  write-Runs :
      (draws : Draws) (id : Text) (v : Json) (o : Option Cached)
      → Runs (IsReady cfg l) (Writes.write cfg draws id v o)
  unfolding Writes.write
  write-Runs draws id v o =
      let e = encrypt_record cfg draws.for_record v (version_of o + 1) in
      let put = cfg.adapter.put cfg.vault cfg.name id e none in
      then-Runs (IsReady cfg l) (Writes.keep_version cfg draws id cfg.history_config.enabled o)
        (call put >> Writes.finish_put cfg draws id v o e)
        (keep_version-Ready cfg l w p.lists draws id cfg.history_config.enabled o)
        (λ s h. keep_version-Runs cfg l w p.lists draws id cfg.history_config.enabled o s tt)
        (then-Runs (IsReady cfg l) (call put) (Writes.finish_put cfg draws id v o e)
          (call-Ready cfg l put (λ x key t.
            put_other cfg.adapter l x ledger_collection key cfg.vault cfg.name id e none t
              ledger_apart))
          (λ s h.
            call-Always put (λ t. Answers.put_answers w.answers cfg.vault cfg.name id e t) s tt)
          (finish_put-Runs draws id v o e))

  finish_delete-Runs :
      (draws : Draws) (id : Text) (o : Option Cached) (e : Option Envelope)
      → Runs (IsReady cfg l) (Writes.finish_delete cfg draws id o e)
  unfolding Writes.finish_delete
  finish_delete-Runs draws id o e =
      finished-Runs
        (Writes.append_entry cfg draws cfg.ledger_config EntryOp.delete id (version_of o) e none)
        (Writes.forget cfg id o) id Action.delete (version_of o)
        (append-Runs cfg l w p.lists draws cfg.ledger_config EntryOp.delete id (version_of o) e none
          refl)
        (forget-Runs id o)

  erase-Runs :
      (draws : Draws) (id : Text) (o : Option Cached)
      → Runs (IsReady cfg l) (Writes.erase cfg draws id o)
  unfolding Writes.erase
  erase-Runs draws id o =
      let read = cfg.adapter.get cfg.vault cfg.name id in
      let gone = cfg.adapter.delete cfg.vault cfg.name id in
      then-Runs (IsReady cfg l) (Writes.keep_deleted cfg draws id cfg.history_config.enabled o)
        (call read >>= Writes.delete_stored cfg draws id o)
        (keep_deleted-Ready cfg l w p.lists draws id cfg.history_config.enabled o)
        (λ s h. keep_deleted-Runs cfg l w p.lists draws id cfg.history_config.enabled o s tt)
        (bind-Runs (λ a. IsReady cfg l) (call read) (Writes.delete_stored cfg draws id o)
          (call-Ready cfg l read
            (λ x key t. IsLawful.get_view l cfg.vault cfg.name id x ledger_collection key t))
          (λ s h.
            call-Always read (λ t. Answers.get_answers w.answers cfg.vault cfg.name id t) s tt)
          (λ e.
            then-Runs (IsReady cfg l) (call gone) (Writes.finish_delete cfg draws id o e)
              (call-Ready cfg l gone (λ x key t.
                delete_other cfg.adapter l x ledger_collection key cfg.vault cfg.name id t
                  ledger_apart))
              (λ s h.
                call-Always gone (λ t. Answers.delete_answers w.answers cfg.vault cfg.name id t) s
                  tt)
              (finish_delete-Runs draws id o e)))

  -- The record before: it is in the map of an eager collection.
  previous_eager :
      (id : Text) (s : Collection S)
      → s.lru ≡ none
      → s.hydrated ≡ true
      → (Writes.previous cfg id s ≡ (s, ok (lookup dec_text id s.cache)))
        × (Writes.deleted cfg id s ≡ (s, ok (lookup dec_text id s.cache)))
  unfolding Writes.previous Writes.deleted ensure_hydrated
  previous_eager id s eager hydrated = (
    ap (λ o. Writes.previous_in cfg id o s) eager
        ∙ ap (λ b. next (λ u t. (t, ok (lookup dec_text id t.cache))) (hydrate_if cfg b s))
            hydrated,
    ap (λ o. Writes.deleted_in cfg cfg.history_config.enabled id o s) eager
        ∙ in_map cfg.history_config.enabled,
  )
    where
      in_map : (b : Bool) → Writes.deleted_in cfg b id none s ≡ (s, ok (lookup dec_text id s.cache))
      in_map true = refl
      in_map false = refl

  both-Settles :
      {A : Type 0} (P Q : A → Collection S → Type 0) (r : Collection S × Outcome CollectionError A)
      → Settles P r
      → Settles Q r
      → Settles (λ a s. P a s × Q a s) r
  both-Settles P Q (s, ok a) h k = (h, k)
  both-Settles P Q (s, thrown e) h k = tt

  module _ (c : List (Text × Cached)) (x : CollectionIndexes) (f : Text → Option Envelope)
      (draws : Draws) (id : Text) where
    -- The facts about the collection, and a ledger that can be read.
    abbrev H : Collection S → Type 0
    H s = Holds cfg l c x f s × IsReady cfg l s

    put_valid-Runs : (v : Json) → Runs H (Writes.put_valid cfg draws id v)
    unfolding Writes.put_valid
    put_valid-Runs v =
        let found = Writes.previous cfg id >>= Writes.write cfg draws id v in
        let translated = Writes.check_translations cfg cfg.i18n_put_validator v in
        let checked = Writes.check_put cfg cfg.ref_enforcer v in
        then-Runs H translated (checked >> found)
          (λ s h.
            both-Settles (λ a. Holds cfg l c x f) (λ a. IsReady cfg l) (translated s)
              (translations-Triple cfg l p c x f cfg.i18n_put_validator v s h.0)
              (translations-Ready cfg l w p.lists cfg.i18n_put_validator v s h.1))
          (λ s h. translations-Runs cfg l w p.lists cfg.i18n_put_validator v refl s tt)
          (then-Runs H checked found
            (λ s h.
              both-Settles (λ a. Holds cfg l c x f) (λ a. IsReady cfg l) (checked s)
                (check_put-Triple cfg l p c x f cfg.ref_enforcer v refl s h.0)
                (all-Settles (IsReady cfg l) (checked s)
                  (check_put-Ready cfg l w p.lists cfg.ref_enforcer v refl s h.1).1))
            (λ s h. (check_put-Ready cfg l w p.lists cfg.ref_enforcer v refl s h.1).0)
            (λ s h.
              subst (λ z. IsOk (next (Writes.write cfg draws id v) z).1)
                (sym (previous_eager id s h.0.eager h.0.is_hydrated).0)
                (write-Runs draws id v (lookup dec_text id s.cache) s h.1)))

    abbrev permitted : Step S Unit
    permitted = Writes.check_permission cfg

    permitted-H : Triple H permitted (λ a. H)
    permitted-H s h =
        both-Settles (λ a. Holds cfg l c x f) (λ a. IsReady cfg l) (permitted s)
          (permission-Triple cfg l p c x f s h.0) (permission-Ready cfg l w p.lists s h.1)

    put-Runs :
        (value v : Json)
        → validated schema_input cfg.schema value ≡ ok v
        → Runs H (Writes.put cfg draws id value)
    unfolding Writes.put
    put-Runs value v e =
        let out = validated schema_input cfg.schema value in
        then-Runs H permitted (settle out >>= Writes.put_valid cfg draws id) permitted-H
          (λ s h. permission-Runs cfg l w p.lists s tt)
          (bind-Runs (λ u s. H s × (out ≡ ok u)) (settle out) (Writes.put_valid cfg draws id)
            (settle-Triple H out) (λ s h. subst IsOk (sym e) tt) (λ u s h. put_valid-Runs u s h.0))

    delete-Runs : Runs H (Writes.delete cfg draws id)
    unfolding Writes.delete
    delete-Runs =
        let found = Writes.deleted cfg id >>= Writes.erase cfg draws id in
        let checked = Writes.check_delete cfg cfg.ref_enforcer id in
        then-Runs H permitted (checked >> found) permitted-H
          (λ s h. permission-Runs cfg l w p.lists s tt)
          (then-Runs H checked found
            (λ s h.
              both-Settles (λ a. Holds cfg l c x f) (λ a. IsReady cfg l) (checked s)
                (check_delete-Triple cfg l p c x f cfg.ref_enforcer id refl s h.0)
                (all-Settles (IsReady cfg l) (checked s)
                  (check_delete-Ready cfg l w p.lists cfg.ref_enforcer id refl s h.1).1))
            (λ s h. (check_delete-Ready cfg l w p.lists cfg.ref_enforcer id refl s h.1).0)
            (λ s h.
              subst (λ z. IsOk (next (Writes.erase cfg draws id) z).1)
                (sym (previous_eager id s h.0.eager h.0.is_hydrated).1)
                (erase-Runs draws id (lookup dec_text id s.cache) s h.1)))

  -- On a collection that mirrors its store, with a ledger whose entries can be read, if there is
  -- one: where the store answers and nothing that is called refuses, and the parameters are sound
  -- (JSON and the cipher give back what they took, the schema takes what it has made, the checks of
  -- references leave the records of this collection as they are), the put of a value that the
  -- schema takes settles without an error, and so does a delete; each leaves a collection that
  -- mirrors its store, with the record put, or gone.
  pub writes_settle :
      (draws : Draws) (id : Text) (s : Collection S)
      → IsMirror cfg l s
      → IsReady cfg l s
      → ((value v : Json)
          → validated schema_input cfg.schema value ≡ ok v
          → ((Writes.put cfg draws id value s).1 ≡ ok tt)
            × IsMirror cfg l (Writes.put cfg draws id value s).0
            × PutDone cfg l id value s (Writes.put cfg draws id value s).0)
        × ((Writes.delete cfg draws id s).1 ≡ ok tt)
        × IsMirror cfg l (Writes.delete cfg draws id s).0
        × DeleteDone cfg l id s (Writes.delete cfg draws id s).0
  writes_settle draws id s m ready =
      let f = λ (j : Text). stored cfg l j s.ledger_state.store in
      let h = mirror-Holds cfg l s m in
      let gone =
        IsOk-unit (Writes.delete cfg draws id s).1
          (delete-Runs s.cache s.indexes f draws id s (h, ready)) in
      let left =
        Settles-ok (λ a t. IsMirror cfg l t × DeleteDone cfg l id s t)
          (Writes.delete cfg draws id s) tt gone (delete-IsMirror cfg l p draws id s m) in
      (
        λ value v e.
            let done =
              IsOk-unit (Writes.put cfg draws id value s).1
                (put-Runs s.cache s.indexes f draws id value v e s (h, ready)) in
            let kept =
              Settles-ok (λ a t. IsMirror cfg l t × PutDone cfg l id value s t)
                (Writes.put cfg draws id value s) tt done
                (put-IsMirror cfg l p draws id value s m) in
            (done, kept.0, kept.1),
        gone,
        left.0,
        left.1,
      )
