-- ===== src/Collection/Put.antt =====
-- `put` on a collection that mirrors its store.
use mathlib.Core.Path.{subst}
use noydb.Base.{
  ◌≡◌, ◌∙◌, sym, refl, ap, ℕ, ◌+◌, Option, none, some, List, lookup, Text, dec_text, ite,
}
use noydb.Dict.{insert, lookup-insert}
use noydb.Json.{Json}
use noydb.Store.{Envelope, ok, IsLawful}
use noydb.Sync.{Action}
use noydb.Entry.{EntryOp}
use noydb.Ledger
use noydb.Ledger.{LedgerOptions, ledger_collection, deltas_collection}
use noydb.Indexes
use noydb.Indexes.{CollectionIndexes}
use noydb.Indexes.Coherent.{AllCoherent, upsert-AllCoherent}
use noydb.Collection.{
  ◌>>=◌, ◌>>◌, Cached, schema_input, Config, Collection, Draws, dirty, changed, settle, call, emit,
  docs, version_of, value_of, validated, encrypt_record, encrypt_json_string,
}
use noydb.Collection.Writes
use noydb.Collection.Sound.{IsSound, decrypt-encrypt, lookup-docs, docs-insert}
use noydb.Collection.Held.{
  Settles, Triple, bind-Triple, map-Settles, then-Triple, settle-Triple, stored, Holds, emit-Holds,
  put-Holds,
}
use noydb.Collection.Steps.{
  permission-Triple, translations-Triple, check_put-Triple, previous-Triple, keep_version-Triple,
  append-Triple, remember-Triple, tell-Triple,
}
use noydb.Collection.Mirror.{IsMirror, mirror-Holds, Holds-IsMirror, MirrorAt-insert}

module _ {S : Type 0} (cfg : Config S) (l : IsLawful cfg.adapter) where
  abbrev next_version : Text → List (Text × Cached) → ℕ
  next_version id c = version_of (lookup dec_text id c) + 1

  abbrev cached : Text → Json → List (Text × Cached) → Cached
  cached id v c = record { value = v; version = next_version id c }

  module _ (p : IsSound cfg l) (c : List (Text × Cached)) (x : CollectionIndexes)
      (f : Text → Option Envelope) (draws : Draws) (id : Text) where
    abbrev H : Collection S → Type 0
    H = Holds cfg l c x f

    abbrev sealed : Json → Envelope
    sealed v = encrypt_record cfg draws.for_record v (next_version id c)

    -- What a put of this value leaves.
    abbrev AfterPut : Json → Collection S → Type 0
    AfterPut v =
        Holds cfg l (insert dec_text id (cached id v c) c)
          (Indexes.upsert id v (value_of (lookup dec_text id c)) x)
          (λ j. ite (dec_text j id) (some (sealed v)) (f j))

    finish_put-Triple :
        (v : Json)
        → Triple
            (Holds cfg l c x (λ j. ite (dec_text j id) (some (sealed v)) (f j)))
            (Writes.finish_put cfg draws id v (lookup dec_text id c) (sealed v))
            (λ a. AfterPut v)
    unfolding Writes.finish_put
    finish_put-Triple v =
        let o = lookup dec_text id c in
        let n = next_version id c in
        let g = λ (j : Text). ite (dec_text j id) (some (sealed v)) (f j) in
        let append =
          Writes.append_entry cfg draws cfg.ledger_config EntryOp.put id n (some (sealed v))
            (Writes.delta_of cfg v o) in
        let remember = Writes.remember cfg id (cached id v c) o in
        then-Triple (λ a. AfterPut v) ((append >> remember) >> emit (dirty id Action.put n))
          (settle (cfg.on_dirty id Action.put n) >> emit (changed id Action.put))
          (then-Triple (λ a. AfterPut v) (append >> remember) (emit (dirty id Action.put n))
            (then-Triple (λ a. AfterPut v) append remember
              (append-Triple cfg l p c x g draws cfg.ledger_config EntryOp.put id n
                (some (sealed v)) (Writes.delta_of cfg v o))
              (remember-Triple cfg l p c x g id (cached id v c) o))
            (emit-Holds cfg l (dirty id Action.put n)))
          (tell-Triple cfg l p _ _ _ id Action.put n)

    write-Triple :
        (v : Json) → Triple H (Writes.write cfg draws id v (lookup dec_text id c)) (λ a. AfterPut v)
    unfolding Writes.write
    write-Triple v =
        let o = lookup dec_text id c in
        let put = cfg.adapter.put cfg.vault cfg.name id (sealed v) none in
        then-Triple (λ a. AfterPut v)
          (Writes.keep_version cfg draws id cfg.history_config.enabled o)
          (call put >> Writes.finish_put cfg draws id v o (sealed v))
          (keep_version-Triple cfg l p c x f draws id cfg.history_config.enabled o)
          (then-Triple (λ a. AfterPut v) (call put) (Writes.finish_put cfg draws id v o (sealed v))
            (put-Holds cfg l id (sealed v)) (finish_put-Triple v))

    put_valid-Triple : (v : Json) → Triple H (Writes.put_valid cfg draws id v) (λ a. AfterPut v)
    unfolding Writes.put_valid
    put_valid-Triple v =
        let R : Unit {0} → Collection S → Type 0 = λ a. AfterPut v in
        let found = Writes.previous cfg id >>= Writes.write cfg draws id v in
        then-Triple R (Writes.check_translations cfg cfg.i18n_put_validator v)
          (Writes.check_put cfg cfg.ref_enforcer v >> found)
          (translations-Triple cfg l p c x f cfg.i18n_put_validator v)
          (then-Triple R (Writes.check_put cfg cfg.ref_enforcer v) found
            (check_put-Triple cfg l p c x f cfg.ref_enforcer v refl)
            (bind-Triple {Q = λ o s. H s × (o ≡ lookup dec_text id c)} R (Writes.previous cfg id)
              (Writes.write cfg draws id v) (previous-Triple cfg l p c x f id)
              (λ o s (h : H s × (o ≡ lookup dec_text id c)).
                subst (λ z. Settles R (Writes.write cfg draws id v z s)) (sym h.1)
                  (write-Triple v s h.0))))

    put-Triple :
        (value : Json)
        → Triple H
            (Writes.put cfg draws id value)
            (λ a s. (v : Json) × (validated schema_input cfg.schema value ≡ ok v) × AfterPut v s)
    unfolding Writes.put
    put-Triple value =
        let out = validated schema_input cfg.schema value in
        let R : Unit {0} → Collection S → Type 0 =
          λ a s. (v : Json) × (out ≡ ok v) × AfterPut v s in
        then-Triple R (Writes.check_permission cfg) (settle out >>= Writes.put_valid cfg draws id)
          (permission-Triple cfg l p c x f)
          (bind-Triple {Q = λ v s. H s × (out ≡ ok v)} R (settle out)
            (Writes.put_valid cfg draws id) (settle-Triple H out)
            (λ v s (h : H s × (out ≡ ok v)).
              map-Settles (λ a. AfterPut v) R (Writes.put_valid cfg draws id v s)
                (λ a t k. (v, h.1, k)) (put_valid-Triple v s h.0)))

  put_indexed :
      (id : Text) (v : Json) (c : List (Text × Cached)) (x : CollectionIndexes)
      → AllCoherent (docs c) x
      → AllCoherent
          (docs (insert dec_text id (cached id v c) c))
          (Indexes.upsert id v (value_of (lookup dec_text id c)) x)
  put_indexed id v c x h =
      subst (λ z. AllCoherent z (Indexes.upsert id v (value_of (lookup dec_text id c)) x))
        (sym (docs-insert id (cached id v c) c))
        (subst (λ z. AllCoherent (insert dec_text id v (docs c)) (Indexes.upsert id v z x))
          (lookup-docs id c) (upsert-AllCoherent id v (docs c) x h).0)

  sealed_version : (draw : Ledger.Draw) (v : Json) (n : ℕ) → (encrypt_record cfg draw v n).v ≡ n
  unfolding encrypt_record encrypt_json_string
  sealed_version draw v n = refl

  -- What a put that settles has done to the cache.
  abbrev pub PutDone : Text → Json → Collection S → Collection S → Type 0
  PutDone id value s t =
      (v : Json) × (validated schema_input cfg.schema value ≡ ok v)
      × ((j : Text)
          → lookup dec_text j t.cache
            ≡ ite (dec_text j id) (some (cached id v s.cache)) (lookup dec_text j s.cache))

  -- On a collection that mirrors its store, a put that settles leaves a collection that mirrors its
  -- store, with its indexes; the record is cached as the schema made it, with the next version, and
  -- the other records are as they were.
  pub put-IsMirror :
      IsSound cfg l
      → (draws : Draws) (id : Text) (value : Json) (s : Collection S) → IsMirror cfg l s
      → Settles (λ a t. IsMirror cfg l t × PutDone id value s t) (Writes.put cfg draws id value s)
  put-IsMirror p draws id value s m =
      let f = λ (j : Text). stored cfg l j s.ledger_state.store in
      let Q : Unit {0} → Collection S → Type 0 = λ a t.
        (v : Json) × (validated schema_input cfg.schema value ≡ ok v)
        × AfterPut p s.cache s.indexes f draws id v t in
      map-Settles Q (λ a t. IsMirror cfg l t × PutDone id value s t)
        (Writes.put cfg draws id value s)
        (λ a t (v, e, h). (
          Holds-IsMirror cfg l _ _ _ t h
              (λ j.
                MirrorAt-insert cfg l id j (cached id v s.cache)
                  (encrypt_record cfg draws.for_record v (next_version id s.cache)) s.cache (f j)
                  (
                    decrypt-encrypt cfg l draws.for_record v value (next_version id s.cache) p e,
                    sealed_version draws.for_record v (next_version id s.cache),
                  )
                  (m.agrees j))
              (put_indexed id v s.cache s.indexes m.indexed),
          (
            v,
            e,
            λ j.
                ap (lookup dec_text j) h.cache_is
                ∙ lookup-insert dec_text id j (cached id v s.cache) s.cache,
          ),
        ))
        (put-Triple p s.cache s.indexes f draws id value s (mirror-Holds cfg l s m))
