-- ===== src/Collection/Sound.antt =====
-- What is relied on of the parameters of a collection: what it writes, it reads back.
use noydb.Base.{
  ◌≡◌, ◌≢◌, ◌∙◌, refl, ap, ℕ, true, false, if◌then◌else◌, Option, none, some, List, [], ◌∷◌, lookup,
  Text, dec_text, arith,
}
use noydb.Dict
use noydb.Dict.{insert, lookup-insert, lookup-remove}
use noydb.Json.{Json}
use noydb.Store.{Envelope, ok, thrown, IsLawful}
use noydb.History.{history_collection}
use noydb.Ledger
use noydb.Ledger.{LedgerOptions, ledger_collection, deltas_collection}
use noydb.Collection.{
  syntax, Cached, schema_input, schema_output, Config, RefEnforcer, docs, value_of, validated,
  output, parsed, encrypt_record, encrypt_json_string, decrypt_record, decrypt_json_string,
}
use noydb.Collection.Held.{Triple, Holds}
use noydb.Indexes.{CollectionIndexes}
use noydb.Ledger.Quiet.{ListsUnseen}

pub lookup-docs :
    (id : Text) (c : List (Text × Cached))
    → lookup dec_text id (docs c) ≡ value_of (lookup dec_text id c)
unfolding lookup
lookup-docs id [] = refl
lookup-docs id (e ∷ c) = ground (arith, lookup-docs id c)

pub docs-insert :
    (id : Text) (v : Cached) (c : List (Text × Cached))
    → docs (insert dec_text id v c) ≡ insert dec_text id v.value (docs c)
unfolding insert
docs-insert id v [] = refl
docs-insert id v (e ∷ c) = ground (arith, docs-insert id v c)

pub docs-remove :
    (id : Text) (c : List (Text × Cached))
    → docs (Dict.remove dec_text id c) ≡ Dict.remove dec_text id (docs c)
unfolding Dict.remove
docs-remove id [] = refl
docs-remove id (e ∷ c) = ground (arith, docs-remove id c)

module _ {S : Type 0} (cfg : Config S) (l : IsLawful cfg.adapter) where
  -- What is relied on of the parameters: JSON goes back and forth on what the schema makes, the
  -- cipher on every text, the schema takes what it has made, a list is not seen, and the checks of
  -- references leave the records of this collection as they are, so that no delete cascades into
  -- the collection itself. The collection is not one of those that the hub keeps for itself.
  pub record IsSound : Type 0 where
    pub reads_back :
        (v w : Json)
        → validated schema_input cfg.schema w ≡ ok v
        → cfg.platform.parse (cfg.platform.stringify v) ≡ some v
    pub decrypts :
        (vector json : Text)
        → cfg.platform.decrypt
            (cfg.platform.encrypt vector json).0
            (cfg.platform.encrypt vector json).1
          ≡ some json
    pub accepts :
        (f : Json → Option Json) (v w : Json) → cfg.schema ≡ some f → f v ≡ some w → f w ≡ some w
    pub lists : ListsUnseen cfg.adapter l
    pub no_history : cfg.name ≢ history_collection
    pub no_ledger : cfg.name ≢ ledger_collection
    pub no_deltas : cfg.name ≢ deltas_collection
    pub puts_elsewhere :
        (r : RefEnforcer S) (v : Json) (c : List (Text × Cached)) (x : CollectionIndexes)
        (f : Text → Option Envelope)
        → cfg.ref_enforcer ≡ some r
        → Triple (Holds cfg l c x f) (r.on_put v) (λ a. Holds cfg l c x f)
    pub deletes_elsewhere :
        (r : RefEnforcer S) (id : Text) (c : List (Text × Cached)) (x : CollectionIndexes)
        (f : Text → Option Envelope)
        → cfg.ref_enforcer ≡ some r
        → Triple (Holds cfg l c x f) (r.on_delete id) (λ a. Holds cfg l c x f)

  accepted :
      (v w : Json) (o : Option (Json → Option Json))
      → cfg.schema ≡ o
      → IsSound
      → validated schema_input o w ≡ ok v
      → validated schema_output o v ≡ ok v
  accepted v w none e p h = ap ok (ground (arith, h))
  accepted v w (some f) e p h =
      let made : f w ≡ some v = ground (arith, h) in rw (p.accepts f w v e made) refl

  opened :
      (draws : Ledger.Draw) (json : Text) (n : ℕ)
      → IsSound
      → decrypt_json_string cfg (encrypt_json_string cfg draws json n) ≡ some json
  unfolding decrypt_json_string encrypt_json_string
  opened draw json n p =
      elim cfg.encrypted
        as (λ b.
          (let q : Text × Text = if b then cfg.platform.encrypt draw.vector json else ([], json) in
            if b then cfg.platform.decrypt q.0 q.1 else some q.1)
          ≡ some json) [ true ↦ p.decrypts draw.vector json | false ↦ refl ]

  pub decrypt-encrypt :
      (draw : Ledger.Draw) (v w : Json) (n : ℕ)
      → IsSound
      → validated schema_input cfg.schema w ≡ ok v
      → decrypt_record cfg false (encrypt_record cfg draw v n) ≡ ok v
  unfolding decrypt_record encrypt_record
  decrypt-encrypt draw v w n p h =
      ap (λ o. output cfg false (parsed cfg o)) (opened draw (cfg.platform.stringify v) n p)
      ∙ ap (λ o. output cfg false (elim o [ none ↦ thrown syntax | some u ↦ ok u ]))
          (p.reads_back v w h)
      ∙ accepted v w cfg.schema refl p h
