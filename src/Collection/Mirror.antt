-- ===== src/Collection/Mirror.antt =====
-- The invariant of an eager collection over its store.
use mathlib.Core.Path.{subst}
use noydb.Base.{◌≡◌, sym, refl, true, false, Option, none, some, List, lookup, Text, dec_text, ite}
use noydb.Dict
use noydb.Dict.{insert, lookup-insert, lookup-remove}
use noydb.Store.{Envelope, ok, IsLawful}
use noydb.Indexes.{CollectionIndexes}
use noydb.Indexes.Coherent.{AllCoherent}
use noydb.Collection.{Cached, Config, Collection, docs, decrypt_record}
use noydb.Collection.Held.{stored, Holds}

module _ {S : Type 0} (cfg : Config S) (l : IsLawful cfg.adapter) where
  -- A cached record and the envelope that the store shows.
  abbrev pub MirrorAt : Option Cached → Option Envelope → Type 0
  MirrorAt none none = Unit
  MirrorAt (some c) (some e) = (decrypt_record cfg false e ≡ ok c.value) × (e.v ≡ c.version)
  MirrorAt _ _ = ⊥

  -- The cache has the records that the store shows, decrypted, and the indexes have those of the
  -- cache.
  pub record IsMirror (s : Collection S) : Type 0 where
    pub eager : s.lru ≡ none
    pub is_hydrated : s.hydrated ≡ true
    pub agrees :
        (id : Text) → MirrorAt (lookup dec_text id s.cache) (stored cfg l id s.ledger_state.store)
    pub indexed : AllCoherent (docs s.cache) s.indexes

  -- The state as a set of facts, and back.
  pub mirror-Holds :
      (s : Collection S)
      → IsMirror s
      → Holds cfg l s.cache s.indexes (λ id. stored cfg l id s.ledger_state.store) s
  mirror-Holds s h = record {
    eager = h.eager;
    is_hydrated = h.is_hydrated;
    cache_is = refl;
    indexes_are = refl;
    shows = λ id. refl;
  }

  pub Holds-IsMirror :
      (c : List (Text × Cached)) (x : CollectionIndexes) (f : Text → Option Envelope)
      (s : Collection S)
      → Holds cfg l c x f s
      → ((id : Text) → MirrorAt (lookup dec_text id c) (f id))
      → AllCoherent (docs c) x
      → IsMirror s
  Holds-IsMirror c x f s h m i = record {
    eager = h.eager;
    is_hydrated = h.is_hydrated;
    agrees = λ id.
        subst (λ z. MirrorAt (lookup dec_text id z) (stored cfg l id s.ledger_state.store))
          (sym h.cache_is) (subst (MirrorAt (lookup dec_text id c)) (sym (h.shows id)) (m id));
    indexed =
        subst (λ z. AllCoherent (docs z) s.indexes) (sym h.cache_is)
          (subst (AllCoherent (docs c)) (sym h.indexes_are) i);
  }

  -- One record is written, in the cache and in the store.
  pub MirrorAt-insert :
      (id j : Text) (v : Cached) (e : Envelope) (c : List (Text × Cached)) (o : Option Envelope)
      → MirrorAt (some v) (some e)
      → MirrorAt (lookup dec_text j c) o
      → MirrorAt (lookup dec_text j (insert dec_text id v c)) (ite (dec_text j id) (some e) o)
  MirrorAt-insert id j v e c o here there =
      subst (λ z. MirrorAt z (ite (dec_text j id) (some e) o))
        (sym (lookup-insert dec_text id j v c))
        (elim (dec_text j id)
          as (λ d. MirrorAt (ite d (some v) (lookup dec_text j c)) (ite d (some e) o)) [
            | yes _ ↦ here
            | no _ ↦ there
          ])

  pub MirrorAt-remove :
      (id j : Text) (c : List (Text × Cached)) (o : Option Envelope)
      → MirrorAt (lookup dec_text j c) o
      → MirrorAt (lookup dec_text j (Dict.remove dec_text id c)) (ite (dec_text j id) none o)
  MirrorAt-remove id j c o there =
      subst (λ z. MirrorAt z (ite (dec_text j id) none o)) (sym (lookup-remove dec_text id j c))
        (elim (dec_text j id) as (λ d. MirrorAt (ite d none (lookup dec_text j c)) (ite d none o)) [
          | yes _ ↦ tt
          | no _ ↦ there
        ])
