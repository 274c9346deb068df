-- ===== src/Collection.antt =====
-- packages/hub/src/collection.ts: `Collection<T>`, a collection of decrypted records over a store,
-- with its cache, its indexes, the history of its records and the ledger of the vault. The schema,
-- the checks of references and translations, the cipher and JSON are parameters.
pub mod Writes
pub mod Versions
pub mod Held
pub mod Unseen
pub mod Sound
pub mod Steps
pub mod Mirror
pub mod Put
pub mod Delete
pub mod Running
pub mod Settled
pub mod Willing
pub mod RoundTrip
pub mod Filling
pub mod Hydrate
mod Tests
use noydb.Base.{
  ℕ, zero, ◌+◌, ◌==◌, if◌then◌else◌, Bool, true, false, Option, none, some, is_some, List, [], ◌∷◌,
  ◌++◌, length, lookup, map, Text, dec_text,
}
use noydb.Dict
use noydb.Dict.{insert}
use noydb.Store.{Envelope, Records, StoreError, Outcome, ok, thrown, Method, NoydbStore}
use noydb.Json.{Json}
use noydb.Lru
use noydb.Lru.{Lru, LruStats}
use noydb.Sync.{Action}
use noydb.History.{
  HistoryOptions, PruneOptions, save_history, get_history, get_version_envelope, prune_history,
  clear_history,
}
use noydb.Patch.{compute_patch}
use noydb.Entry
use noydb.Entry.{envelope_payload_hash}
use noydb.Ledger
use noydb.Ledger.{LedgerError, LedgerOptions, LedgerState, AppendInput, Draw}
use noydb.Indexes
use noydb.Indexes.{CollectionIndexes}
use noydb.Keyring.{UnlockedKeyring, has_write_permission}

-- A record with its version, as the caches hold it.
pub record Cached : Type 0 where
  pub value : Json
  pub version : ℕ

pub data CollectionError : Type 0 where
  read_only schema_input schema_output missing_translation decryption syntax : CollectionError
  not_in_lazy_mode : CollectionError
  reference : Text → CollectionError
  version_not_found : ℕ → CollectionError
  store : StoreError → CollectionError
  ledger : LedgerError → CollectionError

-- The calls of the emitter, and of `onDirty`.
pub data Event : Type 0 where
  history_save : Text → ℕ → Event
  history_prune : Option Text → ℕ → Event
  dirty : Text → Action → ℕ → Event
  changed : Text → Action → Event

-- `enabled` is false where the source has it so; a limit of 0 is none.
pub record HistoryConfig : Type 0 where
  pub enabled : Bool
  pub max_versions : Option ℕ

-- `JSON.stringify` and `JSON.parse`, the cipher with the key of the collection, whose first argument
-- is the random vector that it draws, and the padded text of a version.
pub record Platform : Type 0 where
  pub stringify : Json → Text
  pub parse : Text → Option Json
  pub encrypt : Text → Text → Text × Text
  pub decrypt : Text → Text → Option Text
  pub padded : ℕ → Text

-- The store stands in the state of the ledger. A lazy collection has an `lru`.
pub record Collection (S : Type 0) : Type 0 where
  pub ledger_state : LedgerState S
  pub cache : List (Text × Cached)
  pub hydrated : Bool
  pub lru : Option (Lru Text Cached)
  pub indexes : CollectionIndexes
  pub events : List Event

-- What a method does: it changes the collection, and settles.
abbrev pub Step : Type 0 → Type 0 → Type 0
Step S A = Collection S → Collection S × Outcome CollectionError A

-- What checks the references: the vault, which reads and deletes records of its collections, this
-- one too, and writes to the ledger that they share.
pub record RefEnforcer (S : Type 0) : Type 0 where
  pub on_put : Json → Step S Unit
  pub on_delete : Text → Step S Unit

-- `schema` answers nothing where it has issues, and `i18n_put_validator` is false where it throws.
pub record Config (S : Type 0) : Type 0 where
  pub adapter : NoydbStore S
  pub vault : Text
  pub name : Text
  pub keyring : UnlockedKeyring
  pub user_id : Text
  pub encrypted : Bool
  pub history_config : HistoryConfig
  pub schema : Option (Json → Option Json)
  pub i18n_put_validator : Option (Json → Bool)
  pub ref_enforcer : Option (RefEnforcer S)
  pub on_dirty : Text → Action → ℕ → Outcome CollectionError Unit
  pub ledger_config : Option (Entry.Platform × LedgerOptions)
  pub platform : Platform

-- The times and the random vectors of the envelopes of one call.
pub record Draws : Type 0 where
  pub for_history : Draw
  pub for_record : Draw
  pub for_delta : Draw
  pub for_entry : Draw

abbrev pub as_error : {A : Type 0} → Outcome StoreError A → Outcome CollectionError A
as_error (ok a) = ok a
as_error (thrown e) = thrown (store e)

abbrev pub as_ledger_error : {A : Type 0} → Outcome LedgerError A → Outcome CollectionError A
as_ledger_error (ok a) = ok a
as_ledger_error (thrown e) = thrown (ledger e)

module _ {S : Type 0} where
  abbrev pub next :
      {A B : Type 0}
      → (A → Step S B)
      → Collection S × Outcome CollectionError A
      → Collection S × Outcome CollectionError B
  next f (s, ok a) = f a s
  next f (s, thrown e) = (s, thrown e)

  infixl 5 ◌>>=◌ ◌>>◌
  abbrev pub ◌>>=◌ : {A B : Type 0} → Step S A → (A → Step S B) → Step S B
  (m >>= f) s = next f (m s)

  abbrev pub ◌>>◌ : {A B : Type 0} → Step S A → Step S B → Step S B
  (m >> k) s = next (λ a. k) (m s)

  abbrev pub return : {A : Type 0} → A → Step S A
  return a s = (s, ok a)

  abbrev pub throw : {A : Type 0} → CollectionError → Step S A
  throw e s = (s, thrown e)

  abbrev pub settle : {A : Type 0} → Outcome CollectionError A → Step S A
  settle out s = (s, out)

  abbrev pub with_store : S → Collection S → Collection S
  with_store t s = record s {
    ledger_state = record { store = t; head_cache = s.ledger_state.head_cache };
  }

  -- A call of the store, and of the ledger.
  abbrev pub call : {A : Type 0} → Method S A → Step S A
  call m s = let (t, out) = m s.ledger_state.store in (with_store t s, as_error out)

  abbrev pub on_ledger : {A : Type 0} → Ledger.Action S A → Step S A
  on_ledger m s =
      let (l, out) = m s.ledger_state in (record s { ledger_state = l }, as_ledger_error out)

  abbrev pub emit : Event → Step S Unit
  emit e s = (record s { events = s.events ++ e ∷ [] }, ok tt)

abbrev pub with_lru : {S : Type 0} → Lru Text Cached → Collection S → Collection S
with_lru c s = record s { lru = some c }

abbrev pub validated :
    CollectionError → Option (Json → Option Json) → Json → Outcome CollectionError Json
validated e none v = ok v
validated e (some validate) v = elim (validate v) [ none ↦ thrown e | some w ↦ ok w ]

-- The records of the cache, as the indexes read them.
abbrev pub docs : List (Text × Cached) → List (Text × Json)
docs [] = []
docs (e ∷ l) = (e.0, e.1.value) ∷ docs l

abbrev pub version_of : Option Cached → ℕ
version_of none = 0
version_of (some c) = c.version

abbrev pub value_of : Option Cached → Option Json
value_of none = none
value_of (some c) = some c.value

module _ {S : Type 0} (cfg : Config S) where
  unfoldable pub encrypt_json_string : Draw → Text → ℕ → Envelope
  encrypt_json_string draw json version =
      let (iv, data_text) =
        if cfg.encrypted then cfg.platform.encrypt draw.vector json else ([], json) in
      record {
        noydb = 1;
        v = version;
        ts = draw.now;
        iv = iv;
        data_text = data_text;
        by = some cfg.user_id;
      }

  unfoldable pub encrypt_record : Draw → Json → ℕ → Envelope
  unfolding encrypt_json_string
  encrypt_record draw value version =
      encrypt_json_string draw (cfg.platform.stringify value) version

  unfoldable pub decrypt_json_string : Envelope → Option Text
  decrypt_json_string e =
      if cfg.encrypted then cfg.platform.decrypt e.iv e.data_text else some e.data_text

  abbrev pub parsed : Option Text → Outcome CollectionError Json
  parsed none = thrown decryption
  parsed (some json) = elim (cfg.platform.parse json) [ none ↦ thrown syntax | some v ↦ ok v ]

  abbrev pub output : Bool → Outcome CollectionError Json → Outcome CollectionError Json
  output true out = out
  output false (ok v) = validated schema_output cfg.schema v
  output false (thrown e) = thrown e

  unfoldable pub decrypt_record : Bool → Envelope → Outcome CollectionError Json
  unfolding decrypt_json_string
  decrypt_record skip_validation e = output skip_validation (parsed (decrypt_json_string e))

  -- The loop of `ensureHydrated` over the ids.
  abbrev pub cache_record : Text → ℕ → Json → Step S Unit
  cache_record id version value s = (
    record s { cache = insert dec_text id (record { value = value; version = version }) s.cache },
    ok tt,
  )

  abbrev pub hydrate_found : Text → Option Envelope → Step S Unit
  hydrate_found id none = return tt
  hydrate_found id (some e) = settle (decrypt_record false e) >>= cache_record id e.v

  unfoldable pub hydrate_ids : List Text → Step S Unit
  unfolding decrypt_record
  hydrate_ids [] = return tt
  hydrate_ids (id ∷ ids) =
      (call (cfg.adapter.get cfg.vault cfg.name id) >>= hydrate_found id) >> hydrate_ids ids

  abbrev pub rebuild_indexes : Step S Unit
  rebuild_indexes s =
      (record s { hydrated = true; indexes = Indexes.build (docs s.cache) s.indexes }, ok tt)

  abbrev pub hydrate_if : Bool → Step S Unit
  hydrate_if true = return tt
  hydrate_if false = (call (cfg.adapter.list cfg.vault cfg.name) >>= hydrate_ids) >> rebuild_indexes

  unfoldable pub ensure_hydrated : Step S Unit
  unfolding hydrate_ids
  ensure_hydrated s = hydrate_if s.hydrated s

  -- The loop of `hydrateFromSnapshot`.
  unfoldable pub hydrate_records : Records → Step S Unit
  unfolding decrypt_record
  hydrate_records [] = rebuild_indexes
  hydrate_records (e ∷ l) = hydrate_found e.0 (some e.1) >> hydrate_records l

  unfoldable pub hydrate_from_snapshot : Records → Step S Unit
  unfolding hydrate_records
  hydrate_from_snapshot records = hydrate_records records

  -- What a store answers, as a cached record.
  abbrev pub loaded : Option Envelope → Step S (Option Cached)
  loaded none = return none
  loaded (some e) =
      settle (decrypt_record false e) >>= λ v. return (some (record { value = v; version = e.v }))

  abbrev pub or_load : Text → Option Cached → Step S (Option Cached)
  or_load id (some c) = return (some c)
  or_load id none = call (cfg.adapter.get cfg.vault cfg.name id) >>= loaded

  abbrev pub set_lru : Text → Cached → Option (Lru Text Cached) → Step S Unit
  set_lru id c none s = (s, ok tt)
  set_lru id c (some l) s =
      (with_lru (Lru.set dec_text id c (length (cfg.platform.stringify c.value)) l) s, ok tt)

  abbrev pub remember_lru : Text → Cached → Step S Unit
  remember_lru id c s = set_lru id c s.lru s

  abbrev pub get_loaded : Text → Option Cached → Step S (Option Json)
  get_loaded id none = return none
  get_loaded id (some c) = remember_lru id c >> return (some c.value)

  abbrev pub get_lazy : Text → Option Cached → Step S (Option Json)
  get_lazy id (some c) = return (some c.value)
  get_lazy id none = or_load id none >>= get_loaded id

  abbrev pub get_from : Text → Option (Lru Text Cached) → Step S (Option Json)
  get_from id (some l) s =
      let (l', found) = Lru.get dec_text id l in get_lazy id found (with_lru l' s)
  get_from id none s =
      next (λ u t. (t, ok (value_of (lookup dec_text id t.cache)))) (ensure_hydrated s)

  -- `get` without a locale.
  unfoldable pub get : Text → Step S (Option Json)
  unfolding ensure_hydrated
  get id s = get_from id s.lru s
