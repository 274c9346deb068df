-- ===== src/Collection/Versions.antt =====
-- The methods of a collection that read it as a whole, and those about earlier versions.
use noydb.Base.{
  ℕ, zero, suc, ◌==◌, ltb, if◌then◌else◌, Bool, true, false, Option, none, some, List, [], ◌∷◌,
  length, lookup, Text, dec_text,
}
use noydb.Store.{Envelope, Records, ok, thrown}
use noydb.Json.{Json}
use noydb.Lru
use noydb.Lru.{Lru, LruStats}
use noydb.History
use noydb.History.{HistoryOptions, PruneOptions, get_history, get_version_envelope, prune_history}
use noydb.Ledger.{Draw}
use noydb.Collection.{
  Cached, not_in_lazy_mode, version_not_found, history_prune, Config, Collection, Step, Draws,
  ◌>>=◌, ◌>>◌, next, return, throw, settle, call, emit, value_of, encrypt_record, decrypt_record,
  ensure_hydrated,
}
use noydb.Collection.Writes.{put}

abbrev pub values : List (Text × Cached) → List Json
values [] = []
values (e ∷ l) = e.1.value ∷ values l

module _ {S : Type 0} (cfg : Config S) where
  abbrev pub list_in : Option (Lru Text Cached) → Step S (List Json)
  list_in (some l) s = (s, thrown not_in_lazy_mode)
  list_in none s = next (λ u t. (t, ok (values t.cache))) (ensure_hydrated cfg s)

  -- `list` without a locale.
  unfoldable pub list : Step S (List Json)
  unfolding ensure_hydrated
  list s = list_in s.lru s

  abbrev pub count_in : Option (Lru Text Cached) → Step S ℕ
  count_in (some l) s =
      (call (cfg.adapter.list cfg.vault cfg.name) >>= λ ids. return (length ids)) s
  count_in none s = next (λ u t. (t, ok (length t.cache))) (ensure_hydrated cfg s)

  unfoldable pub count : Step S ℕ
  unfolding ensure_hydrated
  count s = count_in s.lru s

  pub record HistoryEntry : Type 0 where
    pub version : ℕ
    pub timestamp : Text
    pub user_id : Text
    pub value : Json

  abbrev pub or_empty : Option Text → Text
  or_empty none = []
  or_empty (some t) = t

  unfoldable pub history_entries : List Envelope → Step S (List HistoryEntry)
  unfolding decrypt_record
  history_entries [] = return []
  history_entries (e ∷ l) = settle (decrypt_record cfg true e) >>= λ v.
      history_entries l >>= λ rest.
      return (record { version = e.v; timestamp = e.ts; user_id = or_empty e.by; value = v } ∷ rest)

  unfoldable pub history : Text → HistoryOptions → Step S (List HistoryEntry)
  unfolding history_entries get_history
  history id options =
      call (get_history cfg.adapter cfg.vault cfg.name id options) >>= history_entries

  abbrev pub version_found : Option Envelope → Step S (Option Json)
  version_found none = return none
  version_found (some e) = settle (decrypt_record cfg true e) >>= λ v. return (some v)

  unfoldable pub get_version : Text → ℕ → Step S (Option Json)
  unfolding get_version_envelope decrypt_record
  get_version id version =
      call (get_version_envelope cfg.adapter cfg.vault cfg.platform.padded cfg.name id version)
      >>= version_found

  abbrev pub put_back : Draws → Text → ℕ → Option Json → Step S Unit
  put_back draws id version none = throw (version_not_found version)
  put_back draws id version (some v) = put cfg draws id v

  unfoldable pub revert : Draws → Text → ℕ → Step S Unit
  unfolding get_version
  revert draws id version = get_version id version >>= put_back draws id version

  abbrev pub if_version : ℕ → Option Cached → Option Json
  if_version version none = none
  if_version version (some c) = if c.version == version then some c.value else none

  abbrev pub or_current : Text → ℕ → Option Json → Step S (Option Json)
  or_current id version (some v) s = return (some v) s
  or_current id version none s =
      next (λ u t. (t, ok (if_version version (lookup dec_text id t.cache))))
        (ensure_hydrated cfg s)

  unfoldable pub resolve_version : Text → ℕ → Step S (Option Json)
  unfolding get_version ensure_hydrated
  resolve_version id version = get_version id version >>= or_current id version

  unfoldable pub resolve_current_or_version : Text → Step S (Option Json)
  unfolding ensure_hydrated
  resolve_current_or_version id s =
      next (λ u t. (t, ok (value_of (lookup dec_text id t.cache)))) (ensure_hydrated cfg s)

  -- The first two steps of `diff`: a version 0 is no record, and no version the current one.
  abbrev pub version_a : Text → ℕ → Step S (Option Json)
  version_a id zero = return none
  version_a id (suc n) = resolve_version id (suc n)

  unfoldable pub diff_records : Text → ℕ → Option ℕ → Step S (Option Json × Option Json)
  unfolding resolve_version resolve_current_or_version
  diff_records id a none =
      version_a id a >>= λ x. resolve_current_or_version id >>= λ y. return (x, y)
  diff_records id a (some b) = version_a id a >>= λ x. version_a id b >>= λ y. return (x, y)

  abbrev pub pruned : Option Text → ℕ → Step S ℕ
  pruned id n = if ltb 0 n then (emit (history_prune id n) >> return n) else return n

  unfoldable pub prune_record_history : Option Text → PruneOptions → Step S ℕ
  unfolding prune_history
  prune_record_history id options =
      call (prune_history cfg.adapter cfg.vault cfg.name id options) >>= pruned id

  unfoldable pub clear_history : Option Text → Step S ℕ
  clear_history id = call (History.clear_history cfg.adapter cfg.vault (some cfg.name) id)

  unfoldable pub encrypt_all : Draw → List (Text × Cached) → Records
  unfolding encrypt_record
  encrypt_all draw [] = []
  encrypt_all draw (e ∷ l) =
      (e.0, encrypt_record cfg draw e.1.value e.1.version) ∷ encrypt_all draw l

  unfoldable pub dump_envelopes : Draw → Step S Records
  unfolding encrypt_all ensure_hydrated
  dump_envelopes draw s = next (λ u t. (t, ok (encrypt_all draw t.cache))) (ensure_hydrated cfg s)

-- `cacheStats`; in eager mode the counters are 0.
unfoldable pub cache_stats : {S : Type 0} → Collection S → LruStats × Bool
unfolding Lru.stats
cache_stats s = elim s.lru [
  | some l ↦ (Lru.stats l, true)
  | none ↦ (record { hits = 0; misses = 0; evictions = 0; size = length s.cache; bytes = 0 }, false)
]
