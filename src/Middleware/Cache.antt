-- ===== src/Middleware/Cache.antt =====
-- `withCache`. `now` and `later` are the readings of `Date.now()` before and after the wrapped
-- call.
pub mod Coherent
use noydb.Base.{
  ℕ, zero, suc, ◌+◌, ◌-◌, ◌≡◌, ◌≤◌, ◌<◌, ◌⊎◌, inl, inr, ◌∙◌, sym, refl, ap, leb, ltb, ite,
  if◌then◌else◌, Bool, true, false, Bool-cases, ◌&&◌, Option, none, some, List, [], ◌∷◌, ◌++◌,
  length, drop, lookup, Text, dec_text, arith,
}
use noydb.Dict.{insert, remove}
use noydb.Store.{Envelope, StoreError, Outcome, ok, thrown, NoydbStore, IsLawful, at_key, if_ok}

pub record CacheOptions : Type 0 where
  pub max_entries : ℕ
  pub ttl_ms : ℕ

pub record CacheEntry : Type 0 where
  pub envelope : Option Envelope
  pub cached_at : ℕ

abbrev pub Entries : Type 0
Entries = List (Text × CacheEntry)

-- The three parts with a NUL between them.
abbrev pub cache_key : Text → Text → Text → Text
cache_key vault collection id = vault ++ 0 ∷ (collection ++ 0 ∷ id)

abbrev pub is_expired : CacheOptions → ℕ → CacheEntry → Bool
is_expired opts now entry =
    if ltb 0 opts.ttl_ms then ltb opts.ttl_ms (now - entry.cached_at) else false

-- What is cached, if anything is, and the cache then; from the entry that the key has.
unfoldable pub from_entry :
    CacheOptions → ℕ → Text → Entries → Option CacheEntry → Entries × Option (Option Envelope)
from_entry opts now key cache none = (cache, none)
from_entry opts now key cache (some entry) =
    if is_expired opts now entry
    then (remove dec_text key cache, none)
    else (insert dec_text key entry (remove dec_text key cache), some entry.envelope)

unfoldable pub get_from_cache :
    CacheOptions → ℕ → Text → Entries → Entries × Option (Option Envelope)
unfolding from_entry
get_from_cache opts now key cache = from_entry opts now key cache (lookup dec_text key cache)

unfoldable pub evict : CacheOptions → Entries → Entries
evict opts cache = if leb opts.max_entries (length cache) then drop 1 cache else cache

unfoldable pub set_in_cache : CacheOptions → ℕ → Text → Option Envelope → Entries → Entries
unfolding evict
set_in_cache opts now key envelope cache =
    insert dec_text key (record { envelope = envelope; cached_at = now }) (evict opts cache)

module _ {S : Type 0} (opts : CacheOptions) (next : NoydbStore S) where
  -- What follows the read of the wrapped store.
  unfoldable pub after_read :
      ℕ
      → Text
      → Entries
      → S × Outcome StoreError (Option Envelope)
      → (Entries × S) × Outcome StoreError (Option Envelope)
  unfolding set_in_cache
  after_read later key cache (s, thrown x) = ((cache, s), thrown x)
  after_read later key cache (s, ok result) =
      ((set_in_cache opts later key result cache, s), ok result)

  -- What follows the look into the cache.
  unfoldable pub after_cached :
      ℕ
      → Text
      → Text
      → Text
      → S
      → Entries × Option (Option Envelope)
      → (Entries × S) × Outcome StoreError (Option Envelope)
  unfolding after_read
  after_cached later vault collection id s (cache, some envelope) = ((cache, s), ok envelope)
  after_cached later vault collection id s (cache, none) =
      after_read later (cache_key vault collection id) cache (next.get vault collection id s)

  unfoldable pub get :
      ℕ
      → ℕ
      → Text
      → Text
      → Text
      → Entries × S
      → (Entries × S) × Outcome StoreError (Option Envelope)
  unfolding get_from_cache after_cached
  get now later vault collection id (cache, s) =
      after_cached later vault collection id s
        (get_from_cache opts now (cache_key vault collection id) cache)

  unfoldable pub after_write :
      ℕ
      → Text
      → Envelope
      → Entries
      → S × Outcome StoreError Unit
      → (Entries × S) × Outcome StoreError Unit
  unfolding set_in_cache
  after_write later key env cache (s, thrown x) = ((cache, s), thrown x)
  after_write later key env cache (s, ok _) =
      ((set_in_cache opts later key (some env) cache, s), ok tt)

  unfoldable pub put :
      ℕ
      → Text
      → Text
      → Text
      → Envelope
      → Option ℕ
      → Entries × S
      → (Entries × S) × Outcome StoreError Unit
  unfolding after_write
  put later vault collection id env expected (cache, s) =
      let key = cache_key vault collection id in
      after_write later key env (remove dec_text key cache)
        (next.put vault collection id env expected s)

  unfoldable pub delete : Text → Text → Text → Entries × S → (Entries × S) × Outcome StoreError Unit
  delete vault collection id (cache, s) =
      let (s1, out) = next.delete vault collection id s in
      ((remove dec_text (cache_key vault collection id) cache, s1), out)

  unfoldable pub with_cache : ℕ → ℕ → NoydbStore (Entries × S)
  unfolding get put delete
  with_cache now later = record {
    get = get now later;
    put = put later;
    delete = delete;
    list = λ v c p. let (s1, out) = next.list v c p.1 in ((p.0, s1), out);
    load_all = λ v p. let (s1, out) = next.load_all v p.1 in ((p.0, s1), out);
    save_all = λ v d p. let (s1, out) = next.save_all v d p.1 in ((p.0, s1), out);
  }
