-- ===== src/Lru.antt =====
-- packages/hub/src/cache/lru.ts: `Lru<K, V>`, the bounded cache of a lazy collection. The `Map` is
-- its list of entries, least recently used first; a method returns the new cache.
pub mod Budget
pub mod Order
pub mod Eviction
mod Tests
use noydb.Base.{
  ℕ, zero, suc, ◌+◌, ◌-◌, ltb, if◌then◌else◌, Bool, true, false, ◌||◌, Option, none, some, List, [],
  ◌∷◌, map, lookup, length, is_some,
}
use noydb.Dict.{insert, remove as map_remove}

pub record LruEntry {ℓ} (V : Type ℓ) : Type ℓ where
  pub value : V
  pub size : ℕ

pub record LruOptions : Type 0 where
  pub max_records : Option ℕ
  pub max_bytes : Option ℕ

pub record LruStats : Type 0 where
  pub hits : ℕ
  pub misses : ℕ
  pub evictions : ℕ
  pub size : ℕ
  pub bytes : ℕ

pub record Lru {ℓ} (K V : Type ℓ) : Type ℓ where
  pub entries : List (K × LruEntry V)
  pub max_records : Option ℕ
  pub max_bytes : Option ℕ
  pub current_bytes : ℕ
  pub hits : ℕ
  pub misses : ℕ
  pub evictions : ℕ

-- `n > limit`, where there is a limit
abbrev pub exceeds : ℕ → Option ℕ → Bool
exceeds n none = false
exceeds n (some limit) = ltb limit n

module _ {ℓ} {K V : Type ℓ} where
  -- The constructor; `none` where it throws.
  unfoldable pub create : LruOptions → Option (Lru K V)
  create o =
      if is_some o.max_records || is_some o.max_bytes
      then some (record {
        entries = [];
        max_records = o.max_records;
        max_bytes = o.max_bytes;
        current_bytes = 0;
        hits = 0;
        misses = 0;
        evictions = 0;
      })
      else none

  unfoldable pub over_budget : Lru K V → Bool
  over_budget c =
      if exceeds (length c.entries) c.max_records
      then true
      else (if exceeds c.current_bytes c.max_bytes then true else false)

  unfoldable pub clear : Lru K V → Lru K V
  clear c = record c { entries = []; current_bytes = 0 }

  unfoldable pub reset_stats : Lru K V → Lru K V
  reset_stats c = record c { hits = 0; misses = 0; evictions = 0 }

  unfoldable pub stats : Lru K V → LruStats
  stats c = record {
    hits = c.hits;
    misses = c.misses;
    evictions = c.evictions;
    size = length c.entries;
    bytes = c.current_bytes;
  }

  unfoldable pub values : Lru K V → List V
  values c = map (λ e. e.1.value) c.entries

module _ {ℓ} {K V : Type ℓ} (dec : Discrete K) where
  unfoldable pub get : K → Lru K V → Lru K V × Option V
  get key c = elim (lookup dec key c.entries) [
    | none ↦ (record c { misses = c.misses + 1 }, none)
    | some entry ↦ (
      record c { entries = insert dec key entry (map_remove dec key c.entries); hits = c.hits + 1 },
      some entry.value,
    )
  ]

  -- One round of the loop of `evictUntilUnderBudget`, which drops the oldest key.
  unfoldable pub evict_oldest : K → Lru K V → Lru K V
  evict_oldest key c = record c {
    entries = map_remove dec key c.entries;
    current_bytes = elim (lookup dec key c.entries) [
      | none ↦ c.current_bytes
      | some entry ↦ c.current_bytes - entry.size
    ];
    evictions = c.evictions + 1;
  }

  -- The loop, on fuel: each round drops an entry, so the number of entries is enough.
  unfoldable pub evict_loop : ℕ → Lru K V → Lru K V
  evict_loop zero c = c
  evict_loop (suc fuel) c = elim (over_budget c) [
    | false ↦ c
    | true ↦ elim c.entries [ [] ↦ c | oldest ∷ _ ↦ evict_loop fuel (evict_oldest oldest.0 c) ]
  ]

  unfoldable pub evict_until_under_budget : Lru K V → Lru K V
  evict_until_under_budget c = evict_loop (length c.entries) c

  -- `set` up to the eviction
  unfoldable pub store : K → V → ℕ → Lru K V → Lru K V
  store key value size c =
      let entry : LruEntry V = record { value = value; size = size } in
      elim (lookup dec key c.entries) [
        | none ↦ record c {
          entries = insert dec key entry c.entries;
          current_bytes = c.current_bytes + size;
        }
        | some existing ↦ record c {
          entries = insert dec key entry (map_remove dec key c.entries);
          current_bytes = c.current_bytes - existing.size + size;
        }
      ]

  unfoldable pub set : K → V → ℕ → Lru K V → Lru K V
  set key value size c = evict_until_under_budget (store key value size c)

  unfoldable pub remove : K → Lru K V → Lru K V × Bool
  remove key c = elim (lookup dec key c.entries) [
    | none ↦ (c, false)
    | some existing ↦ (
      record c {
        entries = map_remove dec key c.entries;
        current_bytes = c.current_bytes - existing.size;
      },
      true,
    )
  ]

  unfoldable pub has : K → Lru K V → Bool
  has key c = is_some (lookup dec key c.entries)
