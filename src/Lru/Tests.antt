-- ===== src/Lru/Tests.antt =====
-- Runs of the cache, and the theorems at concrete caches.
use noydb.Base.{ℕ, ◌≡◌, refl, false, some, List, [], ◌∷◌, lookup, ℕ_discrete}
use noydb.Base.{◌+◌}
use noydb.Dict.{insert, remove}
use noydb.Lru
use noydb.Lru.{Lru, LruEntry, exceeds}
use noydb.Lru.Budget.{IsValid}
use noydb.Lru.Order.{with_entries}
use noydb.Lru.Eviction.{Keeps, order, set_lem, set-IsValid}

abbrev entry : ℕ → ℕ → LruEntry ℕ
entry v n = record { value = v; size = n }

abbrev three : Lru ℕ ℕ
three = record {
  entries = (1, entry 10 4) ∷ (2, entry 20 3) ∷ (3, entry 30 2) ∷ [];
  max_records = some 3;
  max_bytes = some 10;
  current_bytes = 9;
  hits = 0;
  misses = 0;
  evictions = 0;
}

three-IsValid : IsValid ℕ_discrete three
unfolding lookup ℕ_discrete
three-IsValid = record { distinct = (refl, (refl, (refl, tt))); counted = refl }

-- A new key over both budgets evicts the two oldest entries.
set_evicts : (Lru.set ℕ_discrete 4 40 6 three).entries ≡ (3, entry 30 2) ∷ (4, entry 40 6) ∷ []
unfolding Lru.set Lru.evict_until_under_budget Lru.evict_loop Lru.evict_oldest Lru.over_budget
    Lru.store insert remove lookup ℕ_discrete
set_evicts = refl

-- A hit moves the entry to the recent end.
get_promotes :
    (Lru.get ℕ_discrete 1 three).0.entries
    ≡ (2, entry 20 3) ∷ (3, entry 30 2) ∷ (1, entry 10 4) ∷ []
unfolding Lru.get insert remove lookup ℕ_discrete
get_promotes = refl

set_lem_example :
    (n : ℕ) × (kept : List (ℕ × LruEntry ℕ)) × Keeps three.max_records three.max_bytes
      (order ℕ_discrete 4 40 6 three.entries)
      kept
      n
    × (Lru.set ℕ_discrete 4 40 6 three ≡ with_entries kept (three.evictions + n) three)
set_lem_example = set_lem ℕ_discrete 4 40 6 three three-IsValid

set-IsValid_example :
    IsValid ℕ_discrete (Lru.set ℕ_discrete 4 40 6 three)
    × (Lru.over_budget (Lru.set ℕ_discrete 4 40 6 three) ≡ false)
set-IsValid_example = set-IsValid ℕ_discrete 4 40 6 three three-IsValid
