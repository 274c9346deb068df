-- ===== src/Lru/Order.antt =====
-- What eviction leaves: the longest end of the recency order that fits both budgets.
use noydb.Base.{
  ℕ, zero, suc, ◌+◌, ◌-◌, ◌≡◌, ◌≤◌, if◌then◌else◌, ◌||◌, Bool, Bool-cases, inl, inr, Option, none,
  List, [], ◌∷◌, lookup, length, arith,
}
use noydb.Dict.{Distinct, remove-cons_self}
use noydb.Lru
use noydb.Lru.{Lru, LruEntry, exceeds}
use noydb.Lru.Budget.{total}

module _ {ℓ} {K V : Type ℓ} where
  -- Whether a list of entries is over one of the budgets.
  abbrev pub is_over : Option ℕ → Option ℕ → List (K × LruEntry V) → Bool
  is_over records bytes l = exceeds (length l) records || exceeds (total l) bytes

  -- The longest end of a list that fits.
  unfoldable pub keep : Option ℕ → Option ℕ → List (K × LruEntry V) → List (K × LruEntry V)
  keep records bytes [] = []
  keep records bytes (e ∷ l) =
      let rest = keep records bytes l in if is_over records bytes (e ∷ l) then rest else e ∷ l

  pub keep-length-le :
      (records bytes : Option ℕ) (l : List (K × LruEntry V))
      → length (keep records bytes l) ≤ length l
  unfolding keep
  keep-length-le records bytes [] = omega arith
  keep-length-le records bytes (e ∷ l) = elim (Bool-cases (is_over records bytes (e ∷ l))) [
    | inl over ↦ rw over (omega (arith, keep-length-le records bytes l))
    | inr fits ↦ rw fits (omega arith)
  ]

  -- The cache `c` with other entries, their count, and an eviction count.
  abbrev pub with_entries : List (K × LruEntry V) → ℕ → Lru K V → Lru K V
  with_entries l n c = record c { entries = l; current_bytes = total l; evictions = n }

  pub over_budget-is_over :
      (c : Lru K V) (l : List (K × LruEntry V)) (n : ℕ)
      → Lru.over_budget (with_entries l n c) ≡ is_over c.max_records c.max_bytes l
  unfolding Lru.over_budget
  over_budget-is_over c l n = elim (Bool-cases (exceeds (length l) c.max_records)) [
    | inl h ↦ rw h
    | inr h ↦ rw h (ground arith)
  ]

module _ {ℓ} {K V : Type ℓ} (dec : Discrete K) where
  evict_oldest_lem :
      (x : K × LruEntry V) (l : List (K × LruEntry V)) (n : ℕ) (c : Lru K V)
      → lookup dec x.0 l ≡ none
      → Lru.evict_oldest dec x.0 (with_entries (x ∷ l) n c) ≡ with_entries l (n + 1) c
  unfolding Lru.evict_oldest lookup
  evict_oldest_lem x l n c h = ground (arith, remove-cons_self dec x.0 x.1 l h)

  -- The loop with enough fuel stops at the longest end that fits.
  pub evict_loop_lem :
      (fuel : ℕ) (l : List (K × LruEntry V)) (n : ℕ) (c : Lru K V)
      → length l ≤ fuel
      → Distinct dec l
      → Lru.evict_loop dec fuel (with_entries l n c) ≡ (
          let kept = keep c.max_records c.max_bytes l in
          with_entries kept (n + (length l - length kept)) c)
  unfolding Lru.evict_loop keep
  evict_loop_lem zero [] n c f d = ground arith
  evict_loop_lem zero (x ∷ l) n c f d = absurd (omega arith)
  evict_loop_lem (suc fuel) [] n c f d = ground arith
  evict_loop_lem (suc fuel) (x ∷ l) n c f d = ground (
    arith,
    over_budget-is_over c (x ∷ l) n,
    evict_oldest_lem x l n c d.0,
    evict_loop_lem fuel l (n + 1) c (omega arith) d.1,
    keep-length-le c.max_records c.max_bytes l,
  )
