-- ===== src/Lru/Budget.antt =====
-- The byte count of the cache, and its two budgets.
use noydb.Base.{
  ℕ, ◌+◌, ◌≡◌, if_neg, Option-cases, inl, inr, none, some, List, [], ◌∷◌, ◌++◌, lookup, arith,
}
use noydb.Dict.{
  Distinct, remove, insert, Distinct-remove, Distinct-insert, insert_absent, remove_absent,
  lookup-remove,
}
use noydb.Lru
use noydb.Lru.{Lru, LruEntry}

-- The sum of the sizes of the entries.
abbrev pub total {ℓ} : {K V : Type ℓ} → List (K × LruEntry V) → ℕ
total [] = 0
total (e ∷ l) = e.1.size + total l

module _ {ℓ} {K V : Type ℓ} (dec : Discrete K) where
  -- No key twice, and the byte count is the sum of the sizes.
  pub record IsValid (c : Lru K V) : Type ℓ where
    pub distinct : Distinct dec c.entries
    pub counted : c.current_bytes ≡ total c.entries

  total-append : (l m : List (K × LruEntry V)) → total (l ++ m) ≡ total l + total m
  total-append [] m = omega arith
  total-append (e ∷ l) m = omega (arith, total-append l m)

  pub total-remove :
      (k : K) (l : List (K × LruEntry V)) {e : LruEntry V}
      → Distinct dec l
      → lookup dec k l ≡ some e
      → total l ≡ e.size + total (remove dec k l)
  unfolding lookup remove
  total-remove k [] d h = cc
  total-remove k (f ∷ l) {e = e} d h = elim (dec k f.0) [
    | yes p ↦ ground (arith, remove_absent dec k l)
    | no p ↦
        let ih = total-remove k l {e = e} d.1 (ground arith) in rw (if_neg _ p) (omega (arith, ih))
  ]

  pub total-insert_absent :
      (k : K) (e : LruEntry V) (l : List (K × LruEntry V))
      → lookup dec k l ≡ none
      → total (insert dec k e l) ≡ total l + e.size
  total-insert_absent k e l h =
      rw (insert_absent dec k e l h) (omega (arith, total-append l ((k, e) ∷ [])))

  module _ (k : K) (c : Lru K V) (h : IsValid c) where
    -- `store` keeps the count.
    pub store-IsValid : (v : V) (size : ℕ) → IsValid (Lru.store dec k v size c)
    unfolding Lru.store
    store-IsValid v size =
        let e : LruEntry V = record { value = v; size = size } in
        elim (Option-cases (lookup dec k c.entries)) [
          | inl new ↦
              rw (new, Lru.store)
                (record {
                  distinct = Distinct-insert dec k e c.entries h.distinct;
                  counted = omega (arith, total-insert_absent k e c.entries new, h.counted);
                })
          | inr (old, found) ↦
              rw (found, Lru.store)
                (record {
                  distinct =
                      Distinct-insert dec k e (remove dec k c.entries)
                        (Distinct-remove dec k c.entries h.distinct);
                  counted = omega (
                    arith,
                    total-insert_absent k e (remove dec k c.entries)
                        (ground (arith, lookup-remove dec k k c.entries)),
                    total-remove k c.entries h.distinct found,
                    h.counted,
                  );
                })
        ]
