-- ===== src/Lru/Eviction.antt =====
-- What `set` and `get` do to the recency order, and the budgets that hold after `set`.
use noydb.Base.{
  ℕ, zero, suc, ◌+◌, ◌-◌, ◌∙◌, ap, ◌≡◌, ◌<◌, ◌≤◌, dec_le, drop-append, drop-length, refl, ite, true,
  false, Bool-cases, Option-cases, inl, inr, Option, none, some, List, [], ◌∷◌, ◌++◌, lookup,
  length, drop, arith,
}
use noydb.Dict.{
  Distinct, remove, insert-remove, remove_absent, lookup-remove, lookup-insert, Distinct-drop,
  lookup-append, lookup-drop-none, Distinct-remove, Distinct-insert,
}
use noydb.Lru
use noydb.Lru.{Lru, LruEntry, exceeds}
use noydb.Lru.Budget.{IsValid, store-IsValid, total-remove, total-insert_absent}
use noydb.Lru.Order.{is_over, keep, with_entries, over_budget-is_over, evict_loop_lem}

module _ {ℓ} {K V : Type ℓ} (records bytes : Option ℕ) where
  -- `keep` drops as few entries as it can: with one less the list is over a budget.
  pub record Keeps (l kept : List (K × LruEntry V)) (n : ℕ) : Type ℓ where
    pub rest : kept ≡ drop n l
    pub count : length kept + n ≡ length l
    pub least : (m : ℕ) → m < n → is_over records bytes (drop m l) ≡ true
    pub fits : is_over records bytes kept ≡ false

  keep_lem : (l : List (K × LruEntry V)) → (n : ℕ) × Keeps l (keep records bytes l) n
  unfolding keep
  keep_lem [] =
      (0, record { rest = refl; count = refl; least = λ m h. elim h [ ]; fits = ground arith })
  keep_lem (e ∷ l) = elim (Bool-cases (is_over records bytes (e ∷ l))) [
    | inl over ↦
        let (n, ih) = keep_lem l in
        (
          suc n,
          rw over (record {
            rest = ih.rest;
            count = omega (arith, ih.count);
            least = λ m. least_step n over ih m;
            fits = ih.fits;
          }),
        )
    | inr fits ↦ (
      0,
      rw fits (record { rest = refl; count = omega arith; least = λ m h. elim h [ ]; fits = fits }),
    )
  ]
    where
      least_step :
          (n : ℕ)
          → is_over records bytes (e ∷ l) ≡ true
          → Keeps l (keep records bytes l) n
          → (m : ℕ) → m < suc n
          → is_over records bytes (drop m (e ∷ l)) ≡ true
      least_step n over ih zero h = over
      least_step n over ih (suc m) h = ih.least m (omega arith)

  -- An entry that fits alone stays where it stands last.
  Keeps-le_length :
      (l : List (K × LruEntry V)) (x : K × LruEntry V) (kept : List (K × LruEntry V)) (n : ℕ)
      → Keeps (l ++ x ∷ []) kept n
      → is_over records bytes (x ∷ []) ≡ false
      → n ≤ length l
  Keeps-le_length l x kept n ks alone = elim (dec_le n (length l)) [
    | yes few ↦ few
    | no many ↦
        let over = ks.least (length l) (omega arith) in
        let last : drop (length l) (l ++ x ∷ []) ≡ x ∷ [] =
          drop-append (length l) l (x ∷ []) (omega arith) ∙ ap (λ m. m ++ x ∷ []) (drop-length l) in
        absurd (cc (ap (is_over records bytes) last))
  ]

module _ {ℓ} {K V : Type ℓ} (dec : Discrete K) (k : K) where
  -- The recency order after a `set`, before any eviction.
  abbrev pub order : V → ℕ → List (K × LruEntry V) → List (K × LruEntry V)
  order v size l = remove dec k l ++ (k, record { value = v; size = size }) ∷ []

  store_lem :
      (v : V) (size : ℕ) (c : Lru K V)
      → IsValid dec c
      → Lru.store dec k v size c ≡ with_entries (order v size c.entries) c.evictions c
  unfolding Lru.store
  store_lem v size c h =
      let e : LruEntry V = record { value = v; size = size } in
      ground (
        arith,
        remove_absent dec k c.entries,
        insert-remove dec k e c.entries,
        (store-IsValid dec k c h v size).counted,
      )

  order-Distinct :
      (v : V) (size : ℕ) (c : Lru K V) → IsValid dec c → Distinct dec (order v size c.entries)
  order-Distinct v size c h =
      let e : LruEntry V = record { value = v; size = size } in
      rw (← insert-remove dec k e c.entries) (
        Distinct-insert dec k e (remove dec k c.entries)
          (Distinct-remove dec k c.entries h.distinct))

  -- `set` moves the key to the recent end and drops the fewest entries from the other end that
  -- bring the cache within both budgets; nothing else of it changes but the eviction count.
  pub set_lem :
      (v : V) (size : ℕ) (c : Lru K V)
      → IsValid dec c
      → (n : ℕ) × (kept : List (K × LruEntry V)) × Keeps c.max_records c.max_bytes
          (order v size c.entries)
          kept
          n
        × (Lru.set dec k v size c ≡ with_entries kept (c.evictions + n) c)
  unfolding Lru.set Lru.evict_until_under_budget
  set_lem v size c h =
      let l = order v size c.entries in
      let kept = keep c.max_records c.max_bytes l in
      let (n, ks) = keep_lem c.max_records c.max_bytes l in
      let count : length l - length kept ≡ n = omega (arith, ks.count) in
      (
        n,
        kept,
        ks,
        rw (store_lem v size c h) (
            evict_loop_lem dec (length l) l c.evictions c (omega arith) (order-Distinct v size c h)
            ∙ ap (λ m. with_entries kept (c.evictions + m) c) count),
      )

  -- `set` keeps the cache valid, and leaves it within both budgets.
  pub set-IsValid :
      (v : V) (size : ℕ) (c : Lru K V)
      → IsValid dec c
      → IsValid dec (Lru.set dec k v size c) × (Lru.over_budget (Lru.set dec k v size c) ≡ false)
  set-IsValid v size c h =
      let (n, kept, ks, e) = set_lem v size c h in
      rw e (
        record {
          distinct = rw ks.rest (Distinct-drop dec n _ (order-Distinct v size c h));
          counted = refl;
        },
        over_budget-is_over c kept (c.evictions + n) ∙ ks.fits,
      )

  -- `get` answers what is stored and keeps the cache valid; a hit moves the entry to the recent
  -- end, a miss moves nothing, and any key is found afterwards as it was before.
  pub get_lem :
      (c : Lru K V)
      → IsValid dec c
      → IsValid dec (Lru.get dec k c).0
        × ((Lru.get dec k c).1
            ≡ (elim (lookup dec k c.entries) [ none ↦ none | some e ↦ some e.value ]))
        × ((Lru.get dec k c).0.entries ≡ (elim (lookup dec k c.entries) [
          | none ↦ c.entries
          | some e ↦ remove dec k c.entries ++ (k, e) ∷ []
        ]))
        × ((j : K) → lookup dec j (Lru.get dec k c).0.entries ≡ lookup dec j c.entries)
  unfolding Lru.get
  get_lem c h = elim (Option-cases (lookup dec k c.entries)) [
    | inl miss ↦
        rw (miss, Lru.get)
          (record { distinct = h.distinct; counted = h.counted }, refl, refl, λ j. refl)
    | inr (e, hit) ↦
        rw (hit, Lru.get)
          (
            record {
              distinct =
                  Distinct-insert dec k e (remove dec k c.entries)
                    (Distinct-remove dec k c.entries h.distinct);
              counted = omega (
                arith,
                total-insert_absent dec k e (remove dec k c.entries)
                    (ground (arith, lookup-remove dec k k c.entries)),
                total-remove dec k c.entries h.distinct hit,
                h.counted,
              );
            },
            refl,
            insert-remove dec k e c.entries,
            λ j. ground (
              arith,
              lookup-insert dec k j e (remove dec k c.entries),
              lookup-remove dec k j c.entries,
            ),
          )
  ]

  -- `remove` drops the key and its bytes, says whether it was there, and touches no other key.
  pub remove_lem :
      (c : Lru K V)
      → IsValid dec c
      → IsValid dec (Lru.remove dec k c).0
        × ((Lru.remove dec k c).1 ≡ Lru.has dec k c)
        × ((j : K)
            → lookup dec j (Lru.remove dec k c).0.entries
              ≡ ite (dec j k) none (lookup dec j c.entries))
  unfolding Lru.remove Lru.has
  remove_lem c h = elim (Option-cases (lookup dec k c.entries)) [
    | inl miss ↦
        rw (miss, Lru.remove, Lru.has)
          (record { distinct = h.distinct; counted = h.counted }, refl, λ j. ground arith)
    | inr (e, hit) ↦
        rw (hit, Lru.remove, Lru.has)
          (
            record {
              distinct = Distinct-remove dec k c.entries h.distinct;
              counted = omega (arith, total-remove dec k c.entries h.distinct hit, h.counted);
            },
            refl,
            λ j. lookup-remove dec k j c.entries,
          )
  ]

  -- A value that alone fits both budgets is found after its `set`.
  pub lookup-set_self :
      (v : V) (size : ℕ) (c : Lru K V)
      → IsValid dec c
      → exceeds 1 c.max_records ≡ false
      → exceeds size c.max_bytes ≡ false
      → lookup dec k (Lru.set dec k v size c).entries ≡ some (record { value = v; size = size })
  unfolding lookup
  lookup-set_self v size c h one small =
      let (n, kept, ks, e) = set_lem v size c h in
      let l = remove dec k c.entries in
      let x : K × LruEntry V = (k, record { value = v; size = size }) in
      let alone : is_over c.max_records c.max_bytes (x ∷ []) ≡ false = ground arith in
      let few = Keeps-le_length c.max_records c.max_bytes l x kept n ks alone in
      rw (e, ks.rest, drop-append n l (x ∷ []) few, lookup-append)
        (rw (lookup-drop-none dec k n l (ground (arith, lookup-remove dec k k c.entries)))
          (ground arith))
