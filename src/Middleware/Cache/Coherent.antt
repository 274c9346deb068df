-- ===== src/Middleware/Cache/Coherent.antt =====
-- What `withCache` answers is what the wrapped store holds.
use noydb.Base.{
  ℕ, ◌≡◌, ◌≢◌, inl, inr, ◌∙◌, sym, refl, ap, leb, Bool-cases, Option, none, some, [], ◌∷◌, ◌++◌,
  length, lookup, Text, dec_text, All, arith,
}
use noydb.Dict.{
  insert, remove, Distinct, Distinct-insert, Distinct-remove, Distinct-drop, lookup-insert,
  lookup-remove,
}
use noydb.Store.{Envelope, StoreError, Outcome, ok, thrown, NoydbStore, IsLawful, at_key, if_ok}
use noydb.Middleware.Cache
use noydb.Middleware.Cache.{CacheOptions, CacheEntry, Entries, cache_key}

-- No NUL in a name.
abbrev pub IsPlain : Text → Type 0
IsPlain = All (λ c. c ≢ 0)

split_injective :
    (a b u v : Text) → IsPlain a → IsPlain b → a ++ 0 ∷ u ≡ b ++ 0 ∷ v → (a ≡ b) × (u ≡ v)
split_injective [] [] u v p q e = (refl, cc)
split_injective [] (y ∷ b) u v p q e = absurd (ground (arith, q.0))
split_injective (x ∷ a) [] u v p q e = absurd (ground (arith, p.0))
split_injective (x ∷ a) (y ∷ b) u v p q e =
    let heads : x ≡ y = cc in
    let tails : a ++ 0 ∷ u ≡ b ++ 0 ∷ v = cc in
    let (same, rest) = split_injective a b u v p.1 q.1 tails in (cc, rest)

-- Names without NUL make different keys of different records.
pub cache_key_injective :
    (v c id w d j : Text)
    → IsPlain v
    → IsPlain c
    → IsPlain w
    → IsPlain d
    → cache_key v c id ≡ cache_key w d j
    → (v ≡ w) × (c ≡ d) × (id ≡ j)
cache_key_injective v c id w d j pv pc pw pd e =
    let (same_v, rest) = split_injective v w (c ++ 0 ∷ id) (d ++ 0 ∷ j) pv pw e in
    let (same_c, same_id) = split_injective c d id j pc pd rest in (same_v, same_c, same_id)

module _ {S : Type 0} (opts : CacheOptions) (next : NoydbStore S) (l : IsLawful next) where
  -- Every cached envelope is the one that the store shows.
  pub record IsCoherent (p : Entries × S) : Type 0 where
    pub distinct : Distinct dec_text p.0
    pub shown :
        (v c id : Text) (entry : CacheEntry)
        → IsPlain v
        → IsPlain c
        → lookup dec_text (cache_key v c id) p.0 ≡ some entry
        → entry.envelope ≡ l.view v c id p.1

  lookup-evict :
      (k : Text) (cache : Entries) (e : CacheEntry)
      → Distinct dec_text cache
      → lookup dec_text k (Cache.evict opts cache) ≡ some e
      → lookup dec_text k cache ≡ some e
  unfolding Cache.evict lookup
  lookup-evict k [] e u h = ground arith
  lookup-evict k (x ∷ cache) e u h = ground (arith, u.0)

  Distinct-evict :
      (cache : Entries) → Distinct dec_text cache → Distinct dec_text (Cache.evict opts cache)
  unfolding Cache.evict
  Distinct-evict cache u = elim (Bool-cases (leb opts.max_entries (length cache))) [
    | inl full ↦ rw full (Distinct-drop dec_text 1 cache u)
    | inr room ↦ rw room u
  ]

  set-IsCoherent :
      (now : ℕ) (v c id : Text) (env : Option Envelope) (cache : Entries) (s : S)
      → IsPlain v
      → IsPlain c
      → env ≡ l.view v c id s
      → IsCoherent (cache, s)
      → IsCoherent (Cache.set_in_cache opts now (cache_key v c id) env cache, s)
  unfolding Cache.set_in_cache
  set-IsCoherent now v c id env cache s pv pc e h = record {
    distinct = Distinct-insert dec_text _ _ _ (Distinct-evict cache h.distinct);
    shown = λ w d j entry pw pd k. elim (dec_text (cache_key w d j) (cache_key v c id)) [
      | yes same ↦
          let (a, b, g) = cache_key_injective w d j v c id pw pd pv pc same in
          let stored : entry ≡ record { envelope = env; cached_at = now } = ground (
            arith,
            lookup-insert dec_text (cache_key v c id) (cache_key w d j)
                (record { envelope = env; cached_at = now }) (Cache.evict opts cache),
          ) in
          ap (λ z. z.envelope) stored ∙ e ∙ cc
      | no differ ↦ h.shown w d j entry pw pd (
          lookup-evict (cache_key w d j) cache entry h.distinct (
            ground (
              arith,
              lookup-insert dec_text (cache_key v c id) (cache_key w d j)
                  (record { envelope = env; cached_at = now }) (Cache.evict opts cache),
            )))
    ];
  }

  other_key :
      {A : Type 0} (v c id w d j : Text) (x y : A)
      → cache_key w d j ≢ cache_key v c id
      → at_key v c id w d j x y ≡ y
  other_key v c id w d j x y h = ground arith

  unchanged : {A B : Type 0} (out : Outcome StoreError A) (x y : B) → x ≡ y → if_ok out x y ≡ y
  unchanged (ok a) x y h = h
  unchanged (thrown e) x y h = refl

  remove-IsCoherent :
      {A : Type 0} (v c id : Text) (x : Option Envelope) (cache : Entries) (s s1 : S)
      (out : Outcome StoreError A)
      → ((w d j : Text)
          → l.view w d j s1 ≡ if_ok out (at_key v c id w d j x (l.view w d j s)) (l.view w d j s))
      → IsCoherent (cache, s)
      → IsCoherent (remove dec_text (cache_key v c id) cache, s1)
  remove-IsCoherent v c id x cache s s1 out e h = record {
    distinct = Distinct-remove dec_text _ _ h.distinct;
    shown = λ w d j entry pw pd k.
        let found = lookup-remove dec_text (cache_key v c id) (cache_key w d j) cache in
        let differ : cache_key w d j ≢ cache_key v c id = λ same. ground (arith, found) in
        h.shown w d j entry pw pd (ground (arith, found))
        ∙ sym (e w d j ∙ unchanged out _ _ (other_key v c id w d j x (l.view w d j s) differ));
  }

  -- The answer of `get`, and what it leaves.
  pub record Reads (v c id : Text) (s : S)
      (r : (Entries × S) × Outcome StoreError (Option Envelope)) : Type 0 where
    pub coherent : IsCoherent r.0
    pub answer : (o : Option Envelope) → r.1 ≡ ok o → o ≡ l.view v c id s
    pub same : (w d j : Text) → l.view w d j r.0.1 ≡ l.view w d j s

  view-IsCoherent :
      (cache : Entries) (s s1 : S)
      → ((w d j : Text) → l.view w d j s1 ≡ l.view w d j s)
      → IsCoherent (cache, s)
      → IsCoherent (cache, s1)
  view-IsCoherent cache s s1 e h = record {
    distinct = h.distinct;
    shown = λ w d j entry pw pd k. h.shown w d j entry pw pd k ∙ sym (e w d j);
  }

  after_read_lem :
      (later : ℕ) (v c id : Text) (cache : Entries) (s s1 : S)
      (out : Outcome StoreError (Option Envelope))
      → IsPlain v
      → IsPlain c
      → ((w d j : Text) → l.view w d j s1 ≡ l.view w d j s)
      → ((o : Option Envelope) → out ≡ ok o → o ≡ l.view v c id s)
      → IsCoherent (cache, s)
      → Reads v c id s (Cache.after_read opts next later (cache_key v c id) cache (s1, out))
  unfolding Cache.after_read
  after_read_lem later v c id cache s s1 (thrown x) pv pc e o h = record {
    coherent = view-IsCoherent cache s s1 e h;
    answer = λ a k. absurd (ground (arith, k));
    same = e;
  }
  after_read_lem later v c id cache s s1 (ok a) pv pc e o h = record {
    coherent =
        set-IsCoherent later v c id a cache s1 pv pc (o a refl ∙ sym (e v c id))
          (view-IsCoherent cache s s1 e h);
    answer = λ b k. o b k;
    same = e;
  }

  expired-IsCoherent :
      (k : Text) (cache : Entries) (s : S)
      → IsCoherent (cache, s)
      → IsCoherent (remove dec_text k cache, s)
  expired-IsCoherent k cache s h = record {
    distinct = Distinct-remove dec_text _ _ h.distinct;
    shown = λ w d j entry pw pd e.
        h.shown w d j entry pw pd
          (ground (arith, lookup-remove dec_text k (cache_key w d j) cache));
  }

  touched-IsCoherent :
      (k : Text) (hit : CacheEntry) (cache : Entries) (s : S)
      → lookup dec_text k cache ≡ some hit
      → IsCoherent (cache, s)
      → IsCoherent (insert dec_text k hit (remove dec_text k cache), s)
  touched-IsCoherent k hit cache s f h = record {
    distinct = Distinct-insert dec_text _ _ _ (Distinct-remove dec_text _ _ h.distinct);
    shown = λ w d j entry pw pd e. h.shown w d j entry pw pd (
        ground (
          arith,
          lookup-insert dec_text k (cache_key w d j) hit (remove dec_text k cache),
          lookup-remove dec_text k (cache_key w d j) cache,
        ));
  }

  cached_lem :
      (now later : ℕ) (v c id : Text) (cache : Entries) (s : S) (o : Option CacheEntry)
      → IsPlain v
      → IsPlain c
      → IsCoherent (cache, s)
      → lookup dec_text (cache_key v c id) cache ≡ o
      → Reads v c id s (
          Cache.after_cached opts next later v c id s
            (Cache.from_entry opts now (cache_key v c id) cache o))
  unfolding Cache.after_cached Cache.from_entry
  cached_lem now later v c id cache s none pv pc h f =
      let (s1, out) = next.get v c id s in
      after_read_lem later v c id cache s s1 out pv pc (λ w d j. l.get_view v c id w d j s)
        (l.get_ok v c id s) h
  cached_lem now later v c id cache s (some entry) pv pc h f =
      elim (Bool-cases (Cache.is_expired opts now entry)) [
        | inl old ↦
            let (s1, out) = next.get v c id s in
            rw old (
              after_read_lem later v c id (remove dec_text (cache_key v c id) cache) s s1 out pv pc
                (λ w d j. l.get_view v c id w d j s) (l.get_ok v c id s)
                (expired-IsCoherent (cache_key v c id) cache s h))
        | inr live ↦ rw live (record {
          coherent = touched-IsCoherent (cache_key v c id) entry cache s f h;
          answer = λ o e. ground (arith, e, h.shown v c id entry pv pc f);
          same = λ w d j. refl;
        })
      ]

  -- From a coherent cache and for names without NUL, a read through the cache answers what the
  -- store shows, keeps the cache coherent and changes no record.
  pub get_cached_lem :
      (now later : ℕ) (v c id : Text) (cache : Entries) (s : S)
      → IsPlain v
      → IsPlain c
      → IsCoherent (cache, s)
      → Reads v c id s (Cache.get opts next now later v c id (cache, s))
  unfolding Cache.get Cache.get_from_cache
  get_cached_lem now later v c id cache s pv pc h =
      cached_lem now later v c id cache s (lookup dec_text (cache_key v c id) cache) pv pc h refl

  -- From a coherent cache, a put through the cache does to the records what the store's put does,
  -- and keeps the cache coherent, whether it settles or throws.
  pub put_cached_lem :
      (later : ℕ) (v c id : Text) (env : Envelope) (expected : Option ℕ) (cache : Entries) (s : S)
      → IsPlain v
      → IsPlain c
      → IsCoherent (cache, s)
      → IsCoherent (Cache.put opts next later v c id env expected (cache, s)).0
        × ((Cache.put opts next later v c id env expected (cache, s)).1
            ≡ (next.put v c id env expected s).1)
        × ((Cache.put opts next later v c id env expected (cache, s)).0.1
            ≡ (next.put v c id env expected s).0)
  unfolding Cache.put Cache.after_write
  put_cached_lem later v c id env expected cache s pv pc h =
      let (s1, out) = next.put v c id env expected s in
      written later v c id env (remove dec_text (cache_key v c id) cache) s1 out pv pc
        (λ u e. ground (arith, l.put_view v c id env expected v c id s, e))
        (remove-IsCoherent v c id (some env) cache s s1 out
          (λ w d j. l.put_view v c id env expected w d j s) h)
    where
      written :
          (later : ℕ) (v c id : Text) (env : Envelope) (cache : Entries) (s1 : S)
          (out : Outcome StoreError Unit)
          → IsPlain v
          → IsPlain c
          → ((u : Unit) → out ≡ ok u → some env ≡ l.view v c id s1)
          → IsCoherent (cache, s1)
          → IsCoherent (Cache.after_write opts next later (cache_key v c id) env cache (s1, out)).0
            × ((Cache.after_write opts next later (cache_key v c id) env cache (s1, out)).1 ≡ out)
            × ((Cache.after_write opts next later (cache_key v c id) env cache (s1, out)).0.1 ≡ s1)
      written later v c id env cache s1 (thrown x) pv pc e h = (h, refl, refl)
      written later v c id env cache s1 (ok u) pv pc e h =
          (set-IsCoherent later v c id (some env) cache s1 pv pc (e u refl) h, refl, refl)

  -- So does a delete.
  pub delete_cached_lem :
      (v c id : Text) (cache : Entries) (s : S)
      → IsCoherent (cache, s)
      → IsCoherent (Cache.delete opts next v c id (cache, s)).0
        × ((Cache.delete opts next v c id (cache, s)).1 ≡ (next.delete v c id s).1)
        × ((Cache.delete opts next v c id (cache, s)).0.1 ≡ (next.delete v c id s).0)
  unfolding Cache.delete
  delete_cached_lem v c id cache s h = (
    remove-IsCoherent v c id none cache s _ _ (λ w d j. l.delete_view v c id w d j s) h,
    refl,
    refl,
  )
