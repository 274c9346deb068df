-- ===== src/Route/Destination.antt =====
-- Where a record belongs, by the options and the overrides alone: the order in which an override, a
-- vault route, a collection route, the store of the blobs, the overflow store and the default store
-- are taken.
use mathlib.Core.Path.{subst}
use noydb.Base.{
  ℕ, ◌≡◌, ◌↔◌, sym, refl, ap, ◌⊎◌, inl, inr, ◌||◌, ◌&&◌, if◌then◌else◌, Bool, true, false,
  Bool-cases, Option, none, some, List, [], ◌∷◌, ◌++◌, lookup, Text, codes, dec_text, starts_with,
  All, arith,
}
use noydb.Memory.{is_internal}
use noydb.Route.{
  RouteOptions, BlobsOption, no_blobs, simple, tiered, Router, or_else, first_of, is_blob_chunks,
  is_blob_meta, matched_route, blob_store, collection_route, blob_route, route_name_for,
  overflow_store, configured_store,
}

-- The first vault route whose prefix the vault starts with, or none.
abbrev pub Matched : Text → List (Text × ℕ) → Option (Text × ℕ) → Type 0
Matched v l none = All (λ e. starts_with e.0 v ≡ false) l
Matched v l (some e) =
    (before : List (Text × ℕ)) × (after : List (Text × ℕ)) × (l ≡ before ++ e ∷ after)
    × (starts_with e.0 v ≡ true)
    × All (λ f. starts_with f.0 v ≡ false) before

module _ (opts : RouteOptions) (v c : Text) (r : Router) where
  abbrev pub NotOverridden : Type 0
  NotOverridden = lookup dec_text (route_name_for opts v c) r.overrides ≡ none

  abbrev pub NoVaultRoute : Type 0
  NoVaultRoute = Matched v opts.vault_routes none

  abbrev pub NoCollectionRoute : Type 0
  NoCollectionRoute = (is_internal c ≡ true) ⊎ (lookup dec_text c opts.routes ≡ none)

  abbrev pub IsBlobs : Type 0
  IsBlobs = (c ≡ codes "_blob_chunks") ⊎ ((opts.route_blob_meta ≡ true) × (is_blob_meta c ≡ true))

  abbrev pub NoBlobRoute : Type 0
  NoBlobRoute = (IsBlobs → ⊥) ⊎ (opts.blobs ≡ no_blobs)

  -- The store of a record in the collection.
  pub data BelongsTo : ℕ → Type 0 where
    overridden :
        (k : ℕ) → lookup dec_text (route_name_for opts v c) r.overrides ≡ some k → BelongsTo k
    by_vault :
        (prefix : Text) (k : ℕ)
        → NotOverridden
        → Matched v opts.vault_routes (some (prefix, k))
        → BelongsTo k
    by_collection :
        (k : ℕ)
        → NotOverridden
        → NoVaultRoute
        → is_internal c ≡ false
        → lookup dec_text c opts.routes ≡ some k
        → BelongsTo k
    by_blobs :
        (k : ℕ)
        → NotOverridden
        → NoVaultRoute
        → NoCollectionRoute
        → IsBlobs
        → blob_store opts.blobs ≡ some k
        → BelongsTo k
    by_overflow :
        (k : ℕ)
        → NotOverridden
        → NoVaultRoute
        → NoCollectionRoute
        → NoBlobRoute
        → r.quota_exceeded ≡ true
        → opts.overflow ≡ some k
        → BelongsTo k
    by_default :
        (k : ℕ)
        → NotOverridden
        → NoVaultRoute
        → NoCollectionRoute
        → NoBlobRoute
        → (r.quota_exceeded ≡ false) ⊎ (opts.overflow ≡ none)
        → k ≡ opts.default_store
        → BelongsTo k

Matched-cons :
    (v : Text) (e : Text × ℕ) (l : List (Text × ℕ)) (o : Option (Text × ℕ))
    → starts_with e.0 v ≡ false
    → Matched v l o
    → Matched v (e ∷ l) o
Matched-cons v e l none h m = (h, m)
Matched-cons v e l (some f) h (before, after, same, starts, all) =
    (e ∷ before, after, ap (λ z. e ∷ z) same, starts, (h, all))

matched_route-Matched : (v : Text) (l : List (Text × ℕ)) → Matched v l (matched_route v l)
unfolding matched_route
matched_route-Matched v [] = tt
matched_route-Matched v (e ∷ l) = elim (Bool-cases (starts_with e.0 v)) [
  | inl t ↦
      subst (λ b. Matched v (e ∷ l) (if b then some e else matched_route v l)) (sym t)
        ([], l, refl, t, tt)
  | inr f ↦
      subst (λ b. Matched v (e ∷ l) (if b then some e else matched_route v l)) (sym f)
        (Matched-cons v e l (matched_route v l) f (matched_route-Matched v l))
]

module _ (opts : RouteOptions) (v c : Text) (r : Router) where
  abbrev CollectionAt : Option ℕ → Type 0
  CollectionAt none = NoCollectionRoute opts v c r
  CollectionAt (some k) = (is_internal c ≡ false) × (lookup dec_text c opts.routes ≡ some k)

  collection_cases : (o : Option ℕ) → collection_route opts c ≡ o → CollectionAt o
  unfolding collection_route
  collection_cases none h = elim (Bool-cases (is_internal c)) [
    | inl t ↦ inl t
    | inr f ↦ inr (ground (arith, h, f))
  ]
  collection_cases (some k) h = elim (Bool-cases (is_internal c)) [
    | inl t ↦ absurd (ground (arith, h, t))
    | inr f ↦ (f, ground (arith, h, f))
  ]

  chunks_iff : (is_blob_chunks c ≡ true) ↔ (c ≡ codes "_blob_chunks")
  unfolding is_blob_chunks
  chunks_iff = (λ h. ground (arith, h), λ h. ground (arith, h))

  abbrev BlobAt : Option ℕ → Type 0
  BlobAt none = NoBlobRoute opts v c r
  BlobAt (some k) = IsBlobs opts v c r × (blob_store opts.blobs ≡ some k)

  no_store : (b : BlobsOption) → blob_store b ≡ none → b ≡ no_blobs
  unfolding blob_store
  no_store no_blobs h = refl
  no_store (simple s) h = cc
  no_store (tiered t) h = cc

  meta_at :
      (o : Option ℕ) (m q : Bool)
      → is_blob_chunks c ≡ false
      → opts.route_blob_meta ≡ m
      → is_blob_meta c ≡ q
      → (if m && q then blob_store opts.blobs else none) ≡ o
      → BlobAt o
  meta_at none true true f a b h = inr (no_store opts.blobs h)
  meta_at (some k) true true f a b h = (inr (a, b), h)
  meta_at none true false f a b h = inl (λ z. elim z [
    | inl x ↦ absurd (ground (arith, f, chunks_iff.1 x))
    | inr y ↦ absurd (ground (arith, b, y.1))
  ])
  meta_at (some k) true false f a b h = cc
  meta_at none false q f a b h = inl (λ z. elim z [
    | inl x ↦ absurd (ground (arith, f, chunks_iff.1 x))
    | inr y ↦ absurd (ground (arith, a, y.0))
  ])
  meta_at (some k) false q f a b h = cc

  chunks_at :
      (o : Option ℕ) (b : Bool)
      → is_blob_chunks c ≡ b
      → (if b || (opts.route_blob_meta && is_blob_meta c) then blob_store opts.blobs else none) ≡ o
      → BlobAt o
  chunks_at none true e h = inr (no_store opts.blobs h)
  chunks_at (some k) true e h = (inl (chunks_iff.0 e), h)
  chunks_at o false e h = meta_at o opts.route_blob_meta (is_blob_meta c) e refl refl h

  blob_cases : (o : Option ℕ) → blob_route opts c ≡ o → BlobAt o
  unfolding blob_route
  blob_cases o h = chunks_at o (is_blob_chunks c) refl h

  overflow_cases :
      (q : Bool) (o : Option ℕ)
      → NotOverridden opts v c r
      → NoVaultRoute opts v c r
      → NoCollectionRoute opts v c r
      → NoBlobRoute opts v c r
      → r.quota_exceeded ≡ q
      → opts.overflow ≡ o
      → BelongsTo opts v c r (if q then or_else o opts.default_store else opts.default_store)
  overflow_cases true none a b d e f g = by_default _ a b d e (inr g) refl
  overflow_cases true (some k) a b d e f g = by_overflow k a b d e f g
  overflow_cases false o a b d e f g = by_default _ a b d e (inl f) refl

  option_cases :
      (x y : Option ℕ)
      → NotOverridden opts v c r
      → NoVaultRoute opts v c r
      → CollectionAt x
      → BlobAt y
      → BelongsTo opts v c r (or_else (first_of x y) (overflow_store opts r))
  unfolding overflow_store
  option_cases (some k) y a b d e = by_collection k a b d.0 d.1
  option_cases none (some k) a b d e = by_blobs k a b d e.0 e.1
  option_cases none none a b d e = overflow_cases r.quota_exceeded opts.overflow a b d e refl refl

  vault_cases :
      (o : Option (Text × ℕ))
      → NotOverridden opts v c r
      → Matched v opts.vault_routes o
      → BelongsTo opts v c r (elim o [
        | some e ↦ e.1
        | none ↦
            or_else (first_of (collection_route opts c) (blob_route opts c)) (overflow_store opts r)
      ])
  vault_cases (some e) a m = by_vault e.0 e.1 a m
  vault_cases none a m =
      option_cases (collection_route opts c) (blob_route opts c) a m (collection_cases _ refl)
        (blob_cases _ refl)

  pub configured_store-BelongsTo :
      NotOverridden opts v c r → BelongsTo opts v c r (configured_store opts v c r)
  unfolding configured_store
  configured_store-BelongsTo a =
      vault_cases (matched_route v opts.vault_routes) a (matched_route-Matched v opts.vault_routes)
