-- ===== src/Route/Resume/Names.antt =====
-- The store that `storeFor` picks is the one that `resume` finds again by the name of the route.
use mathlib.Core.Path.{subst}
use noydb.Base.{
  if_pos, if_neg, ℕ_discrete, ◌≡◌, ◌∙◌, sym, refl, ap, ℕ, true, false, if◌then◌else◌, Option, none,
  some, is_some, List, [], ◌∷◌, lookup, Text, codes, dec_text, starts_with, All, arith, ite, inl,
  inr, Bool-cases,
}
use noydb.Route.{
  RouteOptions, Router, equals, or_else, first_of, matched_route, collection_route, blob_route,
  blob_store, route_name_for, configured_store, overflow_store, resolve_original_store,
}

-- No two routes are called by one name.
pub record HasClearNames (opts : RouteOptions) : Type 0 where
  pub vaults :
      All
        (λ e.
          (equals e.0 (codes "blobs") ≡ false)
          × (equals e.0 (codes "cold") ≡ false)
          × (lookup dec_text e.0 opts.routes ≡ none))
        opts.vault_routes
  pub blobs_free : lookup dec_text (codes "blobs") opts.routes ≡ none
  pub cold_free : lookup dec_text (codes "cold") opts.routes ≡ none
  pub default_free : lookup dec_text (codes "default") opts.routes ≡ none
  pub default_free' : lookup dec_text (codes "default") opts.vault_routes ≡ none

-- The first route whose prefix fits is the first with its name.
matched_found :
    (P : Text × ℕ → Type 0) (vault : Text) (l : List (Text × ℕ)) (e : Text × ℕ)
    → All P l
    → matched_route vault l ≡ some e
    → P e × (lookup dec_text e.0 l ≡ some e.1) × (starts_with e.0 vault ≡ true)
unfolding matched_route lookup
matched_found P vault [] e a h = absurd (ground (arith, h))
matched_found P vault (x ∷ l) e a h = elim (Bool-cases (starts_with x.0 vault)) [
  | inl t ↦
      let k : Option.some x ≡ some e = rw t at h in
      let same : x ≡ e = ap (λ o. or_else o x) k in
      subst (λ y. P y × (lookup dec_text y.0 (x ∷ l) ≡ some y.1) × (starts_with y.0 vault ≡ true))
        same (a.0, rw (if_pos (dec_text x.0 x.0) refl) refl, t)
  | inr f ↦
      let k : matched_route vault l ≡ some e = rw f at h in
      let (found, there, fits) = matched_found P vault l e a.1 k in
      (
        found,
        rw
            (if_neg (dec_text e.0 x.0)
              (λ p. absurd (ground (arith, sym fits ∙ ap (λ z. starts_with z vault) p ∙ f))))
            there,
        fits,
      )
]

named_apart :
    (l : List (Text × ℕ)) (c n : Text) (k : ℕ)
    → lookup dec_text c l ≡ some k
    → lookup dec_text n l ≡ none
    → equals c n ≡ false
named_apart l c n k h g = elim (dec_text c n) as (λ o. ite o true false ≡ false) [
  | no _ ↦ refl
  | yes p ↦ absurd (ground (arith, sym h ∙ ap (λ z. lookup dec_text z l) p ∙ g))
]

module _ (opts : RouteOptions) (r : Router) (clear : HasClearNames opts)
    (low : r.quota_exceeded ≡ false) where
  vault_lem :
      (vault : Text) (e : Text × ℕ)
      → matched_route vault opts.vault_routes ≡ some e
      → resolve_original_store opts e.0 ≡ e.1
  unfolding resolve_original_store
  vault_lem vault e h =
      let (p, there, fits) = matched_found _ vault opts.vault_routes e clear.vaults h in
      rw p.0 (rw p.1 (rw p.2 (rw there refl)))

  collection_lem :
      (c : Text) (k : ℕ) → collection_route opts c ≡ some k → resolve_original_store opts c ≡ k
  unfolding resolve_original_store collection_route
  collection_lem c k h =
      let there : lookup dec_text c opts.routes ≡ some k = ground (arith, h) in
      rw (named_apart opts.routes c (codes "blobs") k there clear.blobs_free)
        (rw (named_apart opts.routes c (codes "cold") k there clear.cold_free) (rw there refl))

  blob_lem :
      (c : Text) (k : ℕ)
      → blob_route opts c ≡ some k
      → resolve_original_store opts (codes "blobs") ≡ k
  unfolding resolve_original_store blob_route dec_text ℕ_discrete
  blob_lem c k h = let there : blob_store opts.blobs ≡ some k = ground (arith, h) in rw there refl

  default_lem : resolve_original_store opts (codes "default") ≡ opts.default_store
  unfolding resolve_original_store dec_text ℕ_discrete
  default_lem = rw clear.default_free (rw clear.default_free' refl)

  unrouted_lem :
      (c : Text)
      → or_else (first_of (collection_route opts c) (blob_route opts c)) (overflow_store opts r)
        ≡ resolve_original_store opts (
            if is_some (collection_route opts c)
            then c
            else if is_some (blob_route opts c)
            then codes "blobs"
            else codes "default")
  unfolding overflow_store
  unrouted_lem c =
      elim (collection_route opts c)
          as (λ o.
            collection_route opts c ≡ o
            → or_else (first_of o (blob_route opts c)) (overflow_store opts r)
              ≡ resolve_original_store opts (
                  if is_some o
                  then c
                  else if is_some (blob_route opts c)
                  then codes "blobs"
                  else codes "default")) [
                    | some k ↦ λ h. sym (collection_lem c k h)
                    | none ↦ λ h.
                        elim (blob_route opts c)
                            as (λ o.
                              blob_route opts c ≡ o
                              → or_else o (overflow_store opts r)
                                ≡ resolve_original_store opts
                                    (if is_some o then codes "blobs" else codes "default")) [
                                      | some k ↦ λ g. sym (blob_lem c k g)
                                      | none ↦ λ g. rw low (sym default_lem)
                                    ]
                          refl
                  ]
        refl

  -- The store that the options give for a collection of a vault is the one that they give for the
  -- name of its route.
  pub configured_store_lem :
      (vault c : Text)
      → configured_store opts vault c r ≡ resolve_original_store opts (route_name_for opts vault c)
  unfolding configured_store route_name_for
  configured_store_lem vault c =
      elim (matched_route vault opts.vault_routes)
          as (λ o.
            matched_route vault opts.vault_routes ≡ o
            → (elim o [
              | some e ↦ e.1
              | none ↦
                  or_else (first_of (collection_route opts c) (blob_route opts c))
                    (overflow_store opts r)
            ])
              ≡ resolve_original_store opts (elim o [
                | some e ↦ e.0
                | none ↦
                    if is_some (collection_route opts c)
                    then c
                    else if is_some (blob_route opts c)
                    then codes "blobs"
                    else codes "default"
              ])) [ some e ↦ λ h. sym (vault_lem vault e h) | none ↦ λ h. unrouted_lem c ]
        refl
