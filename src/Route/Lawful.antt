-- ===== src/Route/Lawful.antt =====
-- The routing store without tiers keeps the contract of a store.
use noydb.Base.{
  Bool, true, false, if◌then◌else◌, ℕ, ◌≡◌, ◌≢◌, ◌∙◌, sym, refl, ap, Option, none, some, [], lookup,
  Text, dec_text,
}
use noydb.Store.{Envelope, StoreError, Outcome, ok, thrown, NoydbStore, IsLawful}
use noydb.Indexes
use noydb.Route.{
  is_blob_chunks, RouteOptions, BlobsOption, BlobStoreRoute, no_blobs, simple, tiered, QueuedWrite,
  Router, backend, route_name_for, configured_store, store_for, maybe_queue_write, cold_of,
  cold_for_read,
}
use noydb.Route.Destination.{BelongsTo, overridden, configured_store-BelongsTo}
use noydb.Route.Methods
use noydb.Route.Snapshots
use noydb.Route.Methods.{size_route, tier_of}
use noydb.Route.Apart.{AreApart, view_of, get_view_of, put_view_of, delete_view_of}

-- No record has a second store, and no route is suspended.
pub record IsPlain (opts : RouteOptions) (r : Router) : Type 0 where
  pub no_age : opts.age ≡ none
  pub no_tiers : (t : BlobStoreRoute) → opts.blobs ≢ tiered t
  pub active : r.suspended ≡ []

-- The store of a route that is not suspended.
abbrev pub active_store : RouteOptions → Text → Text → Router → ℕ
active_store opts v c r = elim (lookup dec_text (route_name_for opts v c) r.overrides) [
  | some s ↦ s
  | none ↦ configured_store opts v c r
]

-- The methods, at a router that they leave as it is.
abbrev pub routed : {S : Type 0} → (ℕ → NoydbStore S) → RouteOptions → Router → NoydbStore S
routed stores opts r = record {
  get = λ v c id. Methods.get stores opts v c id r;
  put = λ v c id e expected s. (Methods.put stores opts v c id e expected r s).1;
  delete = λ v c id s. (Methods.delete stores opts v c id r s).1;
  list = λ v c. Methods.list stores opts v c r;
  load_all = Snapshots.load_all stores opts;
  save_all = λ v d. Snapshots.save_all stores opts v d r;
}

store_for_active :
    (opts : RouteOptions) (v c : Text) (r : Router)
    → r.suspended ≡ []
    → store_for opts v c r ≡ backend (active_store opts v c r)
unfolding store_for Indexes.member
store_for_active opts v c r h =
    rw h
      (elim (lookup dec_text (route_name_for opts v c) r.overrides)
        as (λ o.
          (elim o [ some s ↦ backend s | none ↦ backend (configured_store opts v c r) ])
          ≡ backend (elim o [ some s ↦ s | none ↦ configured_store opts v c r ])) [
            | none ↦ refl
            | some s ↦ refl
          ])

pub not_queued :
    (name : Text) (w : QueuedWrite) (r : Router)
    → r.suspended ≡ []
    → maybe_queue_write name w r ≡ none
unfolding maybe_queue_write Indexes.member
not_queued name w r h = rw h refl

no_tier :
    (opts : RouteOptions) (b : BlobsOption) (e : Envelope)
    → ((t : BlobStoreRoute) → b ≢ tiered t)
    → tier_of opts b e ≡ none
no_tier opts no_blobs e h = refl
no_tier opts (simple s) e h = refl
no_tier opts (tiered t) e h = absurd (h t refl)

either_none {ℓ} : {A : Type ℓ} (b : Bool) → (let x : Option A = none in if b then x else x) ≡ none
either_none true = refl
either_none false = refl

no_cold : (opts : RouteOptions) (c : Text) → opts.age ≡ none → cold_of opts c ≡ none
unfolding cold_of
no_cold opts c h = rw h refl

no_size_route :
    (opts : RouteOptions) (c : Text) (e : Envelope)
    → ((t : BlobStoreRoute) → opts.blobs ≢ tiered t)
    → size_route opts c e ≡ none
unfolding size_route
no_size_route opts c e h = rw (no_tier opts opts.blobs e h) (either_none (is_blob_chunks c))

module _ {S : Type 0} (stores : ℕ → NoydbStore S) (opts : RouteOptions) (r : Router)
    (p : IsPlain opts r) where
  get_plain :
      (v c id : Text) (s : S)
      → Methods.get stores opts v c id r s ≡ (stores (active_store opts v c r)).get v c id s
  unfolding Methods.get cold_for_read Methods.after_hot
  get_plain v c id s = rw (store_for_active opts v c r p.active) (rw p.no_age refl)

  put_now_plain :
      (v c id : Text) (e : Envelope) (expected : Option ℕ) (s : S)
      → Methods.put_now stores opts v c id e expected r s
        ≡ (stores (active_store opts v c r)).put v c id e expected s
  unfolding Methods.put_now Methods.drop_cold
  put_now_plain v c id e expected s =
      rw (no_size_route opts c e p.no_tiers, Methods.put_now)
        (rw (store_for_active opts v c r p.active) (rw (no_cold opts c p.no_age) refl))

  pub put_plain :
      (v c id : Text) (e : Envelope) (expected : Option ℕ) (s : S)
      → (Methods.put stores opts v c id e expected r s).1
        ≡ (stores (active_store opts v c r)).put v c id e expected s
  unfolding Methods.put Methods.unless_queued
  put_plain v c id e expected s =
      ap
        (λ o.
          (Methods.unless_queued stores opts r s o
            (Methods.put_now stores opts v c id e expected r s)).1)
        (not_queued (route_name_for opts v c) _ r p.active)
      ∙ put_now_plain v c id e expected s

  settled :
      (v c id : Text) (q : S × Outcome StoreError Unit)
      → Methods.after_delete stores opts none v c id q ≡ q
  unfolding Methods.after_delete Methods.drop_cold
  settled v c id (s, ok tt) = refl
  settled v c id (s, thrown x) = refl

  pub delete_plain :
      (v c id : Text) (s : S)
      → (Methods.delete stores opts v c id r s).1
        ≡ (stores (active_store opts v c r)).delete v c id s
  unfolding Methods.delete Methods.unless_queued Methods.delete_now
  delete_plain v c id s =
      ap
        (λ o.
          (Methods.unless_queued stores opts r s o (Methods.delete_now stores opts v c id r s)).1)
        (not_queued (route_name_for opts v c) _ r p.active)
      ∙ rw (store_for_active opts v c r p.active) (
          rw (no_cold opts c p.no_age)
            (settled v c id ((stores (active_store opts v c r)).delete v c id s)))

  belongs : (v c : Text) → BelongsTo opts v c r (active_store opts v c r)
  belongs v c =
      elim (lookup dec_text (route_name_for opts v c) r.overrides)
          as (λ o.
            lookup dec_text (route_name_for opts v c) r.overrides ≡ o
            → BelongsTo opts v c r (elim o [ some s ↦ s | none ↦ configured_store opts v c r ])) [
              | none ↦ λ e. configured_store-BelongsTo opts v c r e
              | some k ↦ λ e. overridden k e
            ]
        refl

  -- Over stores that keep the contract and are apart, with no age tiering, no size tiering and no
  -- suspended route, the routing store keeps the contract, and for every vault and collection there
  -- is the one store where its records belong by the options and the overrides, and a record is what
  -- that store shows.
  pub routed-IsLawful :
      (l : AreApart stores)
      → (law : IsLawful (routed stores opts r)) × ((w d : Text)
          → (k : ℕ) × BelongsTo opts w d r k
            × ((j : Text) (s : S) → IsLawful.view law w d j s ≡ view_of l k w d j s))
  routed-IsLawful l =
      let law : IsLawful (routed stores opts r) = record {
        view = λ w d j. view_of l (active_store opts w d r) w d j;
        get_view = λ v c id w d j s.
            rw (get_plain v c id s)
              (get_view_of l (active_store opts w d r) (active_store opts v c r) v c id w d j s);
        get_ok = λ v c id s o h.
            IsLawful.get_ok (l.lawful (active_store opts v c r)) v c id s o
              (sym (ap (λ q. q.1) (get_plain v c id s)) ∙ h);
        put_view = λ v c id e expected w d j s. rw (put_plain v c id e expected s) (
            put_view_of l (active_store opts w d r) (active_store opts v c r) v c id e expected w d
              j s
              (λ x y. ap (λ z. active_store opts z d r) x ∙ ap (λ z. active_store opts v z r) y));
        delete_view = λ v c id w d j s. rw (delete_plain v c id s) (
            delete_view_of l (active_store opts w d r) (active_store opts v c r) v c id w d j s
              (λ x y. ap (λ z. active_store opts z d r) x ∙ ap (λ z. active_store opts v z r) y));
      } in
      (law, λ w d. (active_store opts w d r, belongs w d, λ j s. refl))
