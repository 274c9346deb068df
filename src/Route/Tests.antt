-- ===== src/Route/Tests.antt =====
-- The routing store over memory stores, and its theorems there.
use noydb.Base.{
  ℕ, ◌≡◌, ◌≢◌, ◌∙◌, refl, true, false, ite, if_neg, if_pos, Option, none, some, List, [], ◌∷◌,
  lookup, Text, codes, dec_text, ℕ_discrete, arith, ap, starts_with,
}
use noydb.Dict.{insert, remove}
use noydb.Store.{Envelope, NoydbStore, IsLawful, ok, VaultSnapshot}
use noydb.Memory
use noydb.Memory.{Memory}
use noydb.Memory.Lawful.{memory-IsLawful}
use noydb.Indexes.{member}
use noydb.Route
use noydb.Route.{
  RouteOptions, Router, AgeRoute, no_blobs, WriteQueue, suspend, store_for, backend, null_store,
  BlobStoreRoute, tiered, simple,
}
use noydb.Route.Methods
use noydb.Route.Apart.{AreApart, view_of}
use noydb.Route.Destination.{BelongsTo}
use noydb.Route.Lawful.{IsPlain, routed, routed-IsLawful}
use noydb.Route.Compact.Kept.{ShowsSame, compact-ShowsSame}
use noydb.Route.Compact.{compact}
use noydb.Route.Snapshots.{merge_snapshots}
use noydb.Store.{Records}
use noydb.Objects.{inherits, is_one_of, plain_nil, plain_cons}
use noydb.Route.Snapshots.Newest.{IsNewest, record_of, merge_snapshots-IsNewest}
use noydb.Route.Resume.Names.{HasClearNames}
use noydb.Route.Resume.Queued.{
  put_of, delete_of, Write, queued, holding, with_queue, perform_all, perform_all_lem,
}
use noydb.Route.Resume.Replayed.{resumed, resume_lem}

-- A memory store for each number.
abbrev Memories : Type 0
Memories = ℕ → Memory

abbrev set_at : ℕ → Memory → Memories → Memories
set_at k m s j = ite (ℕ_discrete j k) m (s j)

abbrev memories : ℕ → NoydbStore Memories
memories k = record {
  get = λ v c id s. (s, ok (Memory.get v c id (s k)));
  put = λ v c id e expected s.
      let (m, out) = Memory.put v c id e expected (s k) in (set_at k m s, out);
  delete = λ v c id s. (set_at k (Memory.delete v c id (s k)) s, ok tt);
  list = λ v c s. (s, ok (Memory.list v c (s k)));
  load_all = λ v s. (s, ok (Memory.load_all v (s k)));
  save_all = λ v d s. (set_at k (Memory.save_all v d (s k)) s, ok tt);
}

set_at_self : (k : ℕ) (m : Memory) (s : Memories) → set_at k m s k ≡ m
set_at_self k m s = if_pos (ℕ_discrete k k) refl _ _

set_at_other : (j k : ℕ) (m : Memory) (s : Memories) → j ≢ k → set_at k m s j ≡ s j
set_at_other j k m s h = if_neg (ℕ_discrete j k) h _ _

abbrev memories-IsLawful : (k : ℕ) → IsLawful (memories k)
memories-IsLawful k =
    let l = memory-IsLawful in
    record {
      view = λ w d j s. IsLawful.view l w d j (s k);
      get_view = λ v c id w d j s. IsLawful.get_view l v c id w d j (s k);
      get_ok = λ v c id s o h. IsLawful.get_ok l v c id (s k) o h;
      put_view = λ v c id e expected w d j s.
          ap (IsLawful.view l w d j) (set_at_self k _ s)
          ∙ IsLawful.put_view l v c id e expected w d j (s k);
      delete_view = λ v c id w d j s.
          ap (IsLawful.view l w d j) (set_at_self k _ s)
          ∙ IsLawful.delete_view l v c id w d j (s k);
    }

memories-AreApart : AreApart memories
memories-AreApart = record {
  lawful = memories-IsLawful;
  get_apart = λ a k v c id w d j s h. refl;
  put_apart = λ a k v c id e expected w d j s h.
      ap (IsLawful.view memory-IsLawful w d j) (set_at_other a k _ s h);
  delete_apart =
      λ a k v c id w d j s h. ap (IsLawful.view memory-IsLawful w d j) (set_at_other a k _ s h);
  list_view = λ a k v c w d j s. refl;
}

abbrev acme : Text
acme = codes "acme"

abbrev notes : Text
notes = codes "notes"

abbrev envelope : ℕ → Text → Envelope
envelope n time = record { noydb = 1; v = n; ts = time; iv = []; data_text = []; by = none }

-- Vaults of the EU are in store 1, invoices in store 2, blobs in store 3.
abbrev options : Option AgeRoute → RouteOptions
options age = record {
  default_store = 0;
  blobs = simple 3;
  route_blob_meta = true;
  routes = (codes "invoices", 2) ∷ [];
  vault_routes = (codes "EU-", 1) ∷ [];
  age = age;
  overflow = none;
  quota_threshold = none;
}

abbrev router : Router
router = record {
  overrides = (codes "invoices", 4) ∷ [];
  suspended = [];
  write_queues = [];
  quota_exceeded = false;
}

abbrev empty : Memories
empty = λ k. []

routed_eu : store_for (options none) (codes "EU-1") notes router ≡ backend 1
unfolding store_for starts_with dec_text ℕ_discrete lookup member
routed_eu = refl

routed_invoices : store_for (options none) acme (codes "invoices") router ≡ backend 4
unfolding store_for starts_with dec_text ℕ_discrete lookup member
routed_invoices = refl

plain : IsPlain (options none) router
plain = record { no_age = refl; no_tiers = λ t h. cc; active = refl }

routed-IsLawful_example :
    (law : IsLawful (routed memories (options none) router)) × ((w d : Text)
      → (k : ℕ) × BelongsTo (options none) w d router k
        × ((j : Text) (s : Memories)
            → IsLawful.view law w d j s ≡ view_of memories-AreApart k w d j s))
routed-IsLawful_example = routed-IsLawful memories (options none) router plain memories-AreApart

-- The store with number 5 is cold.
abbrev aged : AgeRoute
aged = record { cold = 5; cold_after_days = 30; collections = notes ∷ [] }

abbrev stored : Memories
stored = set_at 0 ((acme, (notes, (codes "a", envelope 1 (codes "1")) ∷ []) ∷ []) ∷ []) empty

compact-ShowsSame_example :
    ShowsSame memories-AreApart 0 5 stored
      (compact memories (options (some aged)) (λ t. some 0) 5000000000 acme stored).0
compact-ShowsSame_example =
    compact-ShowsSame memories-AreApart (options (some aged)) (λ t. some 0) 5000000000 aged
      (λ h. absurd (omega (arith, h))) acme stored refl

-- What moved is in the cold store alone.
compact_run :
    (let (s, out) = compact memories (options (some aged)) (λ t. some 0) 5000000000 acme stored in
      let both : Option Envelope × Option Envelope =
        (Memory.get acme notes (codes "a") (s 0), Memory.get acme notes (codes "a") (s 5)) in
      both)
    ≡ (none, some (envelope 1 (codes "1")))
unfolding compact Memory.get Memory.put Memory.delete Memory.list insert lookup dec_text ℕ_discrete
    starts_with member remove Memory.set_in
compact_run = refl

abbrev first : Records
first = (codes "a", envelope 1 (codes "1")) ∷ []

abbrev second : Records
second = (codes "a", envelope 2 (codes "2")) ∷ (codes "b", envelope 1 (codes "1")) ∷ []

abbrev snapshots : List VaultSnapshot
snapshots = ((notes, first) ∷ []) ∷ ((notes, second) ∷ []) ∷ []

clear_keys :
    (inherits notes ≡ false) × (inherits (codes "a") ≡ false) × (inherits (codes "b") ≡ false)
unfolding inherits is_one_of dec_text ℕ_discrete
clear_keys = (refl, refl, refl)

merge_snapshots-IsNewest_example :
    IsNewest notes (codes "a") snapshots (record_of notes (codes "a") (merge_snapshots snapshots))
unfolding lookup dec_text ℕ_discrete
merge_snapshots-IsNewest_example = merge_snapshots-IsNewest notes (codes "a") snapshots (
  (
    (refl, tt),
    plain_cons (notes, first) [] clear_keys.0 plain_nil,
    (((refl, tt), plain_cons (codes "a", envelope 1 (codes "1")) [] clear_keys.1 plain_nil), tt),
  ),
  (
    (
      (refl, tt),
      plain_cons (notes, second) [] clear_keys.0 plain_nil,
      (
        (
          (refl, (refl, tt)),
          plain_cons (codes "a", envelope 2 (codes "2")) ((codes "b", envelope 1 (codes "1")) ∷ [])
              clear_keys.1
              (plain_cons (codes "b", envelope 1 (codes "1")) [] clear_keys.2 plain_nil),
        ),
        tt,
      ),
    ),
    tt,
  ),
)

clear : HasClearNames (options none)
unfolding lookup dec_text ℕ_discrete
clear = record {
  vaults = ((refl, refl, refl), tt);
  blobs_free = refl;
  cold_free = refl;
  default_free = refl;
  default_free' = refl;
}

abbrev writes : List Write
writes =
    put_of acme (codes "invoices") (codes "a") (envelope 1 (codes "1")) none
    ∷ delete_of acme (codes "invoices") (codes "b")
    ∷ []

resume_lem_example :
    resumed memories (options none) (codes "invoices") (
      perform_all memories
        (options none)
        writes
        (suspend (codes "invoices") (record { queue = true; max_queue_size = some 2 }) router)
        stored)
    ≡ perform_all memories (options none) writes router stored
unfolding Route.route_name_for dec_text ℕ_discrete starts_with lookup
resume_lem_example =
    resume_lem memories (options none) router plain clear refl (codes "invoices") writes 2 stored
      (refl, (refl, tt)) refl (omega arith) (omega arith)

-- The chunk of a small blob goes to the default store, and is looked for in the large one.
abbrev by_size : RouteOptions
by_size = record (options none) {
  blobs = tiered (record { small = none; large = 3; threshold = none });
}

small_chunk :
    Methods.get memories by_size acme
      (codes "_blob_chunks")
      (codes "a")
      router
      (Methods.put memories by_size acme
        (codes "_blob_chunks")
        (codes "a")
        (envelope 1 [])
        none
        router
        empty).1.0
    ≡ (
      (Methods.put memories by_size acme
          (codes "_blob_chunks")
          (codes "a")
          (envelope 1 [])
          none
          router
          empty).1.0,
      ok none,
    )
unfolding Methods.get Methods.put Memory.get Memory.put insert lookup dec_text ℕ_discrete
    starts_with member remove Memory.set_in
small_chunk = refl

abbrev queue : WriteQueue
queue = record { writes = []; max_size = 1 }

abbrev suspended : Router
suspended =
    with_queue (codes "invoices") queue (record router { suspended = codes "invoices" ∷ [] })

-- The queue holds the delete alone.
perform_all_lem_example : perform_all memories (options none) writes suspended stored ≡ (
  with_queue
      (codes "invoices")
      (holding queue (
        queued (put_of acme (codes "invoices") (codes "a") (envelope 1 (codes "1")) none)
        ∷ queued (delete_of acme (codes "invoices") (codes "b"))
        ∷ []))
      suspended,
  stored,
)
unfolding Route.route_name_for dec_text ℕ_discrete starts_with lookup member insert
perform_all_lem_example =
    perform_all_lem memories (options none) (codes "invoices") writes queue suspended stored
      (refl, (refl, tt)) refl refl (omega arith) (omega arith)
