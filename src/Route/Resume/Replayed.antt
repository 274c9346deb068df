-- ===== src/Route/Resume/Replayed.antt =====
-- A route that was suspended with a queue and resumed is where it would be without.
use noydb.Base.{
  ◌≡◌, ◌∙◌, sym, refl, ap, ℕ, ◌≤◌, ◌-◌, drop, suc, true, false, Option, none, some, List, [], ◌∷◌,
  map, length, lookup, Text, dec_text, All, arith, if_pos,
}
use noydb.Dict.{insert, remove, lookup-insert, remove_absent}
use noydb.Store.{Envelope, StoreError, Outcome, ok, thrown, NoydbStore}
use noydb.Indexes.{member, set_add, set_delete}
use noydb.Route.{
  RouteOptions, Router, QueuedWrite, WriteQueue, SuspendOptions, suspend, or_else, route_name_for,
  configured_store, resolve_original_store,
}
use noydb.Route.Methods
use noydb.Route.Lawful.{IsPlain, active_store, put_plain, delete_plain, not_queued}
use noydb.Route.Resume.{count_replayed, replay_put, replay_method, replay, replay_queue, resume}
use noydb.Route.Resume.Names.{HasClearNames, configured_store_lem}
use noydb.Route.Resume.Queued.{
  Write, put_of, delete_of, queued, route_of, trim, with_queue, holding, perform, perform_all,
  perform_all_lem,
}

counted :
    {S : Type 0} (stores : ℕ → NoydbStore S) (k : ℕ) (p : S × Outcome StoreError Unit)
    → (count_replayed stores k p).0 ≡ p.0
unfolding count_replayed
counted stores k (s, ok u) = refl
counted stores k (s, thrown x) = refl

remove-insert :
    {V : Type 0} (k : Text) (v : V) (l : List (Text × V))
    → remove dec_text k (insert dec_text k v l) ≡ remove dec_text k l
unfolding remove insert
remove-insert k v [] = ground arith
remove-insert k v (e ∷ l) = ground (arith, remove-insert k v l)

length-queued : (ws : List Write) → length (map queued ws) ≡ length ws
length-queued [] = refl
length-queued (w ∷ ws) = ap suc (length-queued ws)

trim_all : (m : ℕ) (ws : List Write) → length ws ≤ m → trim m (map queued ws) ≡ map queued ws
trim_all m ws h =
    let e : length (map queued ws) - m ≡ 0 = omega (arith, length-queued ws) in
    ap (λ k. drop k (map queued ws)) e

names_back : (n : Text) (l : List Text) → l ≡ [] → set_delete n (set_add n l) ≡ l
unfolding set_delete set_add member
names_back n l h = rw h (ground arith)

-- What `resume` leaves of the router and of the stores.
abbrev pub resumed :
    {S : Type 0} → (ℕ → NoydbStore S) → RouteOptions → Text → Router × S → Router × S
resumed stores opts n p = let (r2, s2, k) = resume stores opts n p.0 p.1 in (r2, s2)

module _ {S : Type 0} (stores : ℕ → NoydbStore S) (opts : RouteOptions) (r : Router)
    (plain : IsPlain opts r) where
  -- The store of a route that is not suspended, from the name of the route.
  abbrev target_of : Text → ℕ
  target_of name = or_else (lookup dec_text name r.overrides) (resolve_original_store opts name)

  put_router :
      (v c id : Text) (e : Envelope) (expected : Option ℕ) (s : S)
      → (Methods.put stores opts v c id e expected r s).0 ≡ r
  unfolding Methods.put Methods.unless_queued
  put_router v c id e expected s =
      ap
        (λ o.
          (Methods.unless_queued stores opts r s o
            (Methods.put_now stores opts v c id e expected r s)).0)
        (not_queued (route_name_for opts v c) _ r plain.active)

  delete_router : (v c id : Text) (s : S) → (Methods.delete stores opts v c id r s).0 ≡ r
  unfolding Methods.delete Methods.unless_queued
  delete_router v c id s =
      ap
        (λ o.
          (Methods.unless_queued stores opts r s o (Methods.delete_now stores opts v c id r s)).0)
        (not_queued (route_name_for opts v c) _ r plain.active)

  module _ (clear : HasClearNames opts) (low : r.quota_exceeded ≡ false) where
    active_target : (v c : Text) → active_store opts v c r ≡ target_of (route_name_for opts v c)
    active_target v c =
        elim (lookup dec_text (route_name_for opts v c) r.overrides)
          as (λ o.
            (elim o [ some t ↦ t | none ↦ configured_store opts v c r ])
            ≡ or_else o (resolve_original_store opts (route_name_for opts v c))) [
              | some t ↦ refl
              | none ↦ configured_store_lem opts r clear low v c
            ]

    -- A write on a route that is not suspended is what its replay would be.
    perform_active :
        (w : Write) (k : ℕ) (s : S)
        → perform stores opts w r s ≡ (
          r,
          (replay_method stores (target_of (route_of opts w)) (queued w) (queued w).method k s).0,
        )
    unfolding replay_method replay_put
    perform_active (put_of v c id e expected) k s =
        ap (λ x. (x, (Methods.put stores opts v c id e expected r s).1.0))
          (put_router v c id e expected s)
        ∙ ap (λ x. (r, x))
            (ap (λ p. p.0) (put_plain stores opts r plain v c id e expected s)
              ∙ ap (λ t. ((stores t).put v c id e expected s).0) (active_target v c)
              ∙ sym (counted stores k _))
    perform_active (delete_of v c id) k s =
        ap (λ x. (x, (Methods.delete stores opts v c id r s).1.0)) (delete_router v c id s)
        ∙ ap (λ x. (r, x))
            (ap (λ p. p.0) (delete_plain stores opts r plain v c id s)
              ∙ ap (λ t. ((stores t).delete v c id s).0) (active_target v c)
              ∙ sym (counted stores k _))

    perform_all_active :
        (n : Text) (ws : List Write) (k : ℕ) (s : S)
        → All (λ w. route_of opts w ≡ n) ws
        → perform_all stores opts ws r s ≡ (r, (replay stores (target_of n) (map queued ws) k s).0)
    unfolding replay
    perform_all_active n [] k s a = refl
    perform_all_active n (w ∷ ws) k s a =
        let p = replay_method stores (target_of n) (queued w) (queued w).method k s in
        ap (λ x. perform_all stores opts ws x.0 x.1)
          (perform_active w k s
            ∙ ap (λ z. (r, (replay_method stores (target_of z) (queued w) (queued w).method k s).0))
                a.0)
        ∙ perform_all_active n ws p.1 p.0 a.1

    -- The router with the route suspended, and a queue for it.
    abbrev waiting : Text → WriteQueue → ℕ → Router
    waiting n q m = with_queue n q (suspend n (record { queue = true; max_queue_size = some m }) r)

    member-suspend :
        (n : Text) (m : ℕ)
        → member n (suspend n (record { queue = true; max_queue_size = some m }) r).suspended ≡ true
    unfolding suspend set_add member
    member-suspend n m = rw plain.active (ground arith)

    lookup-suspend :
        (n : Text) (m : ℕ)
        → lookup dec_text n
            (suspend n (record { queue = true; max_queue_size = some m }) r).write_queues
          ≡ some (record { writes = []; max_size = m })
    unfolding suspend
    lookup-suspend n m =
        lookup-insert dec_text n n _ r.write_queues ∙ if_pos (dec_text n n) refl _ _

    -- To suspend and resume leaves the router as it was.
    back :
        (n : Text) (q : WriteQueue) (m : ℕ)
        → lookup dec_text n r.write_queues ≡ none
        → record (waiting n q m) {
          suspended = set_delete n (waiting n q m).suspended;
          write_queues = remove dec_text n (waiting n q m).write_queues;
        }
          ≡ r
    unfolding suspend
    back n q m h =
        let e1 : set_delete n (set_add n r.suspended) ≡ r.suspended =
          names_back n r.suspended plain.active in
        let e2 : remove dec_text n (waiting n q m).write_queues ≡ r.write_queues =
          remove-insert n q _
          ∙ remove-insert n _ r.write_queues
          ∙ remove_absent dec_text n r.write_queues h in
        ap
          (λ x. record r {
            suspended = x;
            write_queues = remove dec_text n (waiting n q m).write_queues;
          })
          e1
        ∙ ap (λ x. record r { write_queues = x }) e2

    resumed_lem :
        (n : Text) (q : WriteQueue) (m : ℕ) (l : List QueuedWrite) (s : S)
        → lookup dec_text n r.write_queues ≡ none
        → q.writes ≡ l
        → resumed stores opts n (waiting n q m, s) ≡ (r, (replay stores (target_of n) l 0 s).0)
    unfolding resume replay_queue
    resumed_lem n q m l s h e =
        ap
          (λ x.
            let (r2, s2, k) =
              replay_queue stores opts n x s (lookup dec_text n (waiting n q m).write_queues) in
            (let p : Router × S = (r2, s2) in p))
          (back n q m h)
        ∙ ap
            (λ o.
              let (r2, s2, k) = replay_queue stores opts n r s o in
              (let p : Router × S = (r2, s2) in p))
            (lookup-insert dec_text n n q _ ∙ if_pos (dec_text n n) refl _ _)
        ∙ ap (λ x. (r, (replay stores (target_of n) x 0 s).0)) e

    -- Without tiers, where every route has a name of its own, no route is suspended and the route
    -- has no queue that was left over: to suspend that route with a queue, to make writes on it, no
    -- more than the queue can hold, and to resume it leaves the router and every store as the same
    -- writes do without the suspension.
    pub resume_lem :
        (n : Text) (ws : List Write) (m : ℕ) (s : S)
        → All (λ w. route_of opts w ≡ n) ws
        → lookup dec_text n r.write_queues ≡ none
        → 1 ≤ m
        → length ws ≤ m
        → resumed stores opts n (
            perform_all stores opts ws
              (suspend n (record { queue = true; max_queue_size = some m }) r)
              s)
          ≡ perform_all stores opts ws r s
    resume_lem n ws m s a f h g =
        let q : WriteQueue = record { writes = []; max_size = m } in
        let o : SuspendOptions = record { queue = true; max_queue_size = some m } in
        ap (resumed stores opts n) (
          perform_all_lem stores opts n ws q (suspend n o r) s a (member-suspend n m)
            (lookup-suspend n m) h (omega arith))
        ∙ resumed_lem n (holding q (map queued ws)) m (map queued ws) s f (trim_all m ws g)
        ∙ sym (perform_all_active n ws 0 s a)
