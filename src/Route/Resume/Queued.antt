-- ===== src/Route/Resume/Queued.antt =====
-- While a route is suspended with a queue, its writes wait there, the last ones if it is full.
use mathlib.Core.List.{append-nil, append_assoc}
use noydb.Base.{
  ◌≡◌, ◌∙◌, sym, refl, ap, ℕ, ◌-◌, ◌≤◌, true, leb, Bool-cases, inl, inr, Option, none, some, List,
  [], ◌∷◌, ◌++◌, map, length, drop, lookup, Text, dec_text, All, arith, length-append, drop-append,
  drop-drop, length-drop,
}
use noydb.Dict.{insert, lookup-insert, insert-insert, insert_same}
use noydb.Store.{Envelope, NoydbStore}
use noydb.Indexes.{member}
use noydb.Route.{
  RouteOptions, WriteMethod, QueuedWrite, WriteQueue, Router, route_name_for, push_write,
  maybe_queue_write,
}
use noydb.Route.Methods

-- A write that the router is asked for.
pub data Write : Type 0 where
  put_of : Text → Text → Text → Envelope → Option ℕ → Write
  delete_of : Text → Text → Text → Write

abbrev pub queued : Write → QueuedWrite
queued (put_of v c id e expected) = record {
  method = WriteMethod.put;
  vault = v;
  collection = c;
  id = id;
  envelope = some e;
  expected_version = expected;
}
queued (delete_of v c id) = record {
  method = WriteMethod.delete;
  vault = v;
  collection = c;
  id = id;
  envelope = none;
  expected_version = none;
}

abbrev pub route_of : RouteOptions → Write → Text
route_of opts (put_of v c id e expected) = route_name_for opts v c
route_of opts (delete_of v c id) = route_name_for opts v c

-- The end of a list, with so many elements.
abbrev pub trim {ℓ} : {A : Type ℓ} → ℕ → List A → List A
trim n l = drop (length l - n) l

abbrev pub with_queue : Text → WriteQueue → Router → Router
with_queue n q r = record r { write_queues = insert dec_text n q r.write_queues }

abbrev push_all : List Write → WriteQueue → WriteQueue
push_all [] q = q
push_all (w ∷ ws) q = push_all ws (push_write (queued w) q)

module _ {S : Type 0} (stores : ℕ → NoydbStore S) (opts : RouteOptions) where
  -- What a write leaves of the router and of the stores, whatever it settles to.
  abbrev pub perform : Write → Router → S → Router × S
  perform (put_of v c id e expected) r s =
      let (r', p) = Methods.put stores opts v c id e expected r s in (r', p.0)
  perform (delete_of v c id) r s = let (r', p) = Methods.delete stores opts v c id r s in (r', p.0)

  abbrev pub perform_all : List Write → Router → S → Router × S
  perform_all [] r s = (r, s)
  perform_all (w ∷ ws) r s = let (r', s') = perform w r s in perform_all ws r' s'

  module _ (n : Text) where
    queue_write :
        (w : QueuedWrite) (q : WriteQueue) (r : Router)
        → member n r.suspended ≡ true
        → lookup dec_text n r.write_queues ≡ some q
        → maybe_queue_write n w r ≡ some (with_queue n (push_write w q) r)
    unfolding maybe_queue_write
    queue_write w q r h k = rw h (rw k refl)

    perform_queued :
        (w : Write) (q : WriteQueue) (r : Router) (s : S)
        → route_of opts w ≡ n
        → member n r.suspended ≡ true
        → lookup dec_text n r.write_queues ≡ some q
        → perform w r s ≡ (with_queue n (push_write (queued w) q) r, s)
    unfolding Methods.put Methods.delete Methods.unless_queued
    perform_queued (put_of v c id e expected) q r s e' h k =
        ap
          (λ o.
            let (r', p) =
              Methods.unless_queued stores opts r s o
                (Methods.put_now stores opts v c id e expected r s) in
            (r', p.0))
          (ap (λ z. maybe_queue_write z (queued (put_of v c id e expected)) r) e'
            ∙ queue_write (queued (put_of v c id e expected)) q r h k)
    perform_queued (delete_of v c id) q r s e' h k =
        ap
          (λ o.
            let (r', p) =
              Methods.unless_queued stores opts r s o (Methods.delete_now stores opts v c id r s) in
            (r', p.0))
          (ap (λ z. maybe_queue_write z (queued (delete_of v c id)) r) e'
            ∙ queue_write (queued (delete_of v c id)) q r h k)

    with_queue_twice :
        (q p : WriteQueue) (r : Router) → with_queue n q (with_queue n p r) ≡ with_queue n q r
    with_queue_twice q p r =
        ap (λ l. record r { write_queues = l }) (insert-insert dec_text n q p r.write_queues)

    perform_all_queued :
        (ws : List Write) (q : WriteQueue) (r : Router) (s : S)
        → All (λ w. route_of opts w ≡ n) ws
        → member n r.suspended ≡ true
        → lookup dec_text n r.write_queues ≡ some q
        → perform_all ws r s ≡ (with_queue n (push_all ws q) r, s)
    perform_all_queued [] q r s a h k =
        ap (λ l. (record r { write_queues = l }, s))
          (sym (insert_same dec_text n q r.write_queues k))
    perform_all_queued (w ∷ ws) q r s a h k =
        let q' = push_write (queued w) q in
        ap (λ p. perform_all ws p.0 p.1) (perform_queued w q r s a.0 h k)
        ∙ perform_all_queued ws q' (with_queue n q' r) s a.1 h
            (lookup-insert dec_text n n q' r.write_queues ∙ ground arith)
        ∙ ap (λ x. (x, s)) (with_queue_twice (push_all ws q') q' r)

trim-trim {ℓ} : {A : Type ℓ} (m : ℕ) (l ws : List A) → trim m (trim m l ++ ws) ≡ trim m (l ++ ws)
trim-trim m l ws =
    let k = length l - m in
    let x = l ++ ws in
    ap (trim m) (sym (drop-append k l ws (omega arith)))
    ∙ drop-drop (length (drop k x) - m) k x
    ∙ ap (λ z. drop z x) (omega (arith, length-drop k x, length-append l ws))

push_write_lem :
    (w : QueuedWrite) (q : WriteQueue)
    → 1 ≤ q.max_size
    → length q.writes ≤ q.max_size
    → (push_write w q).writes ≡ trim q.max_size (q.writes ++ w ∷ [])
unfolding push_write
push_write_lem w q h k = elim (Bool-cases (leb q.max_size (length q.writes))) [
  | inl full ↦
      let e : 1 ≡ length (q.writes ++ w ∷ []) - q.max_size =
        ground (arith, length-append q.writes (w ∷ [])) in
      rw full (
        sym (drop-append 1 q.writes (w ∷ []) (ground arith))
        ∙ ap (λ z. drop z (q.writes ++ w ∷ [])) e)
  | inr room ↦
      let e : 0 ≡ length (q.writes ++ w ∷ []) - q.max_size =
        ground (arith, length-append q.writes (w ∷ [])) in
      rw room (ap (λ z. drop z (q.writes ++ w ∷ [])) e)
]

-- The queue with the last writes of these, as many as it holds.
abbrev pub holding : WriteQueue → List QueuedWrite → WriteQueue
holding q l = record q { writes = trim q.max_size l }

push_write-holding :
    (w : QueuedWrite) (q : WriteQueue)
    → 1 ≤ q.max_size
    → length q.writes ≤ q.max_size
    → push_write w q ≡ holding q (q.writes ++ w ∷ [])
unfolding push_write
push_write-holding w q h k = ap (λ l. record q { writes = l }) (push_write_lem w q h k)

push_all_lem :
    (ws : List Write) (q : WriteQueue)
    → 1 ≤ q.max_size
    → length q.writes ≤ q.max_size
    → push_all ws q ≡ holding q (q.writes ++ map queued ws)
push_all_lem [] q h k =
    let e : 0 ≡ length (q.writes ++ []) - q.max_size = omega (arith, length-append q.writes []) in
    ap (λ l. record q { writes = l })
      (sym (append-nil q.writes) ∙ ap (λ z. drop z (q.writes ++ [])) e)
push_all_lem (w ∷ ws) q h k =
    let l = q.writes ++ queued w ∷ [] in
    ap (push_all ws) (push_write-holding (queued w) q h k)
    ∙ push_all_lem ws (holding q l) h (omega (arith, length-drop (length l - q.max_size) l))
    ∙ ap (λ x. record q { writes = x })
        (trim-trim q.max_size l (map queued ws)
          ∙ ap (trim q.max_size) (append_assoc q.writes (queued w ∷ []) (map queued ws)))

-- While a route is suspended with a queue that can hold a write, writes to the route change no
-- store, and the queue has the last of them all, in order, as many as it can hold.
pub perform_all_lem :
    {S : Type 0} (stores : ℕ → NoydbStore S) (opts : RouteOptions) (n : Text) (ws : List Write)
    (q : WriteQueue) (r : Router) (s : S)
    → All (λ w. route_of opts w ≡ n) ws
    → member n r.suspended ≡ true
    → lookup dec_text n r.write_queues ≡ some q
    → 1 ≤ q.max_size
    → length q.writes ≤ q.max_size
    → perform_all stores opts ws r s ≡ (with_queue n (holding q (q.writes ++ map queued ws)) r, s)
perform_all_lem stores opts n ws q r s a h k m g =
    perform_all_queued stores opts n ws q r s a h k
    ∙ ap (λ x. (with_queue n x r, s)) (push_all_lem ws q m g)
