-- ===== src/Route/Resume.antt =====
-- `resume`: the queued writes are made again, in order, on the store of the route.
pub mod Names
pub mod Queued
pub mod Replayed
use noydb.Base.{ℕ, ◌+◌, Option, none, some, List, [], ◌∷◌, lookup, Text, dec_text}
use noydb.Dict.{remove}
use noydb.Store.{Envelope, StoreError, Outcome, ok, thrown, NoydbStore}
use noydb.Indexes.{set_delete}
use noydb.Route.{
  RouteOptions, WriteMethod, QueuedWrite, WriteQueue, Router, or_else, resolve_original_store,
}

module _ {S : Type 0} (stores : ℕ → NoydbStore S) where
  -- The state after a queued write, and how many were replayed.
  unfoldable pub count_replayed : ℕ → S × Outcome StoreError Unit → S × ℕ
  count_replayed n (s, ok _) = (s, n + 1)
  count_replayed n (s, thrown _) = (s, n)

  unfoldable pub replay_put : ℕ → QueuedWrite → Option Envelope → ℕ → S → S × ℕ
  unfolding count_replayed
  replay_put target w (some e) n s =
      count_replayed n ((stores target).put w.vault w.collection w.id e w.expected_version s)
  replay_put target w none n s = (s, n + 1)

  unfoldable pub replay_method : ℕ → QueuedWrite → WriteMethod → ℕ → S → S × ℕ
  unfolding replay_put count_replayed
  replay_method target w WriteMethod.put n s = replay_put target w w.envelope n s
  replay_method target w WriteMethod.delete n s =
      count_replayed n ((stores target).delete w.vault w.collection w.id s)

  -- The loop of `resume`.
  unfoldable pub replay : ℕ → List QueuedWrite → ℕ → S → S × ℕ
  unfolding replay_method
  replay target [] n s = (s, n)
  replay target (w ∷ l) n s =
      let (s', m) = replay_method target w w.method n s in replay target l m s'

  -- What follows the lookup of the queue; `r'` is the router without it.
  unfoldable pub replay_queue :
      RouteOptions → Text → Router → S → Option WriteQueue → Router × S × ℕ
  unfolding replay resolve_original_store
  replay_queue opts route r' s none = (r', s, 0)
  replay_queue opts route r' s (some q) =
      let target =
        or_else (lookup dec_text route r'.overrides) (resolve_original_store opts route) in
      let (s', n) = replay target q.writes 0 s in (r', s', n)

  unfoldable pub resume : RouteOptions → Text → Router → S → Router × S × ℕ
  unfolding replay_queue
  resume opts route r s =
      let r' = record r {
        suspended = set_delete route r.suspended;
        write_queues = remove dec_text route r.write_queues;
      } in
      replay_queue opts route r' s (lookup dec_text route r.write_queues)
