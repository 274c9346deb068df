-- ===== src/Sync/Push/Log.antt =====
-- `push` and `pushFiltered` as a whole: what they do to the dirty log.
use mathlib.Core.Path.{subst}
use noydb.Base.{
  ◌≡◌, ◌⊎◌, inl, inr, ◌∙◌, sym, ap, ite, Bool, true, false, none, some, List, All, All-map,
  All-both, Text, dec_text, arith,
}
use noydb.Store.{ok, IsLawful}
use noydb.Sync.{DirtyEntry, Engine, Config, is_dirty}
use noydb.Sync.Meta.{sync_collection, meta_id, ensure_loaded, meta_envelope, persist_meta}
use noydb.Sync.Push
use noydb.Sync.Push.Loop.{UniqueDirty, Arrived, Arrived_same, Loops, push_entries_lem}

-- The record of the metadata.
abbrev pub is_meta : Text → Text → Bool
is_meta c i = ite (dec_text c sync_collection) (ite (dec_text i meta_id) true false) false

module _ {L R : Type 0} (cfg : Config L R) (ll : IsLawful cfg.local_store)
    (rl : IsLawful cfg.remote_store) where
  -- The entry's change has arrived, between the stores of an engine.
  abbrev pub HasArrived : DirtyEntry → Engine L R → Type 0
  HasArrived x e = Arrived cfg ll rl x (Push.start_push cfg e)

  -- Between the logs before and after: an entry is still there or its change has arrived, and
  -- nothing is there that was not.
  pub record Progress (before : List DirtyEntry) (e : Engine L R) : Type 0 where
    pub settled : All (λ x. (is_dirty x.collection x.id e.dirty ≡ true) ⊎ HasArrived x e) before
    pub subset : (c i : Text) → is_dirty c i before ≡ false → is_dirty c i e.dirty ≡ false

  module _ (now : Text) (e : Engine L R) (s : Push.PushState L R) (rest : List DirtyEntry) where
    -- The engine after the loop, with the metadata to write.
    abbrev before_meta : Engine L R
    before_meta = record e {
      local = s.local;
      remote = s.remote;
      dirty = rest;
      last_push = some now;
      events = s.events;
    }

    abbrev finished : Engine L R
    finished = (Push.finish_push cfg now e (s, rest)).0

    finish_fields :
        (finished.dirty ≡ rest)
        × (finished.remote ≡ s.remote)
        × (finished.local ≡ (persist_meta cfg now before_meta).0.local)
    unfolding Push.finish_push persist_meta
    finish_fields = ground arith

    -- The write of the metadata changes no record but its own.
    finish_view :
        (c i : Text)
        → is_meta c i ≡ false
        → ll.view cfg.vault c i finished.local ≡ ll.view cfg.vault c i s.local
    finish_view c i h =
        ap (ll.view cfg.vault c i) finish_fields.2
        ∙ (unfold persist_meta in
            ground (
              arith,
              ll.put_view cfg.vault sync_collection meta_id (meta_envelope cfg now before_meta) none
                  cfg.vault c i s.local,
            ))

    settled_at :
        (x : DirtyEntry)
        → finished.dirty ≡ rest
        → finished.remote ≡ s.remote
        → (is_dirty x.collection x.id rest ≡ true) ⊎ Arrived cfg ll rl x s
        → is_meta x.collection x.id ≡ false
        → (is_dirty x.collection x.id finished.dirty ≡ true) ⊎ HasArrived x finished
    settled_at x d r (inl still) plain = inl (rw d still)
    settled_at x d r (inr there) plain = inr (
        Arrived_same cfg ll rl x x.action s (Push.start_push cfg finished)
          (finish_view x.collection x.id plain, ap (rl.view cfg.vault x.collection x.id) r) there)

    finish_lem :
        (l : List DirtyEntry) (s0 : Push.PushState L R)
        → Loops cfg ll rl l s0 (s, rest)
        → All (λ x. is_meta x.collection x.id ≡ false) l
        → Progress l finished
    finish_lem l s0 h m =
        let (same_dirty, same_remote, _) = finish_fields in
        record {
          settled =
              All-map l (λ x (there, plain). settled_at x same_dirty same_remote there plain)
                (All-both _ _ l h.settled m);
          subset = λ c i k. rw same_dirty (h.subset c i k);
        }

  ensure_loaded_lem : (e : Engine L R) → e.loaded ≡ true → ensure_loaded cfg e ≡ (e, ok tt)
  unfolding ensure_loaded
  ensure_loaded_lem e h = ground arith

  -- After a push from a loaded engine, whatever fails on the way, every entry of the log is still
  -- in it, or its change has arrived; and nothing entered the log.
  pub push_filtered_lem :
      (predicate : DirtyEntry → Bool) (now : Text) (e : Engine L R)
      → e.loaded ≡ true
      → UniqueDirty e.dirty
      → All (λ x. is_meta x.collection x.id ≡ false) e.dirty
      → Progress e.dirty (Push.push_filtered cfg predicate now e).0
  unfolding Push.push_filtered Push.push_loaded
  push_filtered_lem predicate now e loaded u m =
      let (s, rest) = Push.push_entries cfg predicate e.resolvers e.dirty (Push.start_push cfg e) in
      subst (λ r. Progress e.dirty (Push.push_loaded cfg predicate now r).0)
        (sym (ensure_loaded_lem e loaded))
        (finish_lem now e s rest e.dirty (Push.start_push cfg e)
          (push_entries_lem cfg ll rl predicate e.resolvers e.dirty (Push.start_push cfg e) u) m)
