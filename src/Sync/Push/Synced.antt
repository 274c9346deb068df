-- ===== src/Sync/Push/Synced.antt =====
-- What a completed entry of the dirty log means, over lawful stores.
use noydb.Base.{
  ℕ, ◌-◌, ◌≡◌, ◌⊎◌, inl, inr, ◌∙◌, sym, ap, refl, true, false, Option, none, some, List, [], ◌∷◌,
  ◌++◌, Text, arith,
}
use noydb.Store.{Envelope, StoreError, conflict, failure, Outcome, ok, thrown, IsLawful, at_key}
use noydb.Sync.{Action, DirtyEntry, Conflict, Winner, Handled, Resolver, Config}
use noydb.Sync.Push

module _ {L R : Type 0} (cfg : Config L R) (ll : IsLawful cfg.local_store)
    (rl : IsLawful cfg.remote_store) (entry : DirtyEntry) where
  -- What the two stores show at a record.
  abbrev pub local_at : Text → Text → Text → Push.PushState L R → Option Envelope
  local_at w d j s = ll.view w d j s.local

  abbrev pub remote_at : Text → Text → Text → Push.PushState L R → Option Envelope
  remote_at w d j s = rl.view w d j s.remote

  abbrev pub local_of : Push.PushState L R → Option Envelope
  local_of s = local_at cfg.vault entry.collection entry.id s

  abbrev pub remote_of : Push.PushState L R → Option Envelope
  remote_of s = remote_at cfg.vault entry.collection entry.id s

  -- The record is not the entry's.
  abbrev pub IsOther : Text → Text → Text → Type 0
  IsOther w d j = at_key cfg.vault entry.collection entry.id w d j true false ≡ false

  -- For an entry that asks for a put: the record is gone locally, or both stores show the same.
  abbrev pub Agree : Push.PushState L R → Type 0
  Agree s = (local_of s ≡ none) ⊎ (local_of s ≡ remote_of s)

  -- A step touches no other record, and if it completes the entry the stores agree on it.
  pub record Settles (s : Push.PushState L R) (r : Push.Stepped L R) : Type 0 where
    pub agree : r.1 ≡ true → Agree r.0
    pub others :
        (w d j : Text)
        → IsOther w d j
        → (local_at w d j r.0 ≡ local_at w d j s) × (remote_at w d j r.0 ≡ remote_at w d j s)

  module _ (resolvers : List (Text × Resolver)) where
    apply_local :
        (c : Conflict) (s : Push.PushState L R)
        → local_of s ≡ some c.local
        → Settles s (Push.apply_handled cfg resolvers entry Winner.local c s)
    unfolding Push.apply_handled
    apply_local c s h = record {
      agree = λ done. ground (
        arith,
        rl.put_view cfg.vault entry.collection entry.id c.local none cfg.vault entry.collection
            entry.id s.remote,
      );
      others = λ w d j o.
          ground
            (arith, rl.put_view cfg.vault entry.collection entry.id c.local none w d j s.remote);
    }

    apply_remote :
        (c : Conflict) (s : Push.PushState L R)
        → remote_of s ≡ some c.remote
        → Settles s (Push.apply_handled cfg resolvers entry Winner.remote c s)
    unfolding Push.apply_handled
    apply_remote c s h = record {
      agree = λ done. ground (
        arith,
        ll.put_view cfg.vault entry.collection entry.id c.remote none cfg.vault entry.collection
            entry.id s.local,
      );
      others = λ w d j o.
          ground
            (arith, ll.put_view cfg.vault entry.collection entry.id c.remote none w d j s.local);
    }

    apply_both :
        (m : Envelope) (s : Push.PushState L R)
        → Settles s (Push.apply_merged cfg resolvers entry m s)
    unfolding Push.apply_merged
    apply_both m s = record {
      agree = λ done. ground (
        arith,
        ll.put_view cfg.vault entry.collection entry.id m none cfg.vault entry.collection entry.id
            s.local,
        rl.put_view cfg.vault entry.collection entry.id m none cfg.vault entry.collection entry.id
            s.remote,
      );
      others = λ w d j o. ground (
        arith,
        ll.put_view cfg.vault entry.collection entry.id m none w d j s.local,
        rl.put_view cfg.vault entry.collection entry.id m none w d j s.remote,
      );
    }

    -- A handled conflict carries the envelopes that were compared.
    abbrev Carries : Envelope → Envelope → Handled → Conflict → Type 0
    Carries local remote h c =
        (h ≡ Winner.local → c.local ≡ local) × (h ≡ Winner.remote → c.remote ≡ remote)

    handle_conflict-Carries :
        (local remote : Envelope) (h : Handled) (c : Conflict)
        → (Push.handle_conflict cfg resolvers entry.collection entry.id local remote).1 ≡ ok (h, c)
        → Carries local remote h c
    unfolding Push.handle_conflict
    handle_conflict-Carries local remote h c e = (λ p. ground arith, λ p. ground arith)

    module _ (local remote : Envelope) (s : Push.PushState L R) (at_local : local_of s ≡ some local)
        (at_remote : remote_of s ≡ some remote) where
      apply_any :
          (h : Handled) (c : Conflict)
          → Carries local remote h c
          → Settles s (Push.apply_handled cfg resolvers entry h c s)
      apply_any Winner.local c k = apply_local c s (at_local ∙ ap some (sym (k.0 refl)))
      apply_any Winner.remote c k = apply_remote c s (at_remote ∙ ap some (sym (k.1 refl)))
      apply_any (Winner.merged m) c k = unfold Push.apply_handled in apply_both c.local s
      apply_any Winner.deferred c k =
          unfold Push.apply_handled in
          (record { agree = λ done. cc; others = λ w d j o. (refl, refl) })

    module _ (local remote : Envelope) (s : Push.PushState L R) (at_local : local_of s ≡ some local)
        (at_remote : remote_of s ≡ some remote) where
      push_resolved_lem : Settles s (Push.push_resolved cfg resolvers entry local remote s)
      unfolding Push.push_resolved
      push_resolved_lem =
          go (Push.handle_conflict cfg resolvers entry.collection entry.id local remote).1 refl
        where
          go :
              (out : Outcome StoreError (Handled × Conflict))
              → (Push.handle_conflict cfg resolvers entry.collection entry.id local remote).1 ≡ out
              → Settles s (
                  Push.after_conflict cfg resolvers entry out (record s {
                    events =
                        s.events
                        ++ (Push.handle_conflict cfg resolvers entry.collection entry.id local
                            remote).0;
                  }))
          go (thrown x) e =
              unfold Push.after_conflict Push.fail in
              (record { agree = λ done. cc; others = λ w d j o. (refl, refl) })
          go (ok (h, c)) e =
              unfold Push.after_conflict in
              let k = handle_conflict-Carries local remote h c e in
              let s1 : Push.PushState L R = record s {
                events =
                    s.events
                    ++ (Push.handle_conflict cfg resolvers entry.collection entry.id local
                        remote).0;
                conflicts = s.conflicts ++ c ∷ [];
              } in
              let r = apply_any local remote s1 at_local at_remote h c k in
              record { agree = r.agree; others = r.others }

    -- A read changes what no record shows.
    after_remote_get_lem :
        (local : Envelope) (out : Outcome StoreError (Option Envelope)) (s : Push.PushState L R)
        → local_of s ≡ some local
        → ((o : Option Envelope) → out ≡ ok o → o ≡ remote_of s)
        → Settles s (Push.after_remote_get cfg resolvers entry local out s)
    unfolding Push.after_remote_get
    after_remote_get_lem local (thrown x) s h k =
        unfold Push.fail in (record { agree = λ done. cc; others = λ w d j o. (refl, refl) })
    after_remote_get_lem local (ok none) s h k = record {
      agree = λ done. cc;
      others = λ w d j o. (refl, refl);
    }
    after_remote_get_lem local (ok (some remote)) s h k =
        push_resolved_lem local remote s h (sym (k (some remote) refl))

    push_conflict_lem :
        (local : Envelope) (s : Push.PushState L R)
        → local_of s ≡ some local
        → Settles s (Push.push_conflict cfg resolvers entry local s)
    unfolding Push.push_conflict
    push_conflict_lem local s h =
        let (v, c, id) : Text × Text × Text = (cfg.vault, entry.collection, entry.id) in
        let (r, out) = cfg.remote_store.get v c id s.remote in
        let t =
          after_remote_get_lem local out (record s { remote = r }) h
            (λ o e. rl.get_ok v c id s.remote o e ∙ sym (rl.get_view v c id v c id s.remote)) in
        record {
          agree = t.agree;
          others = λ w d j o.
              let (a, b) = t.others w d j o in (a, b ∙ rl.get_view v c id w d j s.remote);
        }

    after_remote_put_lem :
        (local : Envelope) (out : Outcome StoreError Unit) (s : Push.PushState L R)
        → local_of s ≡ some local
        → (out ≡ ok tt → remote_of s ≡ some local)
        → Settles s (Push.after_remote_put cfg resolvers entry local out s)
    unfolding Push.after_remote_put
    after_remote_put_lem local (ok u) s h k =
        unfold Push.complete_pushed in
        (record { agree = λ done. inr (h ∙ sym (k refl)); others = λ w d j o. (refl, refl) })
    after_remote_put_lem local (thrown (conflict n)) s h k = push_conflict_lem local s h
    after_remote_put_lem local (thrown (failure t)) s h k =
        unfold Push.fail in (record { agree = λ done. cc; others = λ w d j o. (refl, refl) })

    after_local_get_lem :
        (out : Outcome StoreError (Option Envelope)) (s : Push.PushState L R)
        → ((o : Option Envelope) → out ≡ ok o → o ≡ local_of s)
        → Settles s (Push.after_local_get cfg resolvers entry out s)
    unfolding Push.after_local_get
    after_local_get_lem (thrown x) s k =
        unfold Push.fail in (record { agree = λ done. cc; others = λ w d j o. (refl, refl) })
    after_local_get_lem (ok none) s k = record {
      agree = λ done. inl (sym (k none refl));
      others = λ w d j o. (refl, refl);
    }
    after_local_get_lem (ok (some local)) s k =
        let (v, c, id) : Text × Text × Text = (cfg.vault, entry.collection, entry.id) in
        let expected : Option ℕ = some (entry.version - 1) in
        let (s1, out) = Push.put_remote cfg resolvers entry local expected s in
        let t : Settles s1 (Push.after_remote_put cfg resolvers entry local out s1) =
          after_remote_put_lem local out s1 (sym (k (some local) refl))
            (λ e. ground (arith, rl.put_view v c id local expected v c id s.remote)) in
        let kept : (w d j : Text) → IsOther w d j → remote_at w d j s1 ≡ remote_at w d j s =
          λ w d j o. ground (arith, rl.put_view v c id local expected w d j s.remote) in
        record {
          agree = t.agree;
          others = λ w d j o. let (a, b) = t.others w d j o in (a, b ∙ kept w d j o);
        }

    -- What a completed entry promises: a put is on both sides, a delete has reached the remote.
    abbrev pub Reflected : Action → Push.PushState L R → Type 0
    Reflected Action.put s = Agree s
    Reflected Action.delete s = remote_of s ≡ none

    pub record Pushes (action : Action) (s : Push.PushState L R) (r : Push.Stepped L R)
        : Type 0 where
      pub reflected : r.1 ≡ true → Reflected action r.0
      pub others :
          (w d j : Text)
          → IsOther w d j
          → (local_at w d j r.0 ≡ local_at w d j s) × (remote_at w d j r.0 ≡ remote_at w d j s)

    pub push_action_lem :
        (action : Action) (s : Push.PushState L R)
        → Pushes action s (Push.push_action cfg resolvers entry action s)
    unfolding Push.push_action
    push_action_lem Action.put s =
        let (v, c, id) : Text × Text × Text = (cfg.vault, entry.collection, entry.id) in
        let (l, out) = cfg.local_store.get v c id s.local in
        let t =
          after_local_get_lem out (record s { local = l })
            (λ o e. ll.get_ok v c id s.local o e ∙ sym (ll.get_view v c id v c id s.local)) in
        record {
          reflected = t.agree;
          others =
              λ w d j o. let (a, b) = t.others w d j o in (a ∙ ll.get_view v c id w d j s.local, b);
        }
    push_action_lem Action.delete s =
        let (v, c, id) : Text × Text × Text = (cfg.vault, entry.collection, entry.id) in
        unfold Push.after_remote in
        (record {
          reflected = λ done. ground (arith, rl.delete_view v c id v c id s.remote);
          others = λ w d j o. ground (arith, rl.delete_view v c id w d j s.remote);
        })
