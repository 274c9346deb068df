-- ===== src/Sync/Push/Loop.antt =====
-- The loop over the dirty log, over lawful stores: nothing leaves the log unless it has arrived.
use noydb.Base.{
  ◌≡◌, ◌⊎◌, inl, inr, ◌∙◌, sym, refl, if◌then◌else◌, Bool, true, false, Bool-cases, List, [], ◌∷◌,
  All, All-map, Text, arith,
}
use noydb.Store.{IsLawful}
use noydb.Sync.{Action, DirtyEntry, Resolver, Config, is_dirty}
use noydb.Sync.Push
use noydb.Sync.Push.Synced.{IsOther, Reflected, Pushes, push_action_lem}

-- The log has one entry for a record.
abbrev pub UniqueDirty : List DirtyEntry → Type 0
UniqueDirty [] = Unit
UniqueDirty (e ∷ l) = (is_dirty e.collection e.id l ≡ false) × UniqueDirty l

module _ {L R : Type 0} (cfg : Config L R) (ll : IsLawful cfg.local_store)
    (rl : IsLawful cfg.remote_store) where
  -- The entry's change has arrived.
  abbrev pub Arrived : DirtyEntry → Push.PushState L R → Type 0
  Arrived e s = Reflected cfg ll rl e [] e.action s

  pub record Loops (l : List DirtyEntry) (s : Push.PushState L R)
      (r : Push.PushState L R × List DirtyEntry) : Type 0 where
    pub settled : All (λ e. (is_dirty e.collection e.id r.1 ≡ true) ⊎ Arrived e r.0) l
    pub subset : (c i : Text) → is_dirty c i l ≡ false → is_dirty c i r.1 ≡ false
    pub others :
        (w d j : Text)
        → All (λ e. IsOther cfg ll rl e w d j) l
        → (ll.view w d j r.0.local ≡ ll.view w d j s.local)
          × (rl.view w d j r.0.remote ≡ rl.view w d j s.remote)

  others_of :
      (c i : Text) (l : List DirtyEntry)
      → is_dirty c i l ≡ false
      → All (λ e. IsOther cfg ll rl e cfg.vault c i) l
  unfolding is_dirty
  others_of c i [] h = tt
  others_of c i (e ∷ l) h = (ground arith, others_of c i l (ground arith))

  -- What has arrived stays if the two stores show the same at the record.
  pub Arrived_same :
      (e : DirtyEntry) (action : Action) (s t : Push.PushState L R)
      → (ll.view cfg.vault e.collection e.id t.local ≡ ll.view cfg.vault e.collection e.id s.local)
        × (rl.view cfg.vault e.collection e.id t.remote
            ≡ rl.view cfg.vault e.collection e.id s.remote)
      → Reflected cfg ll rl e [] action s
      → Reflected cfg ll rl e [] action t
  Arrived_same e Action.put s t h (inl gone) = inl (h.0 ∙ gone)
  Arrived_same e Action.put s t h (inr agree) = inr (h.0 ∙ agree ∙ sym h.1)
  Arrived_same e Action.delete s t h gone = h.1 ∙ gone

  step_lem :
      (resolvers : List (Text × Resolver)) (predicate : DirtyEntry → Bool) (e : DirtyEntry)
      (s : Push.PushState L R)
      → Pushes cfg ll rl e [] e.action s
          (if predicate e then Push.push_entry cfg resolvers e s else (s, false))
  unfolding Push.push_entry
  step_lem resolvers predicate e s = elim (Bool-cases (predicate e)) [
    | inl chosen ↦ rw chosen (
        let t = push_action_lem cfg ll rl e resolvers e.action s in
        record { reflected = t.reflected; others = t.others })
    | inr skipped ↦ rw skipped (record { reflected = λ done. cc; others = λ w d j o. (refl, refl) })
  ]

  module _ (e : DirtyEntry) (l : List DirtyEntry) (s : Push.PushState L R) (r1 : Push.Stepped L R)
      (r2 : Push.PushState L R × List DirtyEntry) (step : Pushes cfg ll rl e [] e.action s r1)
      (ih : Loops l r1.0 r2) (once : is_dirty e.collection e.id l ≡ false) where
    abbrev left : List DirtyEntry
    left = if r1.1 then r2.1 else e ∷ r2.1

    stays : (c i : Text) → is_dirty c i r2.1 ≡ true → is_dirty c i left ≡ true
    unfolding is_dirty
    stays c i h = ground arith

    head_settled : (is_dirty e.collection e.id left ≡ true) ⊎ Arrived e r2.0
    head_settled = elim (Bool-cases r1.1) [
      | inl done ↦
          let same = ih.others cfg.vault e.collection e.id (others_of e.collection e.id l once) in
          inr (Arrived_same e e.action r1.0 r2.0 same (step.reflected done))
      | inr kept ↦ inl (unfold is_dirty in (ground arith))
    ]

    combine : Loops (e ∷ l) s (r2.0, left)
    combine = record {
      settled = (head_settled, All-map l tail_settled ih.settled);
      subset = λ c i h. unfold is_dirty in (ground (arith, ih.subset c i));
      others = λ w d j o.
          let (a, b) = step.others w d j o.0 in
          let (a', b') = ih.others w d j o.1 in (a' ∙ a, b' ∙ b);
    }
      where
        tail_settled :
            (x : DirtyEntry)
            → (is_dirty x.collection x.id r2.1 ≡ true) ⊎ Arrived x r2.0
            → (is_dirty x.collection x.id left ≡ true) ⊎ Arrived x r2.0
        tail_settled x (inl still) = inl (stays x.collection x.id still)
        tail_settled x (inr there) = inr there

  pub push_entries_lem :
      (predicate : DirtyEntry → Bool) (resolvers : List (Text × Resolver)) (l : List DirtyEntry)
      (s : Push.PushState L R)
      → UniqueDirty l
      → Loops l s (Push.push_entries cfg predicate resolvers l s)
  unfolding Push.push_entries
  push_entries_lem predicate resolvers [] s u =
      unfold is_dirty in
      (record { settled = tt; subset = λ c i h. h; others = λ w d j o. (refl, refl) })
  push_entries_lem predicate resolvers (e ∷ l) s u =
      let r1 : Push.Stepped L R =
        if predicate e then Push.push_entry cfg resolvers e s else (s, false) in
      combine e l s r1 (Push.push_entries cfg predicate resolvers l r1.0)
        (step_lem resolvers predicate e s) (push_entries_lem predicate resolvers l r1.0 u.1) u.0
