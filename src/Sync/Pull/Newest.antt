-- ===== src/Sync/Pull/Newest.antt =====
-- What one record of the remote snapshot does to the local store, over a lawful store.
use noydb.Base.{
  ◌≡◌, ◌⊎◌, inl, inr, ◌∙◌, sym, ap, refl, ltb, if◌then◌else◌, true, false, Bool-cases, Option, none,
  some, List, [], ◌∷◌, ◌++◌, Text, arith,
}
use noydb.Store.{Envelope, StoreError, Outcome, ok, thrown, IsLawful, at_key, if_ok}
use noydb.Sync.{Resolver, Config, is_dirty}
use noydb.Sync.Pull

-- The envelope with the higher version; the local one where they are the same.
abbrev pub newest : Option Envelope → Envelope → Envelope
newest none remote = remote
newest (some local) remote = if ltb local.v remote.v then remote else local

module _ {L R : Type 0} (cfg : Config L R) (ll : IsLawful cfg.local_store)
    (resolvers : List (Text × Resolver)) (name id : Text) where
  pub record Pulls (remote : Envelope) (s t : Pull.PullState L) : Type 0 where
    pub taken :
        (ll.view cfg.vault name id t.local
          ≡ some (newest (ll.view cfg.vault name id s.local) remote))
        ⊎ ((x : StoreError) × (t.errors ≡ s.errors ++ x ∷ [])
            × (ll.view cfg.vault name id t.local ≡ ll.view cfg.vault name id s.local))
    pub others :
        (w d j : Text)
        → at_key cfg.vault name id w d j true false ≡ false
        → ll.view w d j t.local ≡ ll.view w d j s.local
    pub log : t.dirty ≡ s.dirty

  -- A write of the remote envelope has settled to `out` and left the local store `l`.
  copied_lem :
      (remote : Envelope) (s : Pull.PullState L) (l : L) (out : Outcome StoreError Unit)
      → newest (ll.view cfg.vault name id s.local) remote ≡ remote
      → ((w d j : Text)
          → ll.view w d j l
            ≡ if_ok out
                (at_key cfg.vault name id w d j (some remote) (ll.view w d j s.local))
                (ll.view w d j s.local))
      → Pulls remote s (Pull.after_copied out (record s { local = l }))
  unfolding Pull.after_copied Pull.pull_fail
  copied_lem remote s l (thrown x) h k = record {
    taken = inr (x, refl, k cfg.vault name id);
    others = λ w d j o. k w d j;
    log = refl;
  }
  copied_lem remote s l (ok u) h k = record {
    taken = inl (ground (arith, k cfg.vault name id));
    others = λ w d j o. ground (arith, k w d j);
    log = refl;
  }

  copy_lem :
      (remote : Envelope) (s : Pull.PullState L)
      → newest (ll.view cfg.vault name id s.local) remote ≡ remote
      → Pulls remote s (Pull.copy_remote cfg resolvers name id remote s)
  unfolding Pull.copy_remote
  copy_lem remote s h =
      let (l, out) = cfg.local_store.put cfg.vault name id remote none s.local in
      copied_lem remote s l out h (λ w d j. ll.put_view cfg.vault name id remote none w d j s.local)

  got_lem :
      (remote : Envelope) (s : Pull.PullState L) (out : Outcome StoreError (Option Envelope))
      → is_dirty name id s.dirty ≡ false
      → ((o : Option Envelope) → out ≡ ok o → o ≡ ll.view cfg.vault name id s.local)
      → Pulls remote s (Pull.after_pull_get cfg resolvers name id remote out s)
  unfolding Pull.after_pull_get Pull.compare_versions
  got_lem remote s (thrown x) clean k =
      unfold Pull.pull_fail in
      (record { taken = inr (x, refl, refl); others = λ w d j o. refl; log = refl })
  got_lem remote s (ok none) clean k =
      copy_lem remote s (ap (λ o. newest o remote) (sym (k none refl)))
  got_lem remote s (ok (some local)) clean k = elim (Bool-cases (ltb local.v remote.v)) [
    | inl newer ↦
        rw (newer, clean)
          (copy_lem remote s (ap (λ o. newest o remote) (sym (k (some local) refl)) ∙ rw newer))
    | inr older ↦ rw older (record {
      taken = inl (
          sym (k (some local) refl)
          ∙ ap some (sym (ap (λ o. newest o remote) (sym (k (some local) refl)) ∙ rw older)));
      others = λ w d j o. refl;
      log = refl;
    })
  ]

  -- A remote record that the filter lets pass, and that has no change waiting locally: afterwards
  -- the local store has the newer of the two, the local one on a tie, or an error is recorded and
  -- the local record is as it was. No other record and no dirty entry changes.
  pub pull_record_lem :
      (since : Option Text) (remote : Envelope) (s : Pull.PullState L)
      → Pull.is_skipped since remote.ts ≡ false
      → is_dirty name id s.dirty ≡ false
      → Pulls remote s (Pull.pull_record cfg resolvers name id since remote s)
  unfolding Pull.pull_record
  pull_record_lem since remote s pass clean =
      let (l, out) = cfg.local_store.get cfg.vault name id s.local in
      let same = λ (w d j : Text). ll.get_view cfg.vault name id w d j s.local in
      let t =
        got_lem remote (record s { local = l }) out clean
          (λ o e. ll.get_ok cfg.vault name id s.local o e ∙ sym (same cfg.vault name id)) in
      rw pass (record {
        taken = rw (same cfg.vault name id) at t.taken;
        others = λ w d j o. t.others w d j o ∙ same w d j;
        log = t.log;
      })
