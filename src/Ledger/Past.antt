-- ===== src/Ledger/Past.antt =====
-- `reconstruct`: the walk from the current value of a record back to an earlier one.
use noydb.Base.{
  ℕ, ◌≡◌, ◌≢◌, ◌∙◌, refl, ap, ◌==◌, ==_iff, Bool, true, false, Option, none, some, List, [], ◌∷◌,
  Text, arith,
}
use noydb.Store.{ok, NoydbStore}
use noydb.Json.{Json}
use noydb.Patch
use noydb.Patch.{compute_patch, apply_patch, Result}
use noydb.Patch.Same.{Same, IsPlain}
use noydb.Patch.RoundTrip.{compute_patch_lem}
use noydb.Entry
use noydb.Entry.{LedgerEntry, Platform}
use noydb.Ledger.{
  LedgerState, LedgerOptions, Action, after, load_delta, load_all_entries, matching_back, walk_back,
  reconstruct, is_null, is_put, turn_back, undo,
}

module _ {S : Type 0} (platform : Platform) (options : LedgerOptions) (adapter : NoydbStore S)
    (s : LedgerState S) where
  -- `Past l v n w`: in the entries `l` of a record, the latest first, the last put made the value
  -- `v`, the put of version `n` made `w`, and each put in between stored the patch from its own
  -- value to the one before.
  pub data Past : List LedgerEntry → Json → ℕ → Json → Type 0 where
    here :
        (e : LedgerEntry) (l : List LedgerEntry) (v : Json)
        → e.op ≡ Entry.put
        → Past (e ∷ l) v e.version v
    earlier :
        (e : LedgerEntry) (l : List LedgerEntry) (v u w : Json) (n : ℕ) (h : Text)
        → e.op ≡ Entry.put
        → e.version ≢ n
        → e.delta_hash ≡ some h
        → is_null v ≡ false
        → IsPlain v
        → IsPlain u
        → load_delta platform options adapter e.index s ≡ (s, ok (some (compute_patch v u)))
        → Past l u n w
        → Past (e ∷ l) v n w

  put_lem : (o : Entry.EntryOp) → o ≡ Entry.put → is_put o ≡ true
  put_lem Entry.put h = refl
  put_lem Entry.delete h = cc

  here_lem :
      (a b : Bool) (h : Option Text) (c : Json) (m : Action S (Option Json))
      → a ≡ true
      → b ≡ true
      → turn_back platform options adapter a b h c m s ≡ (s, ok (some c))
  here_lem true true h c m e f = refl
  here_lem false b h c m e f = cc
  here_lem true false h c m e f = cc

  earlier_lem :
      (a b : Bool) (h : Option Text) (t : Text) (c : Json) (m : Action S (Option Json))
      → a ≡ true
      → b ≡ false
      → h ≡ some t
      → turn_back platform options adapter a b h c m s ≡ m s
  earlier_lem true false (some h) t c m e f g = refl
  earlier_lem false b h t c m e f g = cc
  earlier_lem true true h t c m e f g = cc
  earlier_lem true false none t c m e f g = cc

  -- A patch that applies, to a value that is not `null`.
  undo_lem :
      (go : Json → Action S (Option Json)) (c r : Json) (ops : List Patch.Op)
      → is_null c ≡ false
      → apply_patch c ops ≡ Patch.ok r
      → undo platform options adapter go c (some ops) s ≡ go r s
  undo_lem go c r ops n e = rw (n, e) refl

  null-Same : (c v : Json) → Same c v → is_null v ≡ false → is_null c ≡ false
  unfolding Patch.Same.observe
  null-Same Json.null Json.null same h = h
  null-Same Json.null (Json.bool b) same h = absurd (ground (arith, same []))
  null-Same Json.null (Json.number t) same h = absurd (ground (arith, same []))
  null-Same Json.null (Json.string t) same h = absurd (ground (arith, same []))
  null-Same Json.null (Json.array xs) same h = absurd (ground (arith, same []))
  null-Same Json.null (Json.object fs) same h = absurd (ground (arith, same []))
  null-Same _ v same h = refl

  walk-Past :
      (l : List LedgerEntry) (c v w : Json) (n : ℕ)
      → Same c v
      → Past l v n w
      → (r : Json) × (walk_back platform options adapter n c l s ≡ (s, ok (some r))) × Same r w
  unfolding walk_back
  walk-Past _ c v _ _ same (here e l _ p) = (
    c,
    here_lem (is_put e.op) (e.version == e.version) e.delta_hash c _ (put_lem e.op p)
        ((==_iff e.version e.version).1 refl),
    same,
  )
  walk-Past _ c v w n same (earlier e l _ u _ _ h p q d z f g k past) =
      let (r, made, like) = compute_patch_lem c v u same f g in
      let (x, found, past_like) = walk-Past l r u w n like past in
      (
        x,
        earlier_lem (is_put e.op) (e.version == n) e.delta_hash h c _ (put_lem e.op p)
              (ground (arith, q)) d
            ∙ ap
                (after
                  (undo platform options adapter (λ y. walk_back platform options adapter n y l) c))
                k
            ∙ undo_lem (λ y. walk_back platform options adapter n y l) c r (compute_patch v u)
                (null-Same c v same z) made
            ∙ found,
        past_like,
      )

  -- `reconstruct` from the current value of a record, at a version that a put since the last genesis
  -- made and whose later puts stored their patches back, settles to a value that is the same along
  -- every path as the one that the put made.
  pub reconstruct-Past :
      (all : List LedgerEntry) (collection id : Text) (current w : Json) (n : ℕ)
      → load_all_entries platform options adapter s ≡ (s, ok all)
      → Past (matching_back collection id [] all) current n w
      → (r : Json) × (reconstruct platform options adapter collection id current n s
          ≡ (s, ok (some r)))
        × Same r w
  unfolding reconstruct
  reconstruct-Past all collection id current w n loaded past =
      let (r, found, same) =
        walk-Past (matching_back collection id [] all) current current w n (λ p. refl) past in
      (
        r,
        ap
              (after (λ es.
                walk_back platform options adapter n current (matching_back collection id [] es)))
              loaded
            ∙ found,
        same,
      )
