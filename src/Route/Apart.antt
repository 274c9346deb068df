-- ===== src/Route/Apart.antt =====
-- What the router relies on of the stores behind it: each keeps the contract, and an operation on
-- one of them is not seen in another.
use mathlib.Core.Path.{subst}
use noydb.Base.{ℕ, ◌≡◌, ◌≢◌, ◌∙◌, sym, Option, none, some, Text, ℕ_discrete}
use noydb.Store.Views.{if_ok_same, at_key_other}
use noydb.Store.{Envelope, NoydbStore, IsLawful, at_key, if_ok}

pub record AreApart {S : Type 0} (stores : ℕ → NoydbStore S) : Type 0 where
  pub lawful : (k : ℕ) → IsLawful (stores k)
  pub get_apart :
      (a k : ℕ) (v c id w d j : Text) (s : S)
      → a ≢ k
      → IsLawful.view (lawful a) w d j ((stores k).get v c id s).0
        ≡ IsLawful.view (lawful a) w d j s
  pub put_apart :
      (a k : ℕ) (v c id : Text) (e : Envelope) (expected : Option ℕ) (w d j : Text) (s : S)
      → a ≢ k
      → IsLawful.view (lawful a) w d j ((stores k).put v c id e expected s).0
        ≡ IsLawful.view (lawful a) w d j s
  pub delete_apart :
      (a k : ℕ) (v c id w d j : Text) (s : S)
      → a ≢ k
      → IsLawful.view (lawful a) w d j ((stores k).delete v c id s).0
        ≡ IsLawful.view (lawful a) w d j s
  pub list_view :
      (a k : ℕ) (v c w d j : Text) (s : S)
      → IsLawful.view (lawful a) w d j ((stores k).list v c s).0 ≡ IsLawful.view (lawful a) w d j s

module _ {S : Type 0} {stores : ℕ → NoydbStore S} (l : AreApart stores) where
  -- The record as the store with this number shows it.
  abbrev pub view_of : ℕ → Text → Text → Text → S → Option Envelope
  view_of k = IsLawful.view (l.lawful k)

  pub get_view_of :
      (a k : ℕ) (v c id w d j : Text) (s : S)
      → view_of a w d j ((stores k).get v c id s).0 ≡ view_of a w d j s
  get_view_of a k v c id w d j s = elim (ℕ_discrete a k) [
    | yes p ↦
        subst (λ b. view_of b w d j ((stores k).get v c id s).0 ≡ view_of b w d j s) (sym p)
          (IsLawful.get_view (l.lawful k) v c id w d j s)
    | no p ↦ l.get_apart a k v c id w d j s p
  ]

  -- A write in the store `k`, seen in the store `a` that the router reads the other record from.
  pub put_view_of :
      (a k : ℕ) (v c id : Text) (e : Envelope) (expected : Option ℕ) (w d j : Text) (s : S)
      → (w ≡ v → d ≡ c → a ≡ k)
      → view_of a w d j ((stores k).put v c id e expected s).0
        ≡ if_ok
            ((stores k).put v c id e expected s).1
            (at_key v c id w d j (some e) (view_of a w d j s))
            (view_of a w d j s)
  put_view_of a k v c id e expected w d j s h = elim (ℕ_discrete a k) [
    | yes p ↦
        subst
          (λ b.
            view_of b w d j ((stores k).put v c id e expected s).0
            ≡ if_ok ((stores k).put v c id e expected s).1
                (at_key v c id w d j (some e) (view_of b w d j s)) (view_of b w d j s))
          (sym p) (IsLawful.put_view (l.lawful k) v c id e expected w d j s)
    | no p ↦
        let there = at_key_other v c id w d j (some e) (view_of a w d j s) (λ x y. p (h x y)) in
        l.put_apart a k v c id e expected w d j s p
        ∙ sym (rw there (if_ok_same ((stores k).put v c id e expected s).1 (view_of a w d j s)))
  ]

  pub delete_view_of :
      (a k : ℕ) (v c id w d j : Text) (s : S)
      → (w ≡ v → d ≡ c → a ≡ k)
      → view_of a w d j ((stores k).delete v c id s).0
        ≡ if_ok
            ((stores k).delete v c id s).1
            (at_key v c id w d j none (view_of a w d j s))
            (view_of a w d j s)
  delete_view_of a k v c id w d j s h = elim (ℕ_discrete a k) [
    | yes p ↦
        subst
          (λ b.
            view_of b w d j ((stores k).delete v c id s).0
            ≡ if_ok ((stores k).delete v c id s).1 (at_key v c id w d j none (view_of b w d j s))
                (view_of b w d j s))
          (sym p) (IsLawful.delete_view (l.lawful k) v c id w d j s)
    | no p ↦
        let there = at_key_other v c id w d j none (view_of a w d j s) (λ x y. p (h x y)) in
        l.delete_apart a k v c id w d j s p
        ∙ sym (rw there (if_ok_same ((stores k).delete v c id s).1 (view_of a w d j s)))
  ]
