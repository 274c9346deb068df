-- ===== src/Route/Compact/Kept.antt =====
-- What `compact` moves is shown as before.
use mathlib.Core.Path.{subst}
use noydb.Base.{
  ℕ, ◌≡◌, ◌≢◌, ◌∙◌, sym, refl, ap, if◌then◌else◌, true, false, Option, none, some, List, [], ◌∷◌,
  Text,
}
use noydb.Store.Views.{at_key_cases, at_key_self}
use noydb.Store.{Envelope, StoreError, Outcome, ok, thrown, NoydbStore, IsLawful, at_key, if_ok}
use noydb.Route.{RouteOptions, AgeRoute, first_of, is_cold}
use noydb.Route.Methods.{or_no_ids}
use noydb.Route.Apart.{AreApart, view_of, get_view_of}
use noydb.Route.Compact.{
  after_cold_delete, after_cold_put, after_read, compact_record, and_then, compact_aged,
  compact_option, compact_ids, compact_collections, compact,
}

if_ok_cases :
    {A : Type 0} (P : Option Envelope → Type 0) (out : Outcome StoreError A) (x y : Option Envelope)
    → P x
    → P y
    → P (if_ok out x y)
if_ok_cases P (ok a) x y h k = h
if_ok_cases P (thrown e) x y h k = k

module _ {S : Type 0} {stores : ℕ → NoydbStore S} (l : AreApart stores) (hot cold : ℕ) where
  -- What a read that falls back to the cold store finds.
  abbrev pub shown : Text → Text → Text → S → Option Envelope
  shown w d j s = first_of (view_of l hot w d j s) (view_of l cold w d j s)

  abbrev pub ShowsSame : S → S → Type 0
  ShowsSame s s' = (w d j : Text) → shown w d j s' ≡ shown w d j s

  read_ShowsSame : (v c id : Text) (s : S) → ShowsSame s ((stores hot).get v c id s).0
  read_ShowsSame v c id s w d j =
      ap (λ z. first_of z (view_of l cold w d j ((stores hot).get v c id s).0))
        (get_view_of l hot hot v c id w d j s)
      ∙ ap (λ z. first_of (view_of l hot w d j s) z) (get_view_of l cold hot v c id w d j s)

  list_ShowsSame : (v c : Text) (s : S) → ShowsSame s ((stores hot).list v c s).0
  list_ShowsSame v c s w d j =
      ap (λ z. first_of z (view_of l cold w d j ((stores hot).list v c s).0))
        (l.list_view hot hot v c w d j s)
      ∙ ap (λ z. first_of (view_of l hot w d j s) z) (l.list_view cold hot v c w d j s)

  at_record :
      (k : ℕ) (v c id : Text) (e : Envelope) (w d j : Text) (s : S)
      → w ≡ v
      → d ≡ c
      → j ≡ id
      → view_of l k v c id s ≡ some e
      → view_of l k w d j s ≡ some e
  at_record k v c id e w d j s p q r h =
      ap (λ z. view_of l k z d j s) p
      ∙ ap (λ z. view_of l k v z j s) q
      ∙ ap (λ z. view_of l k v c z s) r
      ∙ h

  module _ (apart : hot ≢ cold) (v c id : Text) (e : Envelope) where
    -- A copy to the cold store of what the hot one has.
    copy_ShowsSame :
        (s : S)
        → view_of l hot v c id s ≡ some e
        → ShowsSame s ((stores cold).put v c id e none s).0
    copy_ShowsSame s h w d j =
        let out = ((stores cold).put v c id e none s).1 in
        let C = view_of l cold w d j s in
        let H = view_of l hot w d j s in
        rw (l.put_apart hot cold v c id e none w d j s apart) (
          rw (IsLawful.put_view (l.lawful cold) v c id e none w d j s) (
            if_ok_cases (λ z. first_of H z ≡ first_of H C) out (at_key v c id w d j (some e) C) C
              (at_key_cases (λ z. first_of H z ≡ first_of H C) v c id w d j (some e) C
                (λ p q r. rw (at_record hot v c id e w d j s p q r h) refl) refl)
              refl))

    -- A delete in the hot store of what the cold one has too.
    delete_ShowsSame :
        (s : S)
        → view_of l hot v c id s ≡ some e
        → view_of l cold v c id s ≡ some e
        → ShowsSame s ((stores hot).delete v c id s).0
    delete_ShowsSame s h k w d j =
        let out = ((stores hot).delete v c id s).1 in
        let C = view_of l cold w d j s in
        let H = view_of l hot w d j s in
        rw (l.delete_apart cold hot v c id w d j s (λ z. apart (sym z))) (
          rw (IsLawful.delete_view (l.lawful hot) v c id w d j s) (
            if_ok_cases (λ z. first_of z C ≡ first_of H C) out (at_key v c id w d j none H) H
              (at_key_cases (λ z. first_of z C ≡ first_of H C) v c id w d j none H
                (λ p q r.
                  at_record cold v c id e w d j s p q r k
                  ∙ sym (ap (λ z. first_of z C) (at_record hot v c id e w d j s p q r h)))
                refl)
              refl))

module _ {S : Type 0} {stores : ℕ → NoydbStore S} (l : AreApart stores) (opts : RouteOptions)
    (time_of : Text → Option ℕ) (now : ℕ) (a : AgeRoute) (apart : opts.default_store ≢ a.cold) where
  abbrev Keeps : S → S → Type 0
  Keeps s s' = ShowsSame l opts.default_store a.cold s s'

  counted :
      (n : ℕ) (p : S × Outcome StoreError Unit)
      → (after_cold_delete stores opts time_of now n p).0 ≡ p.0
  unfolding after_cold_delete
  counted n (s, ok u) = refl
  counted n (s, thrown x) = refl

  moved_Keeps :
      (v c id : Text) (e : Envelope) (n : ℕ) (s s1 : S) (out : Outcome StoreError Unit)
      → Keeps s s1
      → view_of l opts.default_store v c id s1 ≡ some e
      → ((u : Unit {0}) → out ≡ ok u → view_of l a.cold v c id s1 ≡ some e)
      → Keeps s (after_cold_put stores opts time_of now v c id n (s1, out)).0
  unfolding after_cold_put
  moved_Keeps v c id e n s s1 (thrown x) h k m = λ w d j. h w d j
  moved_Keeps v c id e n s s1 (ok u) h k m = λ w d j.
      ap (λ z. shown l opts.default_store a.cold w d j z)
        (counted n ((stores opts.default_store).delete v c id s1))
      ∙ delete_ShowsSame l opts.default_store a.cold apart v c id e s1 k (m u refl) w d j
      ∙ h w d j

  copied :
      (v c id : Text) (e : Envelope) (s : S) (u : Unit {0})
      → ((stores a.cold).put v c id e none s).1 ≡ ok u
      → view_of l a.cold v c id ((stores a.cold).put v c id e none s).0 ≡ some e
  copied v c id e s u h =
      IsLawful.put_view (l.lawful a.cold) v c id e none v c id s
      ∙ rw h (at_key_self v c id (some e) _)

  read_Keeps :
      (v c id : Text) (n : ℕ) (s s1 : S) (out : Outcome StoreError (Option Envelope))
      → Keeps s s1
      → ((e : Envelope) → out ≡ ok (some e) → view_of l opts.default_store v c id s1 ≡ some e)
      → Keeps s (after_read stores opts time_of now a v c id n (s1, out)).0
  unfolding after_read
  read_Keeps v c id n s s1 (thrown x) h k = h
  read_Keeps v c id n s s1 (ok none) h k = h
  read_Keeps v c id n s s1 (ok (some e)) h k =
      elim (is_cold opts time_of now c e)
        as (λ b.
          Keeps s
            (if b
              then after_cold_put stores opts time_of now v c id n
                  ((stores a.cold).put v c id e none s1)
              else (s1, ok n)).0) [
                | false ↦ h
                | true ↦
                    moved_Keeps v c id e n s ((stores a.cold).put v c id e none s1).0
                      ((stores a.cold).put v c id e none s1).1
                      (λ w d j.
                        copy_ShowsSame l opts.default_store a.cold apart v c id e s1 (k e refl) w d
                          j
                        ∙ h w d j)
                      (l.put_apart opts.default_store a.cold v c id e none v c id s1 apart
                        ∙ k e refl)
                      (copied v c id e s1)
              ]

  record_Keeps :
      (v c id : Text) (n : ℕ) (s : S)
      → Keeps s (compact_record stores opts time_of now a v c id n s).0
  unfolding compact_record
  record_Keeps v c id n s =
      let p = (stores opts.default_store).get v c id s in
      read_Keeps v c id n s p.0 p.1 (read_ShowsSame l opts.default_store a.cold v c id s) (λ e h.
        get_view_of l opts.default_store opts.default_store v c id v c id s
        ∙ sym (IsLawful.get_ok (l.lawful opts.default_store) v c id s (some e) h))

  then_Keeps :
      (s : S) (p : S × Outcome StoreError ℕ) (k : ℕ → S → S × Outcome StoreError ℕ)
      → Keeps s p.0
      → ((m : ℕ) → Keeps p.0 (k m p.0).0)
      → Keeps s (and_then p k).0
  then_Keeps s (s1, thrown x) k h g = λ w d j. h w d j
  then_Keeps s (s1, ok m) k h g = λ w d j. g m w d j ∙ h w d j

  ids_Keeps :
      (v c : Text) (ids : List Text) (n : ℕ) (s : S)
      → Keeps s (compact_ids stores opts time_of now a v c ids n s).0
  unfolding compact_ids
  ids_Keeps v c [] n s = λ w d j. refl
  ids_Keeps v c (id ∷ ids) n s =
      then_Keeps s (compact_record stores opts time_of now a v c id n s)
        (compact_ids stores opts time_of now a v c ids) (record_Keeps v c id n s)
        (λ m. ids_Keeps v c ids m (compact_record stores opts time_of now a v c id n s).0)

  collections_Keeps :
      (v : Text) (names : List Text) (n : ℕ) (s : S)
      → Keeps s (compact_collections stores opts time_of now a v names n s).0
  unfolding compact_collections
  collections_Keeps v [] n s = λ w d j. refl
  collections_Keeps v (c ∷ names) n s =
      let q = (stores opts.default_store).list v c s in
      let p = compact_ids stores opts time_of now a v c (or_no_ids q.1) n q.0 in
      then_Keeps s p (compact_collections stores opts time_of now a v names)
        (λ w d j.
          ids_Keeps v c (or_no_ids q.1) n q.0 w d j
          ∙ list_ShowsSame l opts.default_store a.cold v c s w d j)
        (λ m. collections_Keeps v names m p.0)

  aged_Keeps :
      (v : Text) (names : List Text) (s : S)
      → Keeps s (compact_aged stores opts time_of now a names v s).0
  unfolding compact_aged
  aged_Keeps v [] s =
      let q = (stores opts.default_store).list v [] s in
      λ w d j.
        collections_Keeps v (or_no_ids q.1) 0 q.0 w d j
        ∙ list_ShowsSame l opts.default_store a.cold v [] s w d j
  aged_Keeps v (c ∷ names) s = collections_Keeps v (c ∷ names) 0 s

  -- Whatever fails on the way, the default store and the cold store together show, for every
  -- record, what they showed before `compact`, if they are two stores.
  pub compact-ShowsSame :
      (v : Text) (s : S)
      → opts.age ≡ some a
      → ShowsSame l opts.default_store a.cold s (compact stores opts time_of now v s).0
  unfolding compact compact_option
  compact-ShowsSame v s h =
      subst (λ o. Keeps s (compact_option stores opts time_of now o v s).0) (sym h)
        (aged_Keeps v a.collections s)
