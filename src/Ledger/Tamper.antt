-- ===== src/Ledger/Tamper.antt =====
-- What a published hash of the ledger's head says of its entries.
use mathlib.Core.Path.{subst}
use mathlib.Core.List.{append-nil}
use noydb.Base.{
  ℕ, suc, ◌+◌, ◌≡◌, ◌≢◌, ◌∙◌, sym, refl, ap, ◌⊎◌, inl, inr, ◌==◌, if◌then◌else◌, Bool, true, false,
  ite, List, [], ◌∷◌, ◌++◌, take, get_elem?, some, codes, ==_iff, Text, dec_text, All, All-map,
  arith,
}
use noydb.Json.{decimal}
use noydb.Entry.{
  LedgerEntry, Platform, VerifyResult, verified, diverged, hash_entry, verify_from, verify_entries,
}
use noydb.Ledger.Chain.{back, Chain, pass, verify_entries_iff}

All-back :
    (P : LedgerEntry → Type 0) (l seen : List LedgerEntry)
    → All P l
    → All P seen
    → All P (back l seen)
All-back P [] seen a b = b
All-back P (e ∷ l) seen a b = All-back P l (e ∷ seen) a.1 (a.0, b)

back-back : (l seen rest : List LedgerEntry) → back (back l seen) rest ≡ back seen (l ++ rest)
back-back [] seen rest = refl
back-back (e ∷ l) seen rest = back-back l (e ∷ seen) rest

back_injective : (l m : List LedgerEntry) → back l [] ≡ back m [] → l ≡ m
back_injective l m h =
    sym (back-back l [] [] ∙ append-nil l)
    ∙ ap (λ z. back z []) h
    ∙ back-back m [] []
    ∙ append-nil m

module _ (platform : Platform) where
  -- No two different entries of the two lists have the same hash.
  abbrev pub NoCollision : List LedgerEntry → List LedgerEntry → Type 0
  NoCollision l m = All (λ e. All (λ f. hash_entry platform e ≡ hash_entry platform f → e ≡ f) m) l

  chain_lem :
      (l m : List LedgerEntry) (h : Text)
      → ((t : Text) → platform.sha256_hex t ≢ [])
      → NoCollision l m
      → Chain platform l h
      → Chain platform m h
      → l ≡ m
  unfolding hash_entry
  chain_lem [] [] h full n c d = refl
  chain_lem [] (f ∷ m) h full n c d = absurd (full _ (d.0 ∙ c))
  chain_lem (e ∷ l) [] h full n c d = absurd (full _ (c.0 ∙ d))
  chain_lem (e ∷ l) (f ∷ m) h full n c d =
      let same : e ≡ f = n.0.0 (c.0 ∙ sym d.0) in
      let rest =
        chain_lem l m e.prev_hash full (All-map l (λ x a. a.1) n.1) c.2
          (subst (Chain platform m) (ap (λ x. x.prev_hash) (sym same)) d.2) in
      cc

  -- Two ledgers that `verify` accepts with the same head hash have the same entries, if no digest
  -- is empty and no two different entries of the two have the same hash.
  pub verify-NoCollision :
      (l m : List LedgerEntry) (h : Text) (i j : ℕ)
      → ((t : Text) → platform.sha256_hex t ≢ [])
      → NoCollision l m
      → verify_entries platform l ≡ verified h i
      → verify_entries platform m ≡ verified h j
      → l ≡ m
  verify-NoCollision l m h i j full n v w = back_injective l m (
      chain_lem (back l []) (back m []) h full
        (All-back _ l [] (All-map l (λ e a. All-back _ m [] a tt) n) tt)
        ((verify_entries_iff platform l h i).0 v).0 ((verify_entries_iff platform m h j).0 w).0)

  -- Why `verify` stops at an entry, after entries that end in the hash: the hash or the position
  -- that the entry holds is not the one expected.
  abbrev pub IsBroken : LedgerEntry → Text → ℕ → Text → Text → Type 0
  IsBroken e h k x y =
      ((e.prev_hash ≢ h) × (x ≡ h) × (y ≡ e.prev_hash))
      ⊎ ((e.prev_hash ≡ h)
          × (e.index ≢ k)
          × (x ≡ codes "index=" ++ decimal k)
          × (y ≡ codes "index=" ++ decimal e.index))

  -- Where a turn diverges, or the next does.
  stops :
      {A : Type 0} (d : Dec A) (b : Bool) (rest : VerifyResult) (i k : ℕ) (x y z w u v : Text)
      → ite d (if b then rest else diverged i x y) (diverged i z w) ≡ diverged k u v
      → (A × (b ≡ true) × (rest ≡ diverged k u v))
        ⊎ ((i ≡ k) × (((A → ⊥) × (u ≡ z) × (v ≡ w)) ⊎ (A × (b ≡ false) × (u ≡ x) × (v ≡ y))))
  stops (yes a) true rest i k x y z w u v r = inl (a, refl, r)
  stops (yes a) false rest i k x y z w u v r = inr (cc, inr (a, refl, cc, cc))
  stops (no d) b rest i k x y z w u v r = inr (cc, inl (d, cc, cc))

  not_here : (n i : ℕ) → (n == i) ≡ false → n ≢ i
  not_here n i h e = ground (arith, (==_iff n i).1 e)

  before :
      (i k : ℕ) (p x y : Text) (l : List LedgerEntry)
      → verify_from platform i p l ≡ diverged k x y
      → (m : ℕ) × (i + m ≡ k)
        × (h : Text) × (verify_from platform i p (take m l) ≡ verified h k)
        × (e : LedgerEntry) × (get_elem? l m ≡ some e)
        × IsBroken e h k x y
  unfolding verify_from
  before i k p x y [] r = absurd (ground (arith, r))
  before i k p x y (e ∷ l) r =
      elim (stops (dec_text e.prev_hash p) (e.index == i) _ i k _ _ _ _ x y r) [
        | inr (here, why) ↦ (
          0,
          omega (arith, here),
          p,
          ap (verified p) here,
          e,
          refl,
          elim why [
            | inl (d, a, b) ↦ inl (d, a, b)
            | inr (d, n, a, b) ↦ inr (
              d,
              λ z. not_here e.index i n (z ∙ sym here),
              a ∙ ap (λ j. codes "index=" ++ decimal j) here,
              b,
            )
          ],
        )
        | inl (a, b, later) ↦
            let (m, le, h, v, f, at, why) = before (suc i) k (hash_entry platform e) x y l later in
            (
              suc m,
              omega (arith, le),
              h,
              pass (dec_text e.prev_hash p) (e.index == i) _ _ _ a b ∙ v,
              f,
              at,
              why,
            )
      ]

  -- Where `verify` says that the ledger diverges, the entries before verify, and the entry there is
  -- the broken one: it does not hold the hash of what is before it, or its own position, and the
  -- two texts that `verify` answers are the expected one and the one that it holds.
  pub verify-diverged :
      (l : List LedgerEntry) (k : ℕ) (x y : Text)
      → verify_entries platform l ≡ diverged k x y
      → (h : Text) × (verify_entries platform (take k l) ≡ verified h k)
        × (e : LedgerEntry) × (get_elem? l k ≡ some e)
        × IsBroken e h k x y
  unfolding verify_entries
  verify-diverged l k x y r =
      let (m, le, h, v, e, at, why) = before 0 k [] x y l r in
      let same : m ≡ k = omega (arith, le) in
      (
        h,
        subst (λ j. verify_from platform 0 [] (take j l) ≡ verified h k) same v,
        e,
        subst (λ j. get_elem? l j ≡ some e) same at,
        why,
      )
