-- ===== src/Ledger/Chain.antt =====
-- The chain of hashes, and what `verify` says of it.
use mathlib.Core.Path.{subst}
use noydb.Base.{
  ℕ, suc, ◌+◌, ◌≡◌, ◌↔◌, ◌∙◌, sym, refl, ap, ◌==◌, ==_iff, if◌then◌else◌, Bool, true, false, ite,
  List, [], ◌∷◌, length, Text, dec_text, arith,
}
use noydb.Entry.{
  LedgerEntry, Platform, VerifyResult, verified, diverged, hash_entry, verify_from, verify_entries,
}

-- The entries in front of a list, the latest first.
abbrev pub back : List LedgerEntry → List LedgerEntry → List LedgerEntry
back [] seen = seen
back (e ∷ l) seen = back l (e ∷ seen)

settled : {p h : Text} {i n : ℕ} → verified p i ≡ verified h n → (p ≡ h) × (i ≡ n)
settled r = (cc, cc)

-- The two guards of a turn.
guards :
    {A : Type 0} (d : Dec A) (b : Bool) (rest : VerifyResult) (k m : ℕ) (x y z w h : Text) (n : ℕ)
    → ite d (if b then rest else diverged k x y) (diverged m z w) ≡ verified h n
    → A × (b ≡ true) × (rest ≡ verified h n)
guards (yes a) true rest k m x y z w h n r = (a, refl, r)
guards (yes a) false rest k m x y z w h n r = cc
guards (no d) b rest k m x y z w h n r = cc

pub pass :
    {A : Type 0} (d : Dec A) (b : Bool) (x y z : VerifyResult)
    → A
    → b ≡ true
    → ite d (if b then x else y) z ≡ x
pass (yes a) true x y z h e = refl
pass (yes a) false x y z h e = cc
pass (no d) b x y z h e = absurd (d h)

module _ (platform : Platform) where
  -- Entries, the latest first, that end in a hash: each holds the hash of the one before and its
  -- own position.
  abbrev pub Chain : List LedgerEntry → Text → Type 0
  Chain [] h = h ≡ []
  Chain (e ∷ l) h = (hash_entry platform e ≡ h) × (e.index ≡ length l) × Chain l e.prev_hash

  pub Chain-unique : (l : List LedgerEntry) (h k : Text) → Chain l h → Chain l k → h ≡ k
  Chain-unique [] h k c d = c ∙ sym d
  Chain-unique (e ∷ l) h k c d = sym c.0 ∙ d.0

  -- One turn of the loop.
  link :
      (i : ℕ) (p h : Text) (n : ℕ) (e : LedgerEntry) (l : List LedgerEntry)
      → verify_from platform i p (e ∷ l) ≡ verified h n
      → (e.prev_hash ≡ p)
        × (e.index ≡ i)
        × (verify_from platform (suc i) (hash_entry platform e) l ≡ verified h n)
  unfolding verify_from
  link i p h n e l r =
      let (a, b, c) = guards (dec_text e.prev_hash p) (e.index == i) _ _ _ _ _ _ _ h n r in
      (a, (==_iff e.index i).0 b, c)

  verify-Chain :
      (i : ℕ) (p h : Text) (n : ℕ) (l seen : List LedgerEntry)
      → Chain seen p
      → length seen ≡ i
      → verify_from platform i p l ≡ verified h n
      → Chain (back l seen) h × (n ≡ i + length l)
  unfolding verify_from
  verify-Chain i p h n [] seen c s r =
      let (a, b) = settled r in (subst (Chain seen) a c, omega (arith, b))
  verify-Chain i p h n (e ∷ l) seen c s r =
      let (a, b, r') = link i p h n e l r in
      let (d, m) =
        verify-Chain (suc i) (hash_entry platform e) h n l (e ∷ seen)
          (refl, b ∙ sym s, subst (Chain seen) (sym a) c) (omega (arith, s)) r' in
      (d, omega (arith, m))

  Chain-front :
      (l seen : List LedgerEntry) (h : Text) → Chain (back l seen) h → (p : Text) × Chain seen p
  Chain-front [] seen h c = (h, c)
  Chain-front (e ∷ l) seen h c = let (p, d) = Chain-front l (e ∷ seen) h c in (e.prev_hash, d.2)

  Chain-verify :
      (p h : Text) (l seen : List LedgerEntry)
      → Chain seen p
      → Chain (back l seen) h
      → verify_from platform (length seen) p l ≡ verified h (length seen + length l)
  unfolding verify_from
  Chain-verify p h [] seen c d =
      ap (λ z. verified z (length seen)) (Chain-unique seen p h c d) ∙ ap (verified h) (omega arith)
  Chain-verify p h (e ∷ l) seen c d =
      let (q, f) = Chain-front l (e ∷ seen) h d in
      let same : e.prev_hash ≡ p = Chain-unique seen e.prev_hash p f.2 c in
      let rest = Chain-verify (hash_entry platform e) h l (e ∷ seen) (refl, f.1, f.2) d in
      pass (dec_text e.prev_hash p) (e.index == length seen) _ _ _ same
        ((==_iff e.index (length seen)).1 f.1)
      ∙ rest
      ∙ ap (verified h) (omega arith)

  -- `verify` settles to a hash and a length exactly if the entries are a chain that ends in the
  -- hash and there are as many.
  pub verify_entries_iff :
      (l : List LedgerEntry) (h : Text) (n : ℕ)
      → (verify_entries platform l ≡ verified h n) ↔ (Chain (back l []) h × (n ≡ length l))
  unfolding verify_entries
  verify_entries_iff l h n = (
    λ r. let (c, m) = verify-Chain 0 [] h n l [] refl refl r in (c, omega (arith, m)),
    λ (c, m). Chain-verify [] h l [] refl c ∙ ap (verified h) (omega (arith, m)),
  )
