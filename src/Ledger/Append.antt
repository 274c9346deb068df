-- ===== src/Ledger/Append.antt =====
-- `append`: the chain and the cached head.
use mathlib.Core.Path.{subst}
use noydb.Base.{
  ℕ, suc, ◌+◌, ◌≡◌, ◌∙◌, sym, refl, ap, Option, none, some, List, [], ◌∷◌, ◌++◌, length,
  length-append, Text, arith,
}
use noydb.Store.{IsLawful, at_key, StoreError, Outcome, ok, thrown, NoydbStore, Envelope}
use noydb.Patch
use noydb.Entry.{LedgerEntry, Platform, verified, hash_entry, verify_entries, padded_index}
use noydb.Ledger.{
  LedgerState, LedgerError, LedgerOptions, AppendInput, Draw, Head, called, after, load_all_entries,
  load_head, keep_head, get_cached_head, put_delta, delta_hash_of, written, write_entry,
  write_after, encrypt_delta, encrypt_entry, deltas_collection, ledger_collection, append,
  next_entry, next_index, next_prev_hash, head_of, last,
}
use noydb.Ledger.Quiet.{ListsUnseen, get_cached_head-Quiet}
use noydb.Ledger.Chain.{back, Chain, verify_entries_iff}

back-append : (l m seen : List LedgerEntry) → back (l ++ m) seen ≡ back m (back l seen)
back-append [] m seen = refl
back-append (e ∷ l) m seen = back-append l m (e ∷ seen)

last-append : (l : List LedgerEntry) (e : LedgerEntry) → last (l ++ e ∷ []) ≡ some e
last-append [] e = refl
last-append (f ∷ []) e = refl
last-append (f ∷ g ∷ l) e = last-append (g ∷ l) e

length-back : (l seen : List LedgerEntry) → length (back l seen) ≡ length l + length seen
length-back [] seen = omega arith
length-back (e ∷ l) seen = omega (arith, length-back l (e ∷ seen))

called_ok :
    {S : Type 0} (cache : Option (Option Head)) (r : S × Outcome StoreError Unit)
    → r.1 ≡ ok tt
    → (s : LedgerState S) × (called cache r ≡ (s, ok tt)) × (s.store ≡ r.0)
called_ok cache (t, ok tt) h = (_, refl, refl)
called_ok cache (t, thrown e) h = cc

last-back :
    (l seen : List LedgerEntry) (e : LedgerEntry)
    → last l ≡ some e
    → (rest : List LedgerEntry) × (back l seen ≡ e ∷ rest)
last-back [] seen e h = cc
last-back (f ∷ []) seen e h = (seen, cc)
last-back (f ∷ g ∷ l) seen e h = last-back (g ∷ l) (f ∷ seen) e h

last-none : (l : List LedgerEntry) → last l ≡ none → l ≡ []
last-none [] h = refl
last-none (f ∷ []) h = cc
last-none (f ∷ g ∷ l) h = absurd (ground (arith, last-none (g ∷ l) h))

module _ (platform : Platform) where
  -- The cached head, where there is one, is that of the entries.
  abbrev pub IsCoherent : List LedgerEntry → Option (Option Head) → Type 0
  IsCoherent l none = Unit
  IsCoherent l (some none) = last l ≡ none
  IsCoherent l (some (some h)) = (last l ≡ some h.entry) × (h.hash ≡ hash_entry platform h.entry)

  -- A head says where the chain goes on.
  abbrev Continues : List LedgerEntry → Text → Option Head → Type 0
  Continues l h c = (next_index c ≡ length l) × (next_prev_hash c ≡ h)

  continue_none :
      (l : List LedgerEntry) (h : Text)
      → Chain platform (back l []) h
      → last l ≡ none
      → Continues l h none
  continue_none [] h c e = (refl, sym c)
  continue_none (f ∷ l) h c e = absurd (ground (arith, last-none (f ∷ l) e))

  continue_some :
      (l : List LedgerEntry) (h : Text) (e : LedgerEntry)
      → Chain platform (back l []) h
      → last l ≡ some e
      → (e.index + 1 ≡ length l) × (hash_entry platform e ≡ h)
  continue_some l h e c f =
      let (rest, same) = last-back l [] e f in
      let d = subst (λ z. Chain platform z h) same c in
      let n : length (back l []) ≡ suc (length rest) = ap length same in
      (omega (arith, d.1, n, length-back l []), d.0)

  -- One more entry after a chain.
  verify-append :
      (l : List LedgerEntry) (h : Text) (n : ℕ) (e : LedgerEntry)
      → verify_entries platform l ≡ verified h n
      → e.index ≡ length l
      → e.prev_hash ≡ h
      → verify_entries platform (l ++ e ∷ []) ≡ verified (hash_entry platform e) (suc (length l))
  verify-append l h n e v i p =
      let (c, m) = (verify_entries_iff platform l h n).0 v in
      let here : e.index ≡ length (back l []) = omega (arith, i, length-back l []) in
      (verify_entries_iff platform (l ++ e ∷ []) (hash_entry platform e) (suc (length l))).1 (
        subst (λ z. Chain platform z (hash_entry platform e)) (sym (back-append l (e ∷ []) []))
            (refl, here, subst (Chain platform (back l [])) (sym p) c),
        omega (arith, length-append l (e ∷ [])),
      )

module _ {S : Type 0} (platform : Platform) (options : LedgerOptions) (adapter : NoydbStore S) where
  kept_lem :
      (l : List LedgerEntry) (h : Text) (o : Option LedgerEntry) (t : LedgerState S)
      → Chain platform (back l []) h
      → last l ≡ o
      → (t' : LedgerState S) × (c : Option Head) × (keep_head platform options adapter o t
          ≡ (t', ok c))
        × Continues platform l h c
  kept_lem l h none t c e = (_, none, refl, continue_none platform l h c e)
  kept_lem l h (some f) t c e =
      let (i, k) = continue_some platform l h f c e in (_, some (head_of platform f), refl, (i, k))

  loaded_lem :
      (l : List LedgerEntry) (h : Text) (r : LedgerState S × Outcome LedgerError (List LedgerEntry))
      → Chain platform (back l []) h
      → r.1 ≡ ok l
      → (t : LedgerState S) × (c : Option Head) × (after
            (λ es. keep_head platform options adapter (last es))
            r
          ≡ (t, ok c))
        × Continues platform l h c
  loaded_lem l h (s, ok m) c e =
      let same : m ≡ l = cc in kept_lem l h (last m) s c (ap last (sym same))
  loaded_lem l h (s, thrown x) c e = cc

  cached_lem :
      (l : List LedgerEntry) (h : Text) (s : LedgerState S)
      → Chain platform (back l []) h
      → IsCoherent platform l s.head_cache
      → (load_all_entries platform options adapter s).1 ≡ ok l
      → (t : LedgerState S) × (c : Option Head) × (get_cached_head platform options adapter s
          ≡ (t, ok c))
        × Continues platform l h c
  unfolding get_cached_head load_head
  cached_lem l h s c k r =
      elim s.head_cache
          as (λ o.
            IsCoherent platform l o
            → (t : LedgerState S) × (c : Option Head) × ((elim o [
              | some h ↦ (s, ok h)
              | none ↦ load_head platform options adapter s
            ])
                ≡ (t, ok c))
              × Continues platform l h c) [
                | none ↦ λ k. loaded_lem l h (load_all_entries platform options adapter s) c r
                | some none ↦ λ k. (s, none, refl, continue_none platform l h c k)
                | some (some f) ↦ λ k.
                    let (i, e) = continue_some platform l h f.entry c k.0 in
                    (s, some f, refl, (i, k.1 ∙ e))
              ]
        k

  -- No write of the store throws.
  abbrev pub Writes : Type 0
  Writes = (c k : Text) (e : Envelope) (t : S) → (adapter.put options.vault c k e none t).1 ≡ ok tt

  -- The store after the write of the patch.
  abbrev delta_store : ℕ → Draw → Option (List Patch.Op) → S → S
  delta_store n d none t = t
  delta_store n d (some ops) t =
      (adapter.put options.vault deltas_collection (padded_index n)
        (encrypt_delta platform options adapter d ops) none t).0

  put_delta_lem :
      (n : ℕ) (d : Draw) (o : Option (List Patch.Op)) (s : LedgerState S)
      → Writes
      → (t : LedgerState S) × (h : Option Text) × (put_delta platform options adapter n d o s
          ≡ (t, ok h))
        × (t.store ≡ delta_store n d o s.store)
  unfolding put_delta
  put_delta_lem n d none s w = (s, none, refl, refl)
  put_delta_lem n d (some ops) s w =
      let sealed = encrypt_delta platform options adapter d ops in
      let (t, e, k) =
        called_ok s.head_cache
          (adapter.put options.vault deltas_collection (padded_index n) sealed none s.store)
          (w deltas_collection (padded_index n) sealed s.store) in
      (
        t,
        some (platform.sha256_hex sealed.data_text),
        ap (after (λ z. delta_hash_of platform options adapter sealed)) e,
        k,
      )

  module _ (law : IsLawful adapter) where
    -- A record of the vault as the store shows it.
    abbrev pub seen : Text → Text → S → Option Envelope
    seen c j t = IsLawful.view law options.vault c j t

    put_seen :
        (c k d j : Text) (e : Envelope) (t : S)
        → (adapter.put options.vault c k e none t).1 ≡ ok tt
        → seen d j (adapter.put options.vault c k e none t).0
          ≡ at_key options.vault c k options.vault d j (some e) (seen d j t)
    put_seen c k d j e t h =
        IsLawful.put_view law options.vault c k e none options.vault d j t ∙ rw h refl

    -- The patch that is stored beside the entry.
    abbrev pub delta_seen :
        Text → Text → ℕ → Draw → Option (List Patch.Op) → Option Envelope → Option Envelope
    delta_seen c j n d none o = o
    delta_seen c j n d (some ops) o =
        at_key options.vault deltas_collection (padded_index n) options.vault c j
          (some (encrypt_delta platform options adapter d ops)) o

    seen-delta_store :
        (c j : Text) (n : ℕ) (d : Draw) (o : Option (List Patch.Op)) (t : S)
        → Writes
        → seen c j (delta_store n d o t) ≡ delta_seen c j n d o (seen c j t)
    seen-delta_store c j n d none t w = refl
    seen-delta_store c j n d (some ops) t w =
        put_seen deltas_collection (padded_index n) c j _ t
          (w deltas_collection (padded_index n) _ t)

    -- What the store shows after an append of the entry at position `n`.
    abbrev pub Stored : ℕ → AppendInput → Draw → Draw → LedgerEntry → S → S → Type 0
    Stored n input dd d e s t =
        (c j : Text)
        → seen c j t
          ≡ at_key options.vault ledger_collection (padded_index n) options.vault c j
              (some (encrypt_entry platform options adapter d.vector e))
              (delta_seen c j n dd input.delta (seen c j s))

    -- `append` on a ledger that verifies, over a lawful store whose lists change nothing and whose
    -- writes settle: it settles to an entry; the store shows that entry, encrypted, under the next
    -- position, and the patch, if there is one, beside it, and every other record of the vault as
    -- before; the entries with it verify, its position is the next one, and the cached head is its.
    pub append-verify :
        (l : List LedgerEntry) (h : Text) (n : ℕ) (input : AppendInput) (dd d : Draw)
        (s : LedgerState S)
        → ListsUnseen adapter law
        → Writes
        → IsCoherent platform l s.head_cache
        → (load_all_entries platform options adapter s).1 ≡ ok l
        → verify_entries platform l ≡ verified h n
        → (e : LedgerEntry) × (t : LedgerState S) × (append platform options adapter input dd d s
            ≡ (t, ok e))
          × Stored (length l) input dd d e s.store t.store
          × (e.index ≡ length l)
          × (verify_entries platform (l ++ e ∷ []) ≡ verified (hash_entry platform e) (suc n))
          × (t.head_cache ≡ some (some (head_of platform e)))
          × IsCoherent platform (l ++ e ∷ []) t.head_cache
    unfolding append write_entry
    append-verify l h n input dd d s lists w k r v =
        let (c, m) = (verify_entries_iff platform l h n).0 v in
        let (t1, head, e1, (i, p)) = cached_lem l h s c k r in
        let (t2, delta, e2, k2) = put_delta_lem (next_index head) dd input.delta t1 w in
        let entry = next_entry platform options adapter head input d.now delta in
        let sealed = encrypt_entry platform options adapter d.vector entry in
        let key = padded_index entry.index in
        let (t3, e3, k3) =
          called_ok t2.head_cache
            (adapter.put options.vault ledger_collection key sealed none t2.store)
            (w ledger_collection key sealed t2.store) in
        let quiet : (c j : Text) → seen c j t1.store ≡ seen c j s.store = λ c j.
          sym (ap (λ z. seen c j z.0.store) e1)
          ∙ get_cached_head-Quiet adapter law options.vault c j platform options lists s in
        let delta_there : (c j : Text)
            → seen c j t2.store ≡ delta_seen c j (length l) dd input.delta (seen c j s.store) =
          λ c j.
            ap (seen c j) k2
            ∙ seen-delta_store c j (next_index head) dd input.delta t1.store w
            ∙ ap (λ z. delta_seen c j z dd input.delta (seen c j t1.store)) i
            ∙ ap (delta_seen c j (length l) dd input.delta) (quiet c j) in
        let there : Stored (length l) input dd d entry s.store t3.store = λ c j.
          ap (seen c j) k3
          ∙ put_seen ledger_collection key c j sealed t2.store
              (w ledger_collection key sealed t2.store)
          ∙ ap
              (λ z.
                at_key options.vault ledger_collection (padded_index z) options.vault c j
                  (some sealed) (seen c j t2.store))
              i
          ∙ ap
              (at_key options.vault ledger_collection (padded_index (length l)) options.vault c j
                (some sealed))
              (delta_there c j) in
        (
          entry,
          _,
          ap (after (write_after platform options adapter input dd d)) e1
              ∙ ap (after (write_entry platform options adapter input d head)) e2
              ∙ ap (after (λ z. written platform options adapter entry)) e3,
          there,
          i,
          verify-append platform l h n entry v i p
              ∙ ap (verified (hash_entry platform entry)) (omega (arith, m)),
          refl,
          (last-append l entry, refl),
        )
