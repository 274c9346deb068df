-- ===== src/Route/Snapshots/Newest.antt =====
-- What the merge of snapshots keeps of a record.
use mathlib.Core.Path.{subst}
use noydb.Base.{
  false, ◌≡◌, ◌∙◌, sym, refl, ap, ◌⊎◌, inl, inr, if◌then◌else◌, true, Bool-cases, Option, none,
  some, List, [], ◌∷◌, lookup, Text, dec_text, text_le, text_le_total, text_le_trans, All, arith,
  ite,
}
use noydb.Dict.{Distinct, insert, lookup-insert}
use noydb.Objects.{
  absent, own, inherited, member_of, inherits, IsPlain, IsPlain-head, IsPlain-tail, read-plain,
}
use noydb.Store.{Envelope, Records, VaultSnapshot}
use noydb.Route.Snapshots.{
  keep_newest, merge_records, merge_collection, merge_snapshot, merge_all, merge_snapshots,
}

-- The record in a snapshot.
abbrev pub at_id : Text → Option Records → Option Envelope
at_id id none = none
at_id id (some l) = lookup dec_text id l

abbrev pub record_of : Text → Text → VaultSnapshot → Option Envelope
record_of c id d = at_id id (lookup dec_text c d)

-- No id is there twice, or has the name of a member that objects inherit.
abbrev pub IsRecords : Records → Type 0
IsRecords l = Distinct dec_text l × IsPlain l

-- The same for the collections and for the ids of each.
abbrev pub IsObject : VaultSnapshot → Type 0
IsObject d = Distinct dec_text d × IsPlain d × All (λ e. IsRecords e.1) d

-- The later of two envelopes, the second on a tie.
abbrev newer : Option Envelope → Option Envelope → Option Envelope
newer none b = b
newer (some x) none = some x
newer (some x) (some y) = if text_le x.ts y.ts then some y else some x

newer-none : (a : Option Envelope) → newer a none ≡ a
newer-none none = refl
newer-none (some x) = refl

lookup-keep_newest :
    (id k : Text) (e : Envelope) (l : Records)
    → inherits k ≡ false
    → lookup dec_text id (keep_newest k e l)
      ≡ ite (dec_text id k) (newer (lookup dec_text id l) (some e)) (lookup dec_text id l)
unfolding keep_newest
lookup-keep_newest id k e l h =
    rw (read-plain k l h, keep_newest) (ground (arith, lookup-insert dec_text k id e l))

-- `b` at the key alone: what is merged, then the rest, which lacks the key.
newer_entry :
    (id k : Text) (e : Envelope) (a rest : Option Envelope)
    → (id ≡ k → rest ≡ none)
    → newer (ite (dec_text id k) (newer a (some e)) a) rest
      ≡ newer a (ite (dec_text id k) (some e) rest)
newer_entry id k e a rest h =
    elim (dec_text id k)
      as (λ o. newer (ite o (newer a (some e)) a) rest ≡ newer a (ite o (some e) rest)) [
        | no _ ↦ refl
        | yes p ↦ rw (h p) (newer-none _)
      ]

lookup-merge_records :
    (id : Text) (l merged : Records)
    → IsRecords l
    → lookup dec_text id (merge_records merged l)
      ≡ newer (lookup dec_text id merged) (lookup dec_text id l)
unfolding merge_records lookup
lookup-merge_records id [] merged d = sym (newer-none _)
lookup-merge_records id (e ∷ l) merged d =
    lookup-merge_records id l (keep_newest e.0 e.1 merged) (d.0.1, IsPlain-tail e l d.1)
    ∙ rw (lookup-keep_newest id e.0 e.1 merged (IsPlain-head e l d.1)) (
        newer_entry id e.0 e.1 (lookup dec_text id merged) (lookup dec_text id l)
          (λ p. ap (λ z. lookup dec_text z l) p ∙ d.0.0))

at_id-ite :
    (id c k : Text) (r : Records) (o : Option Records)
    → at_id id (ite (dec_text c k) (some r) o)
      ≡ ite (dec_text c k) (lookup dec_text id r) (at_id id o)
at_id-ite id c k r o = ground arith

record_of-insert :
    (c id k : Text) (r : Records) (m : VaultSnapshot)
    → record_of c id (insert dec_text k r m)
      ≡ ite (dec_text c k) (lookup dec_text id r) (record_of c id m)
record_of-insert c id k r m =
    ap (at_id id) (lookup-insert dec_text k c r m) ∙ at_id-ite id c k r (lookup dec_text c m)

at_collection :
    (c k : Text) (x y z : Option Envelope)
    → (c ≡ k → x ≡ y)
    → ite (dec_text c k) x z ≡ ite (dec_text c k) y z
at_collection c k x y z h = elim (dec_text c k) as (λ o. ite o x z ≡ ite o y z) [
  | no _ ↦ refl
  | yes p ↦ h p
]

record_of-merge_collection :
    (c id k : Text) (records : Records) (merged : VaultSnapshot)
    → IsRecords records
    → inherits k ≡ false
    → record_of c id (merge_collection k records merged)
      ≡ ite
          (dec_text c k)
          (newer (record_of c id merged) (lookup dec_text id records))
          (record_of c id merged)
unfolding merge_collection
record_of-merge_collection c id k records merged d plain =
    rw (read-plain k merged plain, merge_collection)
      (elim (lookup dec_text k merged)
          as (λ o.
            lookup dec_text k merged ≡ o
            → record_of c id (elim (member_of o false) [
              | absent ↦ insert dec_text k records merged
              | own there ↦ insert dec_text k (merge_records there records) merged
              | inherited ↦ merged
            ])
              ≡ ite (dec_text c k) (newer (record_of c id merged) (lookup dec_text id records))
                  (record_of c id merged)) [
                    | none ↦ λ h.
                        record_of-insert c id k records merged
                        ∙ at_collection c k _ _ _ (λ p. sym (
                            ap (λ o. newer (at_id id o) (lookup dec_text id records))
                              (ap (λ z. lookup dec_text z merged) p ∙ h)))
                    | some there ↦ λ h.
                        record_of-insert c id k (merge_records there records) merged
                        ∙ at_collection c k _ _ _ (λ p.
                          lookup-merge_records id records there d
                          ∙ sym (
                              ap (λ o. newer (at_id id o) (lookup dec_text id records))
                                (ap (λ z. lookup dec_text z merged) p ∙ h)))
                  ]
        refl)

newer_collection :
    (c id k : Text) (r : Records) (a : Option Envelope) (rest : Option Records)
    → (c ≡ k → rest ≡ none)
    → newer (ite (dec_text c k) (newer a (lookup dec_text id r)) a) (at_id id rest)
      ≡ newer a (at_id id (ite (dec_text c k) (some r) rest))
newer_collection c id k r a rest h =
    elim (dec_text c k)
      as (λ o.
        newer (ite o (newer a (lookup dec_text id r)) a) (at_id id rest)
        ≡ newer a (at_id id (ite o (some r) rest))) [
          | no _ ↦ refl
          | yes p ↦ rw (h p) (newer-none _)
        ]

record_of-merge_snapshot :
    (c id : Text) (d merged : VaultSnapshot)
    → IsObject d
    → record_of c id (merge_snapshot merged d) ≡ newer (record_of c id merged) (record_of c id d)
unfolding merge_snapshot lookup
record_of-merge_snapshot c id [] merged o = sym (newer-none _)
record_of-merge_snapshot c id (e ∷ d) merged o =
    record_of-merge_snapshot c id d (merge_collection e.0 e.1 merged)
      (o.0.1, IsPlain-tail e d o.1, o.2.1)
    ∙ rw (record_of-merge_collection c id e.0 e.1 merged o.2.0 (IsPlain-head e d o.1)) (
        newer_collection c id e.0 e.1 (record_of c id merged) (lookup dec_text c d)
          (λ p. ap (λ z. lookup dec_text z d) p ∙ o.0.0))

-- The snapshot has the envelope, or one that is not later.
abbrev Within : Envelope → Option Envelope → Type 0
Within m none = Unit
Within m (some e) = text_le e.ts m.ts ≡ true

-- One of the snapshots has the envelope.
abbrev Among : Text → Text → Envelope → List VaultSnapshot → Type 0
Among c id m [] = ⊥
Among c id m (d ∷ l) = (record_of c id d ≡ some m) ⊎ Among c id m l

-- The envelope of one of the snapshots that is not earlier than that of any other; none, if no
-- snapshot has one.
abbrev pub IsNewest : Text → Text → List VaultSnapshot → Option Envelope → Type 0
IsNewest c id l none = All (λ d. record_of c id d ≡ none) l
IsNewest c id l (some m) = Among c id m l × All (λ d. Within m (record_of c id d)) l

-- The same, with an envelope that is there before the snapshots.
abbrev After : Text → Text → Option Envelope → List VaultSnapshot → Option Envelope → Type 0
After c id a l none = (a ≡ none) × All (λ d. record_of c id d ≡ none) l
After c id a l (some m) =
    ((a ≡ some m) ⊎ Among c id m l) × Within m a × All (λ d. Within m (record_of c id d)) l

text_le_refl : (a : Text) → text_le a a ≡ true
text_le_refl a = elim (Bool-cases (text_le a a)) [ inl h ↦ h | inr h ↦ text_le_total a a h ]

newer-none_iff : (a b : Option Envelope) → newer a b ≡ none → (a ≡ none) × (b ≡ none)
newer-none_iff none b h = (refl, h)
newer-none_iff (some x) none h = cc
newer-none_iff (some x) (some y) h = absurd (ground (arith, h))

newer-Within :
    (m : Envelope) (a b : Option Envelope) → Within m (newer a b) → Within m a × Within m b
newer-Within m none b h = (tt, h)
newer-Within m (some x) none h = (h, tt)
newer-Within m (some x) (some y) h = elim (Bool-cases (text_le x.ts y.ts)) [
  | inl t ↦ let k : Within m (some y) = rw t at h in (text_le_trans x.ts y.ts m.ts t k, k)
  | inr f ↦
      let k : Within m (some x) = rw f at h in
      (k, text_le_trans y.ts x.ts m.ts (text_le_total x.ts y.ts f) k)
]

newer_either :
    (a b : Option Envelope) (m : Envelope) → newer a b ≡ some m → (a ≡ some m) ⊎ (b ≡ some m)
newer_either none b m h = inr h
newer_either (some x) none m h = inl h
newer_either (some x) (some y) m h = ground arith

-- The newest of what is there and of the snapshots.
abbrev newest_of : Text → Text → Option Envelope → List VaultSnapshot → Option Envelope
newest_of c id a [] = a
newest_of c id a (d ∷ l) = newest_of c id (newer a (record_of c id d)) l

nothing_After : (c id : Text) (a r : Option Envelope) → a ≡ r → After c id a [] r
nothing_After c id a none h = (h, tt)
nothing_After c id a (some m) h = (inl h, subst (Within m) (sym h) (text_le_refl m.ts), tt)

step_After :
    (c id : Text) (a : Option Envelope) (d : VaultSnapshot) (l : List VaultSnapshot)
    (r : Option Envelope)
    → After c id (newer a (record_of c id d)) l r
    → After c id a (d ∷ l) r
step_After c id a d l none h = let (x, y) = newer-none_iff a (record_of c id d) h.0 in (x, (y, h.1))
step_After c id a d l (some m) (from, upper, rest) =
    let (x, y) = newer-Within m a (record_of c id d) upper in
    (
      elim from [
        | inl e ↦ elim (newer_either a (record_of c id d) m e) [
          | inl p ↦ inl p
          | inr q ↦ inr (inl q)
        ]
        | inr k ↦ inr (inr k)
      ],
      x,
      (y, rest),
    )

newest_of-After :
    (c id : Text) (a : Option Envelope) (l : List VaultSnapshot)
    → After c id a l (newest_of c id a l)
newest_of-After c id a [] = nothing_After c id a a refl
newest_of-After c id a (d ∷ l) =
    step_After c id a d l _ (newest_of-After c id (newer a (record_of c id d)) l)

After-IsNewest :
    (c id : Text) (l : List VaultSnapshot) (r : Option Envelope)
    → After c id none l r
    → IsNewest c id l r
After-IsNewest c id l none h = h.1
After-IsNewest c id l (some m) (inl e, upper, rest) = cc
After-IsNewest c id l (some m) (inr k, upper, rest) = (k, rest)

record_of-merge_all :
    (c id : Text) (l : List VaultSnapshot) (merged : VaultSnapshot)
    → All IsObject l
    → record_of c id (merge_all merged l) ≡ newest_of c id (record_of c id merged) l
unfolding merge_all
record_of-merge_all c id [] merged o = refl
record_of-merge_all c id (d ∷ l) merged o =
    record_of-merge_all c id l (merge_snapshot merged d) o.1
    ∙ ap (λ z. newest_of c id z l) (record_of-merge_snapshot c id d merged o.0)

-- Of snapshots with each collection and each id once, none of which has the name of a member that
-- objects inherit, the merge has at a record an envelope that
-- one of them has there, and no other of them has a later one; it has none if none of them has.
pub merge_snapshots-IsNewest :
    (c id : Text) (l : List VaultSnapshot)
    → All IsObject l
    → IsNewest c id l (record_of c id (merge_snapshots l))
unfolding merge_snapshots lookup
merge_snapshots-IsNewest c id l o = After-IsNewest c id l _ (
    subst (After c id none l) (sym (record_of-merge_all c id l [] o)) (newest_of-After c id none l))
