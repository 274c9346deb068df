-- ===== src/Refs/Inbound.antt =====
-- What points at a collection is what the collections declare.
use noydb.Base.{
  ◌≡◌, ◌∙◌, sym, refl, ap, ite, Bool-cases, inl, inr, Option, none, some, List, [], ◌∷◌, ◌++◌,
  lookup, Text, dec_text, arith,
}
use noydb.Dict.{insert, insert_absent, lookup-insert}
use noydb.Refs.{
  RefDescriptor, InboundRef, RefRegistry, RefError, add_inbound, get_inbound, list_of, register,
  is_same,
}
use noydb.Refs

-- The references of one collection to a target, in the order of their declaration.
unfoldable pub pointing : Text → Text → Refs.Refs → List InboundRef
pointing target collection [] = []
pointing target collection ((field, desc) ∷ l) =
    let rest = pointing target collection l in
    ite (dec_text target desc.target)
      (record { collection = collection; field = field; mode = desc.mode } ∷ rest) rest

-- The references of all collections to a target, in the order of their registration.
unfoldable pub pointing_all : Text → List (Text × Refs.Refs) → List InboundRef
unfolding pointing
pointing_all target [] = []
pointing_all target ((collection, refs) ∷ l) =
    pointing target collection refs ++ pointing_all target l

append_assoc : (l m n : List InboundRef) → (l ++ m) ++ n ≡ l ++ (m ++ n)
append_assoc [] m n = refl
append_assoc (x ∷ l) m n = ap (◌∷◌ x) (append_assoc l m n)

append_nil : (l : List InboundRef) → l ++ [] ≡ l
append_nil [] = refl
append_nil (x ∷ l) = ap (◌∷◌ x) (append_nil l)

lookup-add_inbound :
    (target collection : Text) (refs : Refs.Refs) (inbound : List (Text × List InboundRef))
    → list_of (lookup dec_text target (add_inbound collection refs inbound))
      ≡ list_of (lookup dec_text target inbound) ++ pointing target collection refs
unfolding add_inbound pointing
lookup-add_inbound target collection [] inbound = sym (append_nil _)
lookup-add_inbound target collection ((field, desc) ∷ l) inbound =
    let entry : InboundRef = record { collection = collection; field = field; mode = desc.mode } in
    let longer = list_of (lookup dec_text desc.target inbound) ++ entry ∷ [] in
    ground (
      arith,
      lookup-add_inbound target collection l (insert dec_text desc.target longer inbound),
      lookup-insert dec_text desc.target target longer inbound,
      append_assoc (list_of (lookup dec_text target inbound)) (entry ∷ [])
          (pointing target collection l),
    )

pointing_all-append :
    (target collection : Text) (refs : Refs.Refs) (l : List (Text × Refs.Refs))
    → pointing_all target (l ++ (collection, refs) ∷ [])
      ≡ pointing_all target l ++ pointing target collection refs
unfolding pointing_all
pointing_all-append target collection refs [] = append_nil _
pointing_all-append target collection refs ((c, r) ∷ l) =
    ap (◌++◌ (pointing target c r)) (pointing_all-append target collection refs l)
    ∙ sym (
        append_assoc (pointing target c r) (pointing_all target l)
          (pointing target collection refs))

-- The two maps of a registry tell the same.
abbrev pub IsMirrored : RefRegistry → Type 0
IsMirrored r = (target : Text) → get_inbound target r ≡ pointing_all target r.outbound

register_over-IsMirrored :
    (o : Option Refs.Refs) (collection : Text) (refs : Refs.Refs) (r : RefRegistry)
    → lookup dec_text collection r.outbound ≡ o
    → IsMirrored r
    → IsMirrored (Refs.register_over o collection refs r).0
unfolding Refs.register_over get_inbound
register_over-IsMirrored (some existing) collection refs r e h target =
    elim (Bool-cases (is_same existing refs)) [
      | inl same ↦ rw same (h target)
      | inr other ↦ rw other (h target)
    ]
register_over-IsMirrored none collection refs r e h target =
    lookup-add_inbound target collection refs r.inbound
    ∙ ap (λ l. l ++ pointing target collection refs) (h target)
    ∙ sym (pointing_all-append target collection refs r.outbound)
    ∙ ap (pointing_all target) (sym (insert_absent dec_text collection refs r.outbound e))

-- Registering the references of a collection, whether they are new, the same again or in conflict
-- with the ones declared before, keeps the two maps telling the same: what points at a collection
-- is what the collections declare, in the order of registration.
pub register-IsMirrored :
    (collection : Text) (refs : Refs.Refs) (r : RefRegistry)
    → IsMirrored r
    → IsMirrored (register collection refs r).0
unfolding register
register-IsMirrored collection refs r h =
    register_over-IsMirrored (lookup dec_text collection r.outbound) collection refs r refl h
