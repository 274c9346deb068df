-- ===== src/Crdt/Lww.antt =====
-- The merge of last-writer-wins maps: its fields, and that replicas converge.
use noydb.Base.{
  ◌≡◌, ◌⊎◌, ◌∙◌, sym, refl, ap, ite, if◌then◌else◌, true, false, inl, Option, none, some, List, [],
  ◌∷◌, ◌++◌, lookup, Text, dec_text, text_le_antisym, text_le_total, text_le_trans, arith,
}
use noydb.Dict.{keys, insert, lookup-insert}
use noydb.Objects.{
  absent, own, inherited, member_of, read, IsPlain, IsPlain-head, IsPlain-tail, read-plain,
}
use noydb.Crdt.{
  Register, Fields, member, add_all, pick, pick_members, set_field, merge_fields, merge_lww_map,
  stamp, preserve, build_lww_map_state,
}

pub member-append :
    (x : Text) (l m : List Text) → member x (l ++ m) ≡ (if member x l then true else member x m)
unfolding member
member-append x [] m = refl
member-append x (y ∷ l) m = ground (arith, member-append x l m)

member-add :
    (x y : Text) (l : List Text)
    → member x (if member y l then l else l ++ y ∷ []) ≡ ite (dec_text x y) true (member x l)
unfolding member
member-add x y l = ground (arith, member-append x l (y ∷ []))

pub member-add_all :
    (x : Text) (l m : List Text)
    → member x (add_all l m) ≡ (if member x l then true else member x m)
unfolding add_all member
member-add_all x l [] = ground arith
member-add_all x l (y ∷ m) =
    ground (arith, member-add_all x (if member y l then l else l ++ y ∷ []) m, member-add x y l)

module _ {V : Type 0} where
  member-keys : (x : Text) (a : Fields V) → member x (keys a) ≡ false → lookup dec_text x a ≡ none
  unfolding member lookup
  member-keys x [] h = refl
  member-keys x (e ∷ a) h = ground (arith, member-keys x a)

  lookup-set_field :
      (field x : Text) (o v : Option (Register V)) (m : Fields V)
      → (x ≡ field → o ≡ v)
      → (lookup dec_text x m ≡ none) ⊎ (lookup dec_text x m ≡ v)
      → lookup dec_text x (set_field field o m) ≡ ite (dec_text x field) v (lookup dec_text x m)
  unfolding set_field
  lookup-set_field field x none v m e h = ground arith
  lookup-set_field field x (some reg) v m e h = ground (arith, lookup-insert dec_text field x reg m)

  -- The fields that the loop has passed hold what `pick` answers.
  lookup-merge_fields :
      (a b : Fields V) (l : List Text) (m : Fields V) (x : Text)
      → (lookup dec_text x m ≡ none) ⊎ (lookup dec_text x m ≡ pick_members (read x a) (read x b))
      → lookup dec_text x (merge_fields a b l m)
        ≡ (if member x l then pick_members (read x a) (read x b) else lookup dec_text x m)
  unfolding merge_fields member
  lookup-merge_fields a b [] m x h = refl
  lookup-merge_fields a b (y ∷ l) m x h =
      let f = λ (k : Text). pick_members (read k a) (read k b) in
      let step = lookup-set_field y x (f y) (f x) m (λ p. ap f (sym p)) h in
      ground (arith, step, lookup-merge_fields a b l (set_field y (f y) m) x)

  pick-none : (o : Option (Register V)) → pick o none ≡ o
  unfolding pick
  pick-none none = refl
  pick-none (some r) = refl

  -- Of objects without such names, what the own keys hold is picked.
  pick_members-plain :
      (a b : Fields V) (x : Text)
      → IsPlain a
      → IsPlain b
      → pick_members (read x a) (read x b) ≡ pick (lookup dec_text x a) (lookup dec_text x b)
  unfolding read pick_members pick
  pick_members-plain a b x p q = ground (arith, p x, q x)

  pub lookup-merge_lww_map :
      (a b : Fields V) (x : Text)
      → IsPlain a
      → IsPlain b
      → lookup dec_text x (merge_lww_map a b) ≡ pick (lookup dec_text x a) (lookup dec_text x b)
  unfolding merge_lww_map pick member lookup
  lookup-merge_lww_map a b x p q = ground (
    arith,
    pick_members-plain a b x p q,
    lookup-merge_fields a b (add_all (add_all [] (keys a)) (keys b)) [] x (inl refl),
    member-add_all x (add_all [] (keys a)) (keys b),
    member-add_all x [] (keys a),
    member-keys x a,
    member-keys x b,
  )

  pick_comm :
      (o p : Option (Register V))
      → ((r s : Register V) → o ≡ some r → p ≡ some s → r.ts ≡ s.ts → r ≡ s)
      → pick o p ≡ pick p o
  unfolding pick
  pick_comm none none h = refl
  pick_comm none (some s) h = refl
  pick_comm (some r) none h = refl
  pick_comm (some r) (some s) h =
      ground (arith, h r s refl refl, text_le_antisym r.ts s.ts, text_le_total r.ts s.ts)

  pick_assoc : (o p q : Option (Register V)) → pick (pick o p) q ≡ pick o (pick p q)
  unfolding pick
  pick_assoc none p q = refl
  pick_assoc (some r) none q = refl
  pick_assoc (some r) (some s) none = pick-none _
  pick_assoc (some r) (some s) (some t) = ground (
    arith,
    text_le_trans t.ts s.ts r.ts,
    text_le_trans r.ts s.ts t.ts,
    text_le_total s.ts r.ts,
    text_le_total t.ts s.ts,
    text_le_total t.ts r.ts,
    text_le_trans s.ts t.ts r.ts,
    text_le_trans t.ts r.ts s.ts,
  )

  pick_self : (o : Option (Register V)) → pick o o ≡ o
  unfolding pick
  pick_self none = refl
  pick_self (some r) = ground arith

  -- Two maps never hold different registers of one field with the same time.
  abbrev pub IsConsistent : Fields V → Fields V → Type 0
  IsConsistent a b =
      (x : Text) (r s : Register V)
      → lookup dec_text x a ≡ some r
      → lookup dec_text x b ≡ some s
      → r.ts ≡ s.ts
      → r ≡ s

  merge_lww_map-IsPlain : (a b : Fields V) → IsPlain a → IsPlain b → IsPlain (merge_lww_map a b)
  unfolding pick
  merge_lww_map-IsPlain a b p q = λ x h. rw (lookup-merge_lww_map a b x p q, p x h, q x h) refl

  -- Field by field, for maps without a field that has the name of a member that objects inherit:
  -- merging two maps that agree wherever a field has the same time in both does
  -- not depend on the order, three can be merged in either grouping, and merging a map with
  -- itself changes nothing.
  pub merge_lww_map_lem :
      (a b c : Fields V)
      → IsPlain a
      → IsPlain b
      → IsPlain c
      → IsConsistent a b
      → (x : Text)
      → (lookup dec_text x (merge_lww_map a b) ≡ lookup dec_text x (merge_lww_map b a))
        × (lookup dec_text x (merge_lww_map (merge_lww_map a b) c)
            ≡ lookup dec_text x (merge_lww_map a (merge_lww_map b c)))
        × (lookup dec_text x (merge_lww_map a a) ≡ lookup dec_text x a)
  merge_lww_map_lem a b c p q r h x =
      let u = lookup dec_text x a in
      let v = lookup dec_text x b in
      let w = lookup dec_text x c in
      (
        lookup-merge_lww_map a b x p q ∙ pick_comm u v (h x) ∙ sym (lookup-merge_lww_map b a x q p),
        lookup-merge_lww_map (merge_lww_map a b) c x (merge_lww_map-IsPlain a b p q) r
            ∙ ap (λ o. pick o w) (lookup-merge_lww_map a b x p q)
            ∙ pick_assoc u v w
            ∙ sym (ap (pick u) (lookup-merge_lww_map b c x q r))
            ∙ sym (lookup-merge_lww_map a (merge_lww_map b c) x p (merge_lww_map-IsPlain b c q r)),
        lookup-merge_lww_map a a x p p ∙ pick_self u,
      )

  abbrev pub stamped : Text → Option V → Option (Register V) → Option (Register V)
  stamped now (some v) old = some (record { value = v; ts = now })
  stamped now none old = old

  abbrev pub old_field : Text → Option (Fields V) → Option (Register V)
  old_field x none = none
  old_field x (some existing) = lookup dec_text x existing

  lookup-stamp :
      (now x : Text) (l : List (Text × V))
      → lookup dec_text x (stamp now l) ≡ stamped now (lookup dec_text x l) none
  unfolding stamp lookup
  lookup-stamp now x [] = refl
  lookup-stamp now x ((f, v) ∷ l) = ground (arith, lookup-stamp now x l)

  abbrev or_else : Option (Register V) → Option (Register V) → Option (Register V)
  or_else none p = p
  or_else (some r) p = some r

  lookup-preserve :
      (x : Text) (l built : Fields V)
      → IsPlain l
      → lookup dec_text x (preserve l built)
        ≡ or_else (lookup dec_text x built) (lookup dec_text x l)
  unfolding preserve lookup
  lookup-preserve x [] built p = ground arith
  lookup-preserve x ((f, r) ∷ l) built p =
      let tail = IsPlain-tail (f, r) l p in
      rw (read-plain f built (IsPlain-head (f, r) l p)) (
        elim (lookup dec_text f built)
            as (λ o.
              o ≡ lookup dec_text f built
              → lookup dec_text x (
                  preserve l (elim (member_of o false) [
                    | absent ↦ insert dec_text f r built
                    | own _ ↦ built
                    | inherited ↦ built
                  ]))
                ≡ or_else (lookup dec_text x built)
                    (ite (dec_text x f) (some r) (lookup dec_text x l))) [
                      | none ↦ λ e. ground (
                        arith,
                        lookup-preserve x l (insert dec_text f r built) tail,
                        lookup-insert dec_text f x r built,
                      )
                      | some v ↦ λ e. ground (arith, lookup-preserve x l built tail)
                    ]
          refl)

  abbrev pub IsPlainOld : Option (Fields V) → Type 0
  IsPlainOld none = Unit
  IsPlainOld (some existing) = IsPlain existing

  -- A map built from a record holds the record's fields at the time `now`, and under every other
  -- name what the existing map held, if no field of that map has the name of a member that
  -- objects inherit.
  pub build_lww_map_state_lem :
      (l : List (Text × V)) (existing : Option (Fields V)) (now x : Text)
      → IsPlainOld existing
      → lookup dec_text x (build_lww_map_state l existing now)
        ≡ stamped now (lookup dec_text x l) (old_field x existing)
  unfolding build_lww_map_state
  build_lww_map_state_lem l none now x p = lookup-stamp now x l
  build_lww_map_state_lem l (some existing) now x p =
      ground (arith, lookup-preserve x existing (stamp now l) p, lookup-stamp now x l)
