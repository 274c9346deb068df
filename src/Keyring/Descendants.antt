-- ===== src/Keyring/Descendants.antt =====
-- The walk down the grants finds every admin below a user, and no other.
use mathlib.Core.Path.{subst}
use noydb.Base.{
  ℕ, zero, suc, ◌+◌, ◌<◌, ◌≡◌, ◌↔◌, ◌⊎◌, inl, inr, ◌∙◌, sym, refl, ap, ◌||◌, ite, true, false, List,
  [], ◌∷◌, ◌++◌, length, lookup, Text, dec_text, arith,
}
use noydb.Indexes.{member}
use noydb.Keyring.{
  KeyringFile, Children, children, children_by_parent, push_all, push_new, walk, pending,
  admin_descendants,
}
use noydb.Keyring.Pending.{
  granted, IsBelow, member-push_all, member-push_new, kept_new, pushed_new, children_lem,
  length-push_new, member-last, pending_visit,
}

-- What is below a visited user is visited, or waits.
abbrev Closed : Children → List Text → List Text → Type 0
Closed m stack order =
    (p x : Text)
    → member p order ≡ true
    → member x (children m p) ≡ true
    → (member x order ≡ true) ⊎ (member x stack ≡ true)

abbrev Finished : Children → List Text → List Text → List Text → Type 0
Finished m stack order r =
    ((y : Text) → member y order ≡ true → member y r ≡ true)
    × ((y : Text) → member y stack ≡ true → member y r ≡ true)
    × ((p x : Text) → member p r ≡ true → member x (children m p) ≡ true → member x r ≡ true)

skip_Closed :
    (m : Children) (next : Text) (stack order : List Text)
    → member next order ≡ true
    → Closed m (next ∷ stack) order
    → Closed m stack order
unfolding member
skip_Closed m next stack order h c p x a b = ground (arith, h, c p x a b)

visit_Closed :
    (m : Children) (next : Text) (stack order : List Text)
    → Closed m (next ∷ stack) order
    → Closed m (push_new (order ++ next ∷ []) (children m next) stack) (order ++ next ∷ [])
unfolding member
visit_Closed m next stack order c p x a b = elim (dec_text p next) [
  | yes e ↦
      let there : member x (children m next) ≡ true =
        ap (λ z. member x (children m z)) (sym e) ∙ b in
      pushed_new x (order ++ next ∷ []) (children m next) stack there
  | no d ↦
      let seen : member p order ≡ true = ground (arith, a, d, member-last p next order) in
      let kept = kept_new x (order ++ next ∷ []) (children m next) stack in
      ground (arith, c p x seen b, member-last x next order, kept)
]

walk_lem :
    (m : Children) (fuel : ℕ) (stack order : List Text)
    → length stack + pending m order < fuel
    → Closed m stack order
    → Finished m stack order (walk m fuel stack order)
unfolding walk member
walk_lem m zero stack order f c = absurd (omega (arith, f))
walk_lem m (suc fuel) [] order f c =
    (λ y h. h, (λ y h. absurd (ground (arith, h))), λ p x a b. ground (arith, c p x a b))
walk_lem m (suc fuel) (next ∷ stack) order f c =
    let here = order ++ next ∷ [] in
    elim (member next order)
        as (λ v.
          member next order ≡ v
          → Finished m (next ∷ stack) order (elim v [
            | true ↦ walk m fuel stack order
            | false ↦ walk m fuel (push_new here (children m next) stack) here
          ])) [
            | true ↦ λ e.
                let (a, b, k) =
                  walk_lem m fuel stack order (omega (arith, f))
                    (skip_Closed m next stack order e c) in
                (
                  a,
                  λ y h.
                      elim (dec_text y next)
                          as (λ d.
                            ite d true (member y stack) ≡ true
                            → member y (walk m fuel stack order) ≡ true) [
                              | yes p ↦ λ g. a y (ap (λ z. member z order) p ∙ e)
                              | no d ↦ λ g. b y g
                            ]
                        h,
                  k,
                )
            | false ↦ λ e.
                let (a, b, k) =
                  walk_lem m fuel (push_new here (children m next) stack) here
                    (omega (
                      arith,
                      f,
                      length-push_new here (children m next) stack,
                      pending_visit m next order e,
                    ))
                    (visit_Closed m next stack order c) in
                (
                  λ y h. a y (ground (arith, h, member-last y next order)),
                  λ y h.
                      elim (dec_text y next)
                          as (λ d.
                            ite d true (member y stack) ≡ true
                            → member y (walk m fuel (push_new here (children m next) stack) here)
                              ≡ true) [
                                | yes p ↦ λ g. a y (ground (arith, p, member-last y next order))
                                | no d ↦ λ g. b y (kept_new y here (children m next) stack g)
                              ]
                        h,
                  k,
                )
          ]
      refl

walk_sound :
    (P : Text → Type 0) (m : Children) (fuel : ℕ) (stack order : List Text)
    → ((p x : Text) → P p → member x (children m p) ≡ true → P x)
    → ((y : Text) → member y stack ≡ true → P y)
    → ((y : Text) → member y order ≡ true → P y)
    → (x : Text) → member x (walk m fuel stack order) ≡ true
    → P x
unfolding walk member
walk_sound P m zero stack order step s o x h = o x h
walk_sound P m (suc fuel) [] order step s o x h = o x h
walk_sound P m (suc fuel) (next ∷ stack) order step s o x h =
    let here = order ++ next ∷ [] in
    let top : P next = s next (ground arith) in
    let below : (y : Text) → member y stack ≡ true → P y = λ y g. s y (ground (arith, g)) in
    elim (member next order)
        as (λ v.
          member x (elim v [
            | true ↦ walk m fuel stack order
            | false ↦ walk m fuel (push_new here (children m next) stack) here
          ])
            ≡ true
          → P x) [
            | true ↦ λ g. walk_sound P m fuel stack order step below o x g
            | false ↦ λ g.
                walk_sound P m fuel (push_new here (children m next) stack) here step
                  (λ y w. elim (member-push_new y here (children m next) stack w) [
                    | inl child ↦ step next y top child
                    | inr old ↦ below y old
                  ])
                  (λ y w.
                    elim (dec_text y next) as (λ d. ite d true (member y order) ≡ true → P y) [
                      | yes e ↦ λ z. subst P (sym e) top
                      | no d ↦ λ z. o y z
                    ]
                      (sym (member-last y next order) ∙ w))
                  x g
          ]
      h

below_lem :
    (Q : Text → Type 0) (root : Text) (files : List KeyringFile)
    → ((y : Text) → granted root root y files ≡ true → Q y)
    → ((p y : Text) → Q p → granted root p y files ≡ true → Q y)
    → (x : Text) → IsBelow files root x
    → Q x
below_lem Q root files top step _ (IsBelow.direct x g) = top x g
below_lem Q root files top step _ (IsBelow.through p x below g) =
    step p x (below_lem Q root files top step p below) g

children_here :
    (root p x : Text) (files : List KeyringFile)
    → member x (children (children_by_parent root files []) p) ≡ granted root p x files
unfolding lookup member
children_here root p x files = children_lem root p x files []

stack_here :
    (root x : Text) (files : List KeyringFile)
    → member x (push_all (children (children_by_parent root files []) root) [])
      ≡ granted root root x files
unfolding member
stack_here root x files =
    member-push_all x (children (children_by_parent root files []) root) []
    ∙ ap (λ z. z || false) (children_here root root x files)
    ∙ ground arith

-- The walk finds exactly the admins that the user granted, directly or through others; the steps it
-- is given are enough.
pub admin_descendants_iff :
    (root : Text) (files : List KeyringFile) (x : Text)
    → (member x (admin_descendants root files) ≡ true) ↔ IsBelow files root x
unfolding admin_descendants member
admin_descendants_iff root files x =
    let m = children_by_parent root files [] in
    let stack = push_all (children m root) [] in
    (
      λ h.
          walk_sound (IsBelow files root) m (suc (length stack + pending m [])) stack []
            (λ p y below g. IsBelow.through p y below (sym (children_here root p y files) ∙ g))
            (λ y g. IsBelow.direct y (sym (stack_here root y files) ∙ g))
            (λ y g. absurd (ground (arith, g))) x h,
      λ below.
          let (a, b, k) =
            walk_lem m (suc (length stack + pending m [])) stack [] (omega arith)
              (λ p y g f. absurd (ground (arith, g))) in
          below_lem (λ y. member y (admin_descendants root files) ≡ true) root files
            (λ y g. b y (stack_here root y files ∙ g))
            (λ p y q g. k p y q (children_here root p y files ∙ g)) x below,
    )
