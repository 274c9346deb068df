-- ===== src/Objects.antt =====
-- Plain objects of JavaScript, `{}`: an association list of the own keys, and the names that every
-- such object inherits from `Object.prototype`. An assignment to `__proto__`, which makes no own
-- key, is not modelled.
use mathlib.Core.Path.{subst}
use noydb.Base.{
  ◌≡◌, ◌∙◌, sym, refl, ite, Bool, true, false, Bool-cases, inl, inr, Option, none, some, List, [],
  ◌∷◌, lookup, Text, codes, dec_text, arith,
}

abbrev pub inherited_names : List Text
inherited_names =
    codes "constructor"
    ∷ codes "toString"
    ∷ codes "toLocaleString"
    ∷ codes "valueOf"
    ∷ codes "hasOwnProperty"
    ∷ codes "isPrototypeOf"
    ∷ codes "propertyIsEnumerable"
    ∷ codes "__defineGetter__"
    ∷ codes "__defineSetter__"
    ∷ codes "__lookupGetter__"
    ∷ codes "__lookupSetter__"
    ∷ codes "__proto__"
    ∷ []

unfoldable pub is_one_of : Text → List Text → Bool
is_one_of k [] = false
is_one_of k (j ∷ l) = let rest = is_one_of k l in ite (dec_text k j) true rest

unfoldable pub inherits : Text → Bool
unfolding is_one_of
inherits k = is_one_of k inherited_names

-- What `obj[k]` answers: nothing, the value of an own key, or a member that is inherited.
pub data Member (A : Type 0) : Type 0 where
  absent : Member A
  own : A → Member A
  inherited : Member A

module _ {A : Type 0} where
  abbrev pub member_of : Option A → Bool → Member A
  member_of (some a) b = own a
  member_of none true = inherited
  member_of none false = absent

  unfoldable pub read : Text → List (Text × A) → Member A
  unfolding inherits
  read k l = member_of (lookup dec_text k l) (inherits k)

  -- No own key has the name of an inherited member.
  abbrev pub IsPlain : List (Text × A) → Type 0
  IsPlain l = (k : Text) → inherits k ≡ true → lookup dec_text k l ≡ none

  pub IsPlain-head : (e : Text × A) (l : List (Text × A)) → IsPlain (e ∷ l) → inherits e.0 ≡ false
  unfolding lookup
  IsPlain-head e l p = elim (Bool-cases (inherits e.0)) [
    | inl t ↦ absurd (ground (arith, p e.0 t))
    | inr f ↦ f
  ]

  pub IsPlain-tail : (e : Text × A) (l : List (Text × A)) → IsPlain (e ∷ l) → IsPlain l
  unfolding lookup
  IsPlain-tail e l p = λ k h. ground (arith, p k h)

  pub read-plain :
      (k : Text) (l : List (Text × A))
      → inherits k ≡ false
      → read k l ≡ member_of (lookup dec_text k l) false
  unfolding read
  read-plain k l h = rw h refl

  pub plain_nil : IsPlain []
  unfolding lookup
  plain_nil = λ k h. refl

  pub plain_cons :
      (e : Text × A) (l : List (Text × A)) → inherits e.0 ≡ false → IsPlain l → IsPlain (e ∷ l)
  unfolding lookup
  plain_cons e l p q = λ k h.
      elim (dec_text k e.0) as (λ d. ite d (some e.1) (lookup dec_text k l) ≡ none) [
        | yes same ↦ absurd (
            let wrong = sym h ∙ subst (λ z. inherits z ≡ false) (sym same) p in
            ground (arith, wrong))
        | no other ↦ q k h
      ]
