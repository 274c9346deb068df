-- ===== src/Store/Views.antt =====
-- What a store shows after an operation, in the words of the contract.
use noydb.Base.{◌≡◌, refl, Option, Text, dec_text, ite, arith}
use noydb.Store.{Envelope, Outcome, ok, thrown, at_key, if_ok}

pub if_ok_same {ℓ} : {E A : Type 0} {B : Type ℓ} (out : Outcome E A) (x : B) → if_ok out x x ≡ x
if_ok_same (ok a) x = refl
if_ok_same (thrown e) x = refl

pub at_key_cases :
    (P : Option Envelope → Type 0) (v c id w d j : Text) (x y : Option Envelope)
    → (w ≡ v → d ≡ c → j ≡ id → P x)
    → P y
    → P (at_key v c id w d j x y)
at_key_cases P v c id w d j x y here there =
    elim (dec_text w v) as (λ o. P (ite o (ite (dec_text d c) (ite (dec_text j id) x y) y) y)) [
      | no _ ↦ there
      | yes p ↦ elim (dec_text d c) as (λ o. P (ite o (ite (dec_text j id) x y) y)) [
        | no _ ↦ there
        | yes q ↦ elim (dec_text j id) as (λ o. P (ite o x y)) [ no _ ↦ there | yes r ↦ here p q r ]
      ]
    ]

pub at_key_self : (v c id : Text) (x y : Option Envelope) → at_key v c id v c id x y ≡ x
at_key_self v c id x y = ground arith

pub at_key_other :
    (v c id w d j : Text) (x y : Option Envelope)
    → (w ≡ v → d ≡ c → ⊥)
    → at_key v c id w d j x y ≡ y
at_key_other v c id w d j x y h =
    elim (dec_text w v) as (λ o. ite o (ite (dec_text d c) (ite (dec_text j id) x y) y) y ≡ y) [
      | no _ ↦ refl
      | yes p ↦ elim (dec_text d c) as (λ o. ite o (ite (dec_text j id) x y) y ≡ y) [
        | no _ ↦ refl
        | yes q ↦ absurd (h p q)
      ]
    ]

-- At the records of one collection.
pub at_key_here :
    (v c id j : Text) (x y : Option Envelope) → at_key v c id v c j x y ≡ ite (dec_text j id) x y
at_key_here v c id j x y = ground arith
