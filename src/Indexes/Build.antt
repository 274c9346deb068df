-- ===== src/Indexes/Build.antt =====
-- `build`: the indexes that are made from all records.
use mathlib.Core.Path.{subst}
use noydb.Base.{
  ◌≡◌, ◌∙◌, sym, refl, ap, ite, if_pos, Option, none, some, List, [], ◌∷◌, lookup, Text, dec_text,
  arith,
}
use noydb.Dict
use noydb.Dict.{insert, lookup-insert}
use noydb.Json.{Json}
use noydb.Indexes.{HashIndex, member, CollectionIndexes, add_to_index, add_records, build}
use noydb.Indexes.Coherent.{keyed, IsCoherent, AllCoherent, add_step}

-- Of two maps without a common key, what one of them has.
abbrev first : Option Json → Option Json → Option Json
first none o = o
first (some r) o = some r

abbrev Apart : Option Json → Option Json → Type 0
Apart none o = Unit
Apart (some r) o = o ≡ none

first-none : (o : Option Json) → o ≡ first o none
first-none none = refl
first-none (some r) = refl

Apart-head : (r : Json) (o : Option Json) → Apart o (some r) → o ≡ none
Apart-head r none h = refl
Apart-head r (some q) h = absurd (ground (arith, h))

Apart-step :
    (x id : Text) (r : Json) (acc l : List (Text × Json))
    → lookup dec_text id l ≡ none
    → Apart (lookup dec_text x acc) (lookup dec_text x ((id, r) ∷ l))
    → Apart (lookup dec_text x (insert dec_text id r acc)) (lookup dec_text x l)
unfolding lookup
Apart-step x id r acc l d h = rw (lookup-insert dec_text id x r acc) (
    at (dec_text x id) (lookup dec_text x acc) (lookup dec_text x l)
      (λ p. ap (λ z. lookup dec_text z l) p ∙ d) h)
  where
    at :
        (q : Dec (x ≡ id)) (o m : Option Json)
        → (x ≡ id → m ≡ none)
        → Apart o (ite q (some r) m)
        → Apart (ite q (some r) o) m
    at (yes p) o m f h = f p
    at (no p) o m f h = h

first-step :
    (x id : Text) (r : Json) (acc l : List (Text × Json))
    → lookup dec_text id acc ≡ none
    → first (lookup dec_text x acc) (lookup dec_text x ((id, r) ∷ l))
      ≡ first (lookup dec_text x (insert dec_text id r acc)) (lookup dec_text x l)
unfolding lookup
first-step x id r acc l d = ground (arith, lookup-insert dec_text id x r acc)

add_records-IsCoherent :
    (field : Text) (c acc l : List (Text × Json)) (idx : HashIndex)
    → Dict.Distinct dec_text l
    → ((x : Text) → Apart (lookup dec_text x acc) (lookup dec_text x l))
    → ((x : Text) → first (lookup dec_text x acc) (lookup dec_text x l) ≡ lookup dec_text x c)
    → IsCoherent field acc idx
    → IsCoherent field c (add_records field idx l)
unfolding add_records lookup
add_records-IsCoherent field c acc [] idx d a f h =
    λ k x. h k x ∙ ap (keyed field k) (first-none (lookup dec_text x acc) ∙ f x)
add_records-IsCoherent field c acc ((id, r) ∷ l) idx d a f h =
    let absent : lookup dec_text id acc ≡ none =
      Apart-head r (lookup dec_text id acc)
        (subst (Apart (lookup dec_text id acc)) (if_pos (dec_text id id) refl _ _) (a id)) in
    add_records-IsCoherent field c (insert dec_text id r acc) l (add_to_index field idx id r) d.1
      (λ x. Apart-step x id r acc l d.0 (a x)) (λ x. sym (first-step x id r acc l absent) ∙ f x)
      (add_step field id r acc idx absent h)

-- The indexes that are built from records with each id once are those of the records.
pub build-AllCoherent :
    (c : List (Text × Json)) (l : CollectionIndexes)
    → Dict.Distinct dec_text c
    → AllCoherent c (build c l)
unfolding build lookup member
build-AllCoherent c [] d = tt
build-AllCoherent c (e ∷ l) d = (
  add_records-IsCoherent e.0 c [] c [] d (λ x. tt) (λ x. refl) (λ k x. refl),
  build-AllCoherent c l d,
)
