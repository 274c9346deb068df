-- ===== src/Grouping/Groups.antt =====
-- What the groups are, and when there are too many.
use noydb.Base.{
  ℕ, suc, ◌+◌, ◌≤◌, ◌<◌, ◌≡◌, ◌∙◌, sym, refl, ap, leb, if◌then◌else◌, Bool, true, false, Bool-cases,
  inl, inr, Option, none, some, List, [], ◌∷◌, ◌++◌, length, length-append, Text, arith,
}
use mathlib.Core.Path.{subst}
use mathlib.Core.List.{append_assoc, append-nil}
use noydb.Json.{Json, null, bool, number, string}
use noydb.Predicate.{read_path, strict_equal}
use noydb.Grouping.{
  Buckets, bucket_at, push_to, Grouped, ok, too_many, add_record, then_group, group_records,
}

strict_equal_sound : (a b : Option Json) → strict_equal a b ≡ true → a ≡ b
unfolding strict_equal
strict_equal_sound none none h = refl
strict_equal_sound (some null) (some null) h = refl
strict_equal_sound (some (bool true)) (some (bool true)) h = refl
strict_equal_sound (some (bool false)) (some (bool false)) h = refl
strict_equal_sound (some (number s)) (some (number t)) h = ground (arith, h)
strict_equal_sound (some (string s)) (some (string t)) h = ground (arith, h)
strict_equal_sound _ _ h = absurd (ground (arith, h))

abbrev seen : Option Json → List (Option Json) → Bool
seen k [] = false
seen k (j ∷ l) = if strict_equal j k then true else seen k l

-- How many records have a value at the field that none before has.
abbrev new_keys : Text → List (Option Json) → List Json → ℕ
new_keys path before [] = 0
new_keys path before (r ∷ rs) =
    if seen (read_path r path) before
    then new_keys path before rs
    else suc (new_keys path (before ++ read_path r path ∷ []) rs)

-- The records with a value at the field.
abbrev with_key : Text → Option Json → List Json → List Json
with_key path k [] = []
with_key path k (r ∷ rs) =
    (if strict_equal (read_path r path) k then r ∷ [] else []) ++ with_key path k rs

abbrev keys_of : Buckets → List (Option Json)
keys_of [] = []
keys_of (b ∷ l) = b.0 ∷ keys_of l

abbrev found : Option (List Json) → List Json
found none = []
found (some rs) = rs

keys_of-push_to :
    (k : Option Json) (r : Json) (bs : Buckets) → keys_of (push_to k r bs) ≡ keys_of bs
unfolding push_to
keys_of-push_to k r [] = refl
keys_of-push_to k r (b ∷ bs) = ground (arith, keys_of-push_to k r bs)

keys_of-append : (bs cs : Buckets) → keys_of (bs ++ cs) ≡ keys_of bs ++ keys_of cs
keys_of-append [] cs = refl
keys_of-append (b ∷ bs) cs = ap (◌∷◌ b.0) (keys_of-append bs cs)

length-push_to : (k : Option Json) (r : Json) (bs : Buckets) → length (push_to k r bs) ≡ length bs
unfolding push_to
length-push_to k r [] = refl
length-push_to k r (b ∷ bs) = ground (arith, length-push_to k r bs)

seen-some :
    (k : Option Json) (rs : List Json) (bs : Buckets)
    → bucket_at k bs ≡ some rs
    → seen k (keys_of bs) ≡ true
unfolding bucket_at
seen-some k rs [] h = absurd (ground (arith, h))
seen-some k rs (b ∷ bs) h = ground (arith, h, seen-some k rs bs)

seen-none : (k : Option Json) (bs : Buckets) → bucket_at k bs ≡ none → seen k (keys_of bs) ≡ false
unfolding bucket_at
seen-none k [] h = refl
seen-none k (b ∷ bs) h = ground (arith, h, seen-none k bs)

same_key : (b k j : Option Json) → strict_equal b k ≡ true → strict_equal b j ≡ strict_equal k j
same_key b k j h = ap (λ z. strict_equal z j) (strict_equal_sound b k h)

other_key :
    (b k j : Option Json)
    → strict_equal b k ≡ false
    → strict_equal b j ≡ true
    → strict_equal k j ≡ false
other_key b k j h g = elim (Bool-cases (strict_equal k j)) [
  | inl t ↦
      let same : strict_equal b k ≡ strict_equal b j =
        ap (strict_equal b) (strict_equal_sound k j t) in
      absurd (ground (arith, h, g, same))
  | inr f ↦ f
]

-- The bucket of the key takes the record, another does not.
hit :
    (c d : Bool) (r : Json) (xs : List Json) (o : Option (List Json))
    → c ≡ d
    → found (if c then some (xs ++ r ∷ []) else o)
      ≡ found (if c then some xs else o) ++ (if d then r ∷ [] else [])
hit true true r xs o h = refl
hit false false r xs o h = sym (append-nil _)
hit true false r xs o h = cc
hit false true r xs o h = cc

miss :
    (c d : Bool) (r : Json) (xs : List Json) (o q : Option (List Json))
    → (c ≡ true → d ≡ false)
    → found o ≡ found q ++ (if d then r ∷ [] else [])
    → found (if c then some xs else o)
      ≡ found (if c then some xs else q) ++ (if d then r ∷ [] else [])
miss true d r xs o q h g = rw (h refl) (sym (append-nil xs))
miss false d r xs o q h g = g

found-push_to :
    (k j : Option Json) (r : Json) (rs : List Json) (bs : Buckets)
    → bucket_at k bs ≡ some rs
    → found (bucket_at j (push_to k r bs))
      ≡ found (bucket_at j bs) ++ (if strict_equal k j then r ∷ [] else [])
unfolding bucket_at push_to
found-push_to k j r rs [] h = absurd (ground (arith, h))
found-push_to k j r rs (b ∷ bs) h = elim (Bool-cases (strict_equal b.0 k)) [
  | inl t ↦
      rw t (hit (strict_equal b.0 j) (strict_equal k j) r b.1 (bucket_at j bs) (same_key b.0 k j t))
  | inr f ↦ rw f (
      miss (strict_equal b.0 j) (strict_equal k j) r b.1 _ (bucket_at j bs) (other_key b.0 k j f)
        (found-push_to k j r rs bs (ground (arith, h, f))))
]

found-append :
    (k j : Option Json) (r : Json) (bs : Buckets)
    → bucket_at k bs ≡ none
    → found (bucket_at j (bs ++ (k, r ∷ []) ∷ []))
      ≡ found (bucket_at j bs) ++ (if strict_equal k j then r ∷ [] else [])
unfolding bucket_at
found-append k j r [] h = ground arith
found-append k j r (b ∷ bs) h =
    miss (strict_equal b.0 j) (strict_equal k j) r b.1 _ (bucket_at j bs)
      (other_key b.0 k j (ground (arith, h))) (found-append k j r bs (ground (arith, h)))

-- What the groups are when there are not too many, and when there are.
abbrev Result : ℕ → Text → Buckets → List Json → Grouped Buckets → Type 0
Result most path bs rs (ok out) =
    (length out ≡ length bs + new_keys path (keys_of bs) rs)
    × (length out ≤ most)
    × ((k : Option Json) → found (bucket_at k out) ≡ found (bucket_at k bs) ++ with_key path k rs)
Result most path bs rs (too_many n) =
    (n ≡ most + 1) × (most < length bs + new_keys path (keys_of bs) rs)

old_count :
    (path : Text) (r : Json) (rs : List Json) (bs : Buckets) (xs : List Json)
    → bucket_at (read_path r path) bs ≡ some xs
    → length (push_to (read_path r path) r bs)
        + new_keys path (keys_of (push_to (read_path r path) r bs)) rs
      ≡ length bs + new_keys path (keys_of bs) (r ∷ rs)
old_count path r rs bs xs h =
    rw (seen-some (read_path r path) xs bs h)
      (cc (length-push_to (read_path r path) r bs, keys_of-push_to (read_path r path) r bs))

new_count :
    (path : Text) (r : Json) (rs : List Json) (bs : Buckets)
    → bucket_at (read_path r path) bs ≡ none
    → length (bs ++ (read_path r path, r ∷ []) ∷ [])
        + new_keys path (keys_of (bs ++ (read_path r path, r ∷ []) ∷ [])) rs
      ≡ length bs + new_keys path (keys_of bs) (r ∷ rs)
new_count path r rs bs h =
    rw (seen-none (read_path r path) bs h, keys_of-append bs ((read_path r path, r ∷ []) ∷ []))
      (omega (arith, length-append bs ((read_path r path, r ∷ []) ∷ [])))

old_Result :
    (most : ℕ) (path : Text) (r : Json) (rs : List Json) (bs : Buckets) (xs : List Json)
    (g : Grouped Buckets)
    → bucket_at (read_path r path) bs ≡ some xs
    → Result most path (push_to (read_path r path) r bs) rs g
    → Result most path bs (r ∷ rs) g
old_Result most path r rs bs xs (ok out) h (n, le, each) = (
  n ∙ old_count path r rs bs xs h,
  le,
  λ k.
      each k
      ∙ ap (λ z. z ++ with_key path k rs) (found-push_to (read_path r path) k r xs bs h)
      ∙ append_assoc (found (bucket_at k bs)) _ (with_key path k rs),
)
old_Result most path r rs bs xs (too_many n) h (e, lt) =
    (e, subst (λ z. most < z) (old_count path r rs bs xs h) lt)

new_Result :
    (most : ℕ) (path : Text) (r : Json) (rs : List Json) (bs : Buckets) (g : Grouped Buckets)
    → bucket_at (read_path r path) bs ≡ none
    → Result most path (bs ++ (read_path r path, r ∷ []) ∷ []) rs g
    → Result most path bs (r ∷ rs) g
new_Result most path r rs bs (ok out) h (n, le, each) = (
  n ∙ new_count path r rs bs h,
  le,
  λ k.
      each k
      ∙ ap (λ z. z ++ with_key path k rs) (found-append (read_path r path) k r bs h)
      ∙ append_assoc (found (bucket_at k bs)) _ (with_key path k rs),
)
new_Result most path r rs bs (too_many n) h (e, lt) =
    (e, subst (λ z. most < z) (new_count path r rs bs h) lt)

full_Result :
    (most : ℕ) (path : Text) (r : Json) (rs : List Json) (bs : Buckets)
    → length bs ≡ most
    → bucket_at (read_path r path) bs ≡ none
    → Result most path bs (r ∷ rs) (too_many (length bs + 1))
full_Result most path r rs bs e h =
    rw (seen-none (read_path r path) bs h) (omega (arith, e), omega (arith, e))

group_lem :
    (most : ℕ) (path : Text) (rs : List Json) (bs : Buckets)
    → length bs ≤ most
    → Result most path bs rs (group_records most path rs bs)
unfolding group_records add_record
group_lem most path [] bs h = (omega arith, h, λ k. sym (append-nil _))
group_lem most path (r ∷ rs) bs h =
    let k = read_path r path in
    elim (bucket_at k bs)
        as (λ o.
          bucket_at k bs ≡ o
          → Result most path bs (r ∷ rs) (
              then_group
                (elim o [
                  | some _ ↦ ok (push_to k r bs)
                  | none ↦
                      if leb most (length bs)
                      then too_many (length bs + 1)
                      else ok (bs ++ (k, r ∷ []) ∷ [])
                ])
                (group_records most path rs))) [
                  | some xs ↦ λ e. old_Result most path r rs bs xs _ e (
                      group_lem most path rs (push_to k r bs)
                        (omega (arith, h, length-push_to k r bs)))
                  | none ↦ λ e. elim (Bool-cases (leb most (length bs))) [
                    | inl t ↦ rw t (full_Result most path r rs bs (ground (arith, h, t)) e)
                    | inr f ↦ rw f (
                        new_Result most path r rs bs _ e (
                          group_lem most path rs (bs ++ (k, r ∷ []) ∷ [])
                            (ground (arith, h, f, length-append bs ((k, r ∷ []) ∷ [])))))
                  ]
                ]
      refl

-- With a limit, either there are at most as many values at the field, in one group each, and the
-- group of a value has exactly the records with the value, in order; or there are more, and the
-- error names one more than the limit.
abbrev pub Groups : ℕ → Text → List Json → Grouped Buckets → Type 0
Groups most path rs (ok out) =
    (length out ≡ new_keys path [] rs)
    × (length out ≤ most)
    × ((k : Option Json) → found (bucket_at k out) ≡ with_key path k rs)
Groups most path rs (too_many n) = (n ≡ most + 1) × (most < new_keys path [] rs)

Groups-Result :
    (most : ℕ) (path : Text) (rs : List Json) (g : Grouped Buckets)
    → Result most path [] rs g
    → Groups most path rs g
unfolding bucket_at
Groups-Result most path rs (ok out) (n, le, each) = (omega (arith, n), le, each)
Groups-Result most path rs (too_many n) (e, lt) = (e, omega (arith, lt))

-- Grouping with a limit answers a group for each value at the field, in which the records with the
-- value are in order, if there are at most as many values as the limit; if there are more, it throws,
-- with one more than the limit.
pub group_records-Groups :
    (most : ℕ) (path : Text) (rs : List Json) → Groups most path rs (group_records most path rs [])
group_records-Groups most path rs =
    Groups-Result most path rs _ (group_lem most path rs [] (omega arith))
