-- ===== src/Dict.antt =====
-- JavaScript's `Map` and plain objects: entries in insertion order, with one entry for a key.
-- `set` on a key that is there keeps its place, `delete` drops the entry.
use noydb.Base.{
  ℕ, zero, suc, All, drop, ◌≡◌, refl, ite, none, some, List, [], ◌∷◌, ◌++◌, lookup, arith,
}

module _ {ℓ} {K V : Type ℓ} where
  abbrev pub keys : List (K × V) → List K
  keys [] = []
  keys (e ∷ l) = e.0 ∷ keys l

module _ {ℓ} {K V : Type ℓ} (dec : Discrete K) where
  unfoldable pub insert : K → V → List (K × V) → List (K × V)
  insert k v [] = (k, v) ∷ []
  insert k v (e ∷ l) = ite (dec k e.0) ((k, v) ∷ l) (e ∷ insert k v l)

  unfoldable pub remove : K → List (K × V) → List (K × V)
  remove k [] = []
  remove k (e ∷ l) = let rest = remove k l in ite (dec k e.0) rest (e ∷ rest)

  -- No key has two entries.
  abbrev pub Distinct : List (K × V) → Type ℓ
  Distinct [] = Unit
  Distinct (e ∷ l) = (lookup dec e.0 l ≡ none) × Distinct l

  pub lookup-insert :
      (k j : K) (v : V) (l : List (K × V))
      → lookup dec j (insert k v l) ≡ ite (dec j k) (some v) (lookup dec j l)
  unfolding lookup insert
  lookup-insert k j v [] = refl
  lookup-insert k j v (e ∷ l) = ground (arith, lookup-insert k j v l)

  pub lookup-remove :
      (k j : K) (l : List (K × V)) → lookup dec j (remove k l) ≡ ite (dec j k) none (lookup dec j l)
  unfolding lookup remove
  lookup-remove k j [] = ground arith
  lookup-remove k j (e ∷ l) = ground (arith, lookup-remove k j l)

  pub lookup-append :
      (k : K) (l m : List (K × V))
      → lookup dec k (l ++ m) ≡ (elim (lookup dec k l) [ none ↦ lookup dec k m | some v ↦ some v ])
  unfolding lookup
  lookup-append k [] m = refl
  lookup-append k (e ∷ l) m = ground (arith, lookup-append k l m)

  pub remove_absent : (k : K) (l : List (K × V)) → lookup dec k l ≡ none → remove k l ≡ l
  unfolding lookup remove
  remove_absent k [] h = refl
  remove_absent k (e ∷ l) h = ground (arith, remove_absent k l)

  pub insert_absent :
      (k : K) (v : V) (l : List (K × V)) → lookup dec k l ≡ none → insert k v l ≡ l ++ (k, v) ∷ []
  unfolding lookup insert
  insert_absent k v [] h = refl
  insert_absent k v (e ∷ l) h = ground (arith, insert_absent k v l)

  pub insert-remove :
      (k : K) (v : V) (l : List (K × V)) → insert k v (remove k l) ≡ remove k l ++ (k, v) ∷ []
  insert-remove k v l = insert_absent k v (remove k l) (ground (arith, lookup-remove k k l))

  pub Distinct-remove : (k : K) (l : List (K × V)) → Distinct l → Distinct (remove k l)
  unfolding remove
  Distinct-remove k [] h = tt
  Distinct-remove k (e ∷ l) h = ground (arith, lookup-remove k e.0 l, Distinct-remove k l h.1)

  pub Distinct-insert : (k : K) (v : V) (l : List (K × V)) → Distinct l → Distinct (insert k v l)
  unfolding insert lookup
  Distinct-insert k v [] h = (refl, tt)
  Distinct-insert k v (e ∷ l) h = ground (arith, lookup-insert k e.0 v l, Distinct-insert k v l h.1)

  -- A `delete` of the first key of a map leaves the rest.
  pub remove-cons_self :
      (k : K) (v : V) (l : List (K × V)) → lookup dec k l ≡ none → remove k ((k, v) ∷ l) ≡ l
  unfolding remove
  remove-cons_self k v l h = ground (arith, remove_absent k l)

  pub Distinct-drop : (n : ℕ) (l : List (K × V)) → Distinct l → Distinct (drop n l)
  Distinct-drop zero l h = h
  Distinct-drop (suc n) [] h = tt
  Distinct-drop (suc n) (e ∷ l) h = Distinct-drop n l h.1

  pub lookup-drop-none :
      (k : K) (n : ℕ) (l : List (K × V)) → lookup dec k l ≡ none → lookup dec k (drop n l) ≡ none
  unfolding lookup
  lookup-drop-none k zero l h = h
  lookup-drop-none k (suc n) [] h = refl
  lookup-drop-none k (suc n) (e ∷ l) h = lookup-drop-none k n l (ground arith)

  pub insert-insert :
      (k : K) (v w : V) (l : List (K × V)) → insert k v (insert k w l) ≡ insert k v l
  unfolding insert
  insert-insert k v w [] = ground arith
  insert-insert k v w (e ∷ l) = ground (arith, insert-insert k v w l)

  pub insert_same : (k : K) (v : V) (l : List (K × V)) → lookup dec k l ≡ some v → insert k v l ≡ l
  unfolding insert lookup
  insert_same k v [] h = cc
  insert_same k v (e ∷ l) h = ground (arith, insert_same k v l)

  -- A key that two maps lack is lacked by one after the other.
  pub lookup-append_none :
      (k : K) (l m : List (K × V))
      → lookup dec k l ≡ none
      → lookup dec k m ≡ none
      → lookup dec k (l ++ m) ≡ none
  lookup-append_none k l m h g = rw (lookup-append, h) g

  -- Entries that a map lacks, and that differ from one more entry, are lacked after it too.
  pub All-lookup-append :
      (e : K × V) (m l : List (K × V))
      → lookup dec e.0 l ≡ none
      → All (λ x. lookup dec x.0 m ≡ none) l
      → All (λ x. lookup dec x.0 (m ++ e ∷ []) ≡ none) l
  unfolding lookup
  All-lookup-append e m [] h a = tt
  All-lookup-append e m (x ∷ l) h a =
      (ground (arith, lookup-append x.0 m (e ∷ [])), All-lookup-append e m l (ground arith) a.1)
