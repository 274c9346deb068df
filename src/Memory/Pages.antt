-- ===== src/Memory/Pages.antt =====
-- `listPage`: following the cursors visits every record once, in the order of the sorted ids.
use Prim.Native.Nat.{min}
use noydb.Base.{
  ℕ, zero, suc, ◌+◌, ◌-◌, ◌<◌, if◌then◌else◌, ◌≡◌, ◌∙◌, sym, ap, refl, Option, none, some,
  Option-cases, inl, inr, Bool-cases, List, [], ◌∷◌, ◌++◌, lookup, dec_text, Text, text_le, arith,
  drop-nil, if_pos, if_neg, All, All-map, length, take, drop, sort, sort_into, ltb, false,
  take-append-drop, drop-drop, take_all, length-drop,
}
use noydb.Dict.{keys}
use noydb.Store.{Envelope, Records}
use noydb.Memory.{Memory, find_in, get, list, page_items, list_page}

-- The client's loop over the pages: each next page is asked for with the cursor of the last.
unfoldable pub all_pages : ℕ → Text → Text → Option ℕ → ℕ → Memory → List (Text × Envelope)
all_pages zero v c cursor limit s = []
all_pages (suc fuel) v c cursor limit s =
    let page = list_page v c cursor limit s in
    elim page.next_cursor [
      | none ↦ page.items
      | some n ↦ page.items ++ all_pages fuel v c (some n) limit s
    ]

page_items-append :
    (coll : Records) (a b : List Text)
    → page_items coll (a ++ b) ≡ page_items coll a ++ page_items coll b
unfolding page_items
page_items-append coll [] b = refl
page_items-append coll (id ∷ a) b = ground (arith, page_items-append coll a b)

-- An id of the collection, with its record.
abbrev IsKey : Records → Text → Type 0
IsKey coll id = (e : Envelope) × (lookup dec_text id coll ≡ some e)

module _ (P : Text → Type 0) where
  All-sort_into : (a : Text) (l : List Text) → P a → All P l → All P (sort_into a l)
  unfolding sort_into
  All-sort_into a [] p h = (p, tt)
  All-sort_into a (b ∷ l) p h = elim (Bool-cases (text_le a b)) [
    | inl le ↦ rw le (p, h)
    | inr gt ↦ rw gt (h.0, All-sort_into a l p h.1)
  ]

  All-sort : (l : List Text) → All P l → All P (sort l)
  unfolding sort
  All-sort [] h = tt
  All-sort (a ∷ l) h = All-sort_into a (sort l) h.0 (All-sort l h.1)

module _ (coll : Records) where
  keys-page_items :
      (ids : List Text)
      → All (IsKey coll) ids
      → (keys (page_items coll ids) ≡ ids)
        × All (λ e. lookup dec_text e.0 coll ≡ some e.1) (page_items coll ids)
  unfolding page_items
  keys-page_items [] h = (refl, tt)
  keys-page_items (id ∷ ids) h =
      let (ks, found) = keys-page_items ids h.1 in
      rw (h.0.1, page_items) (ap (◌∷◌ id) ks, (h.0.1, found))

IsKey-cons : (x : Text × Envelope) (l : Records) (j : Text) → IsKey l j → IsKey (x ∷ l) j
unfolding lookup
IsKey-cons x l j (e, found) = elim (dec_text j x.0) [
  | yes p ↦ (x.1, if_pos (dec_text j x.0) p (some x.1) (lookup dec_text j l))
  | no p ↦ (e, if_neg (dec_text j x.0) p (some x.1) (lookup dec_text j l) ∙ found)
]

All-IsKey : (l : Records) → All (IsKey l) (keys l)
unfolding lookup
All-IsKey [] = tt
All-IsKey (x ∷ l) = (
  (x.1, if_pos (dec_text x.0 x.0) refl (some x.1) (lookup dec_text x.0 l)),
  All-map (keys l) (IsKey-cons x l) (All-IsKey l),
)

abbrev start_of : Option ℕ → ℕ
start_of none = 0
start_of (some n) = n

module _ (v c : Text) (limit : ℕ) (s : Memory) where
  -- A page of a collection that is there.
  page_lem :
      (cursor : Option ℕ) (coll : Records)
      → find_in c (find_in v (some s)) ≡ some coll
      → (let ids = sort (keys coll) in
          let start = start_of cursor in
          let end = min (start + limit) (length ids) in
          ((list_page v c cursor limit s).items
            ≡ page_items coll (take (end - start) (drop start ids)))
          × ((list_page v c cursor limit s).next_cursor
              ≡ (if ltb end (length ids) then some end else none)))
  unfolding list_page
  page_lem cursor coll h = rw (h, list_page) (refl, refl)

  pages_lem :
      (fuel : ℕ) (cursor : Option ℕ) (coll : Records)
      → 0 < limit
      → find_in c (find_in v (some s)) ≡ some coll
      → length (sort (keys coll)) < fuel + start_of cursor
      → all_pages fuel v c cursor limit s
        ≡ page_items coll (drop (start_of cursor) (sort (keys coll)))
  unfolding all_pages
  pages_lem zero cursor coll pos h f =
      rw (drop-nil (start_of cursor) (sort (keys coll)) (omega arith)) (unfold page_items in refl)
  pages_lem (suc fuel) cursor coll pos h f =
      let ids = sort (keys coll) in
      let start = start_of cursor in
      let end = min (start + limit) (length ids) in
      let (items, next) = page_lem cursor coll h in
      elim (Bool-cases (ltb end (length ids))) [
        | inl more ↦
            let ih = pages_lem fuel (some end) coll pos h (ground arith) in
            let size : end - start ≡ limit = ground arith in
            let sum : end ≡ start + limit = ground arith in
            let rest : drop end ids ≡ drop limit (drop start ids) =
              ap (λ n. drop n ids) sum ∙ sym (drop-drop limit start ids) in
            ground (
              arith,
              items,
              next,
              more,
              ih,
              size,
              rest,
              page_items-append coll (take limit (drop start ids)) (drop limit (drop start ids)),
              take-append-drop limit (drop start ids),
            )
        | inr last ↦
            let all =
              take_all (end - start) (drop start ids)
                (omega (arith, length-drop start ids, last_end start ids last)) in
            ground (arith, items, next, last, all)
      ]
    where
      last_end :
          (start : ℕ) (ids : List Text)
          → ltb (min (start + limit) (length ids)) (length ids) ≡ false
          → min (start + limit) (length ids) ≡ length ids
      last_end start ids h = ground arith

length-sort_into : (a : Text) (l : List Text) → length (sort_into a l) ≡ suc (length l)
unfolding sort_into
length-sort_into a [] = refl
length-sort_into a (b ∷ l) = ground (arith, length-sort_into a l)

length-sort : (l : List Text) → length (sort l) ≡ length l
unfolding sort
length-sort [] = refl
length-sort (a ∷ l) = length-sort_into a (sort l) ∙ ap suc (length-sort l)

module _ (v c : Text) (s : Memory) where
  list_missing : find_in c (find_in v (some s)) ≡ none → list v c s ≡ []
  unfolding list
  list_missing h = rw (h, list)

  list_found :
      {coll : Records} → find_in c (find_in v (some s)) ≡ some coll → list v c s ≡ keys coll
  unfolding list
  list_found h = rw (h, list)

  get_found :
      (id : Text) {coll : Records}
      → find_in c (find_in v (some s)) ≡ some coll
      → get v c id s ≡ lookup dec_text id coll
  unfolding get
  get_found id h = ap (find_in id) h

pages_missing :
    (v c : Text) (limit : ℕ) (s : Memory)
    → find_in c (find_in v (some s)) ≡ none
    → (fuel : ℕ) → all_pages fuel v c none limit s ≡ []
unfolding all_pages list_page
pages_missing v c limit s h zero = refl
pages_missing v c limit s h (suc fuel) = ground arith

-- With a positive limit, following the cursors from the first page ends within as many pages as
-- there are ids and one more; the pages have the ids of the collection in sorted order, each once,
-- with its record.
pub all_pages_lem :
    (v c : Text) (limit : ℕ) (s : Memory) (fuel : ℕ)
    → 0 < limit
    → length (list v c s) < fuel
    → (keys (all_pages fuel v c none limit s) ≡ sort (list v c s))
      × All (λ e. get v c e.0 s ≡ some e.1) (all_pages fuel v c none limit s)
all_pages_lem v c limit s fuel pos f = elim (Option-cases (find_in c (find_in v (some s)))) [
  | inl missing ↦
      rw (pages_missing v c limit s missing fuel, list_missing v c s missing)
        (unfold sort in (refl, tt))
  | inr (coll, found) ↦
      let ids = sort (keys coll) in
      let listed = list_found v c s found in
      let count : length ids < fuel =
        omega (arith, length-sort (keys coll), f, ap (length {A = Text}) listed) in
      let pages = pages_lem v c limit s fuel none coll pos found (omega arith) in
      let start : drop (start_of none) ids ≡ ids = refl in
      let (ks, all) =
        keys-page_items coll ids (All-sort (IsKey coll) (keys coll) (All-IsKey coll)) in
      rw (pages, start, listed)
        (ks, All-map (page_items coll ids) (λ e h. get_found v c s e.0 found ∙ h) all)
]
