-- ===== src/Patch/Escape.antt =====
-- Paths as lists of segments: what `computePatch` writes, `parsePath` reads back.
use noydb.Base.{
  ℕ, ◌≡◌, ◌≢◌, ◌∙◌, sym, refl, ap, ◌==◌, if◌then◌else◌, Bool-cases, inl, inr, List, [], ◌∷◌, ◌++◌,
  map, Text, All, arith,
}
use mathlib.Core.List.{append_assoc, append-nil}
use noydb.Patch.{
  ok, escape_path_segment, unescape_path_segment, replace_pair, split_from, parse_path,
}

-- One unit of a segment, escaped.
abbrev escape_unit : ℕ → Text → Text
escape_unit c rest =
    if c == b'~' then b'~' ∷ b'0' ∷ rest else (if c == b'/' then b'~' ∷ b'1' ∷ rest else c ∷ rest)

escape-cons :
    (c : ℕ) (s : Text) → escape_path_segment (c ∷ s) ≡ escape_unit c (escape_path_segment s)
unfolding escape_path_segment
escape-cons c s = ground arith

-- The inner replacement leaves what escaping `~` alone makes.
abbrev tildes : Text → Text
tildes [] = []
tildes (c ∷ s) = if c == b'~' then b'~' ∷ b'0' ∷ tildes s else c ∷ tildes s

-- A unit that is not `~` begins no pair.
pair_skip : (d r c : ℕ) (s : Text) → c ≢ b'~' → replace_pair d r (c ∷ s) ≡ c ∷ replace_pair d r s
unfolding replace_pair
pair_skip d r c [] h = refl
pair_skip d r c (x ∷ s) h = ground arith

slashes_back : (s : Text) → replace_pair b'1' b'/' (escape_path_segment s) ≡ tildes s
unfolding replace_pair escape_path_segment
slashes_back [] = refl
slashes_back (c ∷ s) = rw (escape-cons c s) (
    ground (
      arith,
      pair_skip b'1' b'/' c (escape_path_segment s),
      pair_skip b'1' b'/' b'0' (escape_path_segment s),
      slashes_back s,
    ))

tildes_back : (s : Text) → replace_pair b'0' b'~' (tildes s) ≡ s
unfolding replace_pair
tildes_back [] = refl
tildes_back (c ∷ s) = ground (arith, pair_skip b'0' b'~' c (tildes s), tildes_back s)

-- Unescaping undoes escaping.
pub unescape-escape : (s : Text) → unescape_path_segment (escape_path_segment s) ≡ s
unfolding unescape_path_segment
unescape-escape s = ap (replace_pair b'0' b'~') (slashes_back s) ∙ tildes_back s

abbrev NoSlash : Text → Type 0
NoSlash = All (λ c. c ≢ b'/')

unit-NoSlash : (c : ℕ) (r : Text) → NoSlash r → NoSlash (escape_unit c r)
unit-NoSlash c r h = elim (Bool-cases (c == b'~')) [
  | inl t ↦ rw t (λ e. ground (arith, e), (λ e. ground (arith, e), h))
  | inr t ↦ rw t (elim (Bool-cases (c == b'/')) [
    | inl u ↦ rw u (λ e. ground (arith, e), (λ e. ground (arith, e), h))
    | inr u ↦ rw u (λ e. ground (arith, e), h)
  ])
]

escape-NoSlash : (s : Text) → NoSlash (escape_path_segment s)
unfolding escape_path_segment
escape-NoSlash [] = tt
escape-NoSlash (c ∷ s) =
    rw (escape-cons c s) (unit-NoSlash c (escape_path_segment s) (escape-NoSlash s))

-- The path of a list of segments.
unfoldable pub render : List Text → Text
unfolding escape_path_segment
render [] = []
render (s ∷ l) = b'/' ∷ (escape_path_segment s ++ render l)

split_segment :
    (seen t : Text) (l : List Text)
    → NoSlash t
    → split_from seen (t ++ render l) ≡ split_from (seen ++ t) (render l)
unfolding split_from
split_segment seen [] l h = ap (λ z. split_from z (render l)) (sym (append-nil seen))
split_segment seen (c ∷ t) l h =
    let step = split_segment (seen ++ c ∷ []) t l h.1 in
    let moved : (seen ++ c ∷ []) ++ t ≡ seen ++ c ∷ t = append_assoc seen (c ∷ []) t in
    ground (arith, h.0, step, ap (λ z. split_from z (render l)) moved)

split-render :
    (seen : Text) (l : List Text) → split_from seen (render l) ≡ seen ∷ map escape_path_segment l
unfolding split_from render
split-render seen [] = refl
split-render seen (s ∷ l) = ap (◌∷◌ seen) (
    split_segment [] (escape_path_segment s) l (escape-NoSlash s)
    ∙ split-render (escape_path_segment s) l)

map_unescape : (l : List Text) → map unescape_path_segment (map escape_path_segment l) ≡ l
map_unescape [] = refl
map_unescape (s ∷ l) = cc (unescape-escape s, map_unescape l)

-- A path that segments make is read back as these segments.
pub parse_path-render : (s : Text) (l : List Text) → parse_path (render (s ∷ l)) ≡ ok (s ∷ l)
unfolding parse_path render
parse_path-render s l =
    ap (λ z. ok (map unescape_path_segment z))
      (split_segment [] (escape_path_segment s) l (escape-NoSlash s)
        ∙ split-render (escape_path_segment s) l)
    ∙ ap ok (map_unescape (s ∷ l))
