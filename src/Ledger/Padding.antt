-- ===== src/Ledger/Padding.antt =====
-- The keys of the ledger's rows: as texts they are in the order of the positions.
use mathlib.Core.List.{append_assoc}
use noydb.Base.{
  ℕ, zero, suc, ◌+◌, ◌-◌, ◌/◌, ◌%◌, ◌^◌, ◌≤◌, ◌<◌, ◌≡◌, ◌∙◌, sym, refl, ap, ltb, leb, if◌then◌else◌,
  true, false, Bool-cases, inl, inr, [], ◌∷◌, ◌++◌, length, length-append, Text, text_le, arith,
}
use noydb.Json.{decimal_from}
use noydb.Entry.{zeros, pad_start, padded_index}

-- The last `w` digits.
abbrev fixed : ℕ → ℕ → Text
fixed zero n = []
fixed (suc w) n = fixed w (n / 10) ++ (b'0' + n % 10) ∷ []

zeros-snoc : (w : ℕ) → zeros w ++ b'0' ∷ [] ≡ zeros (suc w)
zeros-snoc zero = refl
zeros-snoc (suc w) = ap (◌∷◌ b'0') (zeros-snoc w)

fixed-zeros : (w : ℕ) → fixed w 0 ≡ zeros w
fixed-zeros zero = refl
fixed-zeros (suc w) = ap (λ z. z ++ b'0' ∷ []) (fixed-zeros w) ∙ zeros-snoc w

pad_snoc : (w d : ℕ) (s : Text) → pad_start (suc w) (s ++ d ∷ []) ≡ pad_start w s ++ d ∷ []
unfolding pad_start
pad_snoc w d s =
    let n : suc w - length (s ++ d ∷ []) ≡ w - length s = omega (arith, length-append s (d ∷ [])) in
    ap (λ k. zeros k ++ (s ++ d ∷ [])) n ∙ sym (append_assoc (zeros (w - length s)) s (d ∷ []))

small : (w n : ℕ) → n < 10 → pad_start (suc w) ((b'0' + n) ∷ []) ≡ fixed (suc w) n
unfolding pad_start
small w n h =
    let q : n / 10 ≡ 0 = omega (arith, h) in
    let r : n % 10 ≡ n = omega (arith, h) in
    let k : suc w - 1 ≡ w = omega arith in
    rw (q, r, k) (ap (λ z. z ++ (b'0' + n) ∷ []) (sym (fixed-zeros w)))

pad_lem :
    (w fuel n : ℕ)
    → n < 10 ^ suc w
    → n < fuel
    → pad_start (suc w) (decimal_from fuel n) ≡ fixed (suc w) n
unfolding decimal_from
pad_lem w zero n h f = absurd (omega (arith, f))
pad_lem zero (suc fuel) n h f = elim (Bool-cases (ltb n 10)) [
  | inl t ↦ rw t (small 0 n (ground (arith, t)))
  | inr t ↦ let b : 10 ≤ n = ground (arith, t) in absurd (omega (arith, h, b))
]
pad_lem (suc w) (suc fuel) n h f = elim (Bool-cases (ltb n 10)) [
  | inl t ↦ rw t (small (suc w) n (ground (arith, t)))
  | inr t ↦
      let b : 10 ≤ n = ground (arith, t) in
      rw t (
        pad_snoc (suc w) (b'0' + n % 10) (decimal_from fuel (n / 10))
        ∙ ap (λ z. z ++ (b'0' + n % 10) ∷ [])
            (pad_lem w fuel (n / 10) (omega (arith, h)) (omega (arith, f, b))))
]

snoc-text_le :
    (s t : Text) (a b : ℕ)
    → length s ≡ length t
    → text_le (s ++ a ∷ []) (t ++ b ∷ [])
      ≡ (if text_le s t then (if text_le t s then leb a b else true) else false)
unfolding text_le
snoc-text_le [] [] a b h = ground arith
snoc-text_le [] (y ∷ t) a b h = absurd (omega (arith, h))
snoc-text_le (x ∷ s) [] a b h = absurd (omega (arith, h))
snoc-text_le (x ∷ s) (y ∷ t) a b h = ground (arith, snoc-text_le s t a b)

length-fixed : (w n : ℕ) → length (fixed w n) ≡ w
length-fixed zero n = refl
length-fixed (suc w) n =
    omega (arith, length-append (fixed w (n / 10)) ((b'0' + n % 10) ∷ []), length-fixed w (n / 10))

digits :
    (m n : ℕ)
    → (if leb (m / 10) (n / 10)
        then (if leb (n / 10) (m / 10) then leb (b'0' + m % 10) (b'0' + n % 10) else true)
        else false)
      ≡ leb m n
digits m n = ground arith

fixed-text_le : (w m n : ℕ) → m < 10 ^ w → n < 10 ^ w → text_le (fixed w m) (fixed w n) ≡ leb m n
unfolding text_le
fixed-text_le zero m n h k = ground arith
fixed-text_le (suc w) m n h k =
    let m' : m / 10 < 10 ^ w = omega (arith, h) in
    let n' : n / 10 < 10 ^ w = omega (arith, k) in
    snoc-text_le (fixed w (m / 10)) (fixed w (n / 10)) _ _
      (length-fixed w (m / 10) ∙ sym (length-fixed w (n / 10)))
    ∙ rw (fixed-text_le w (m / 10) (n / 10) m' n', fixed-text_le w (n / 10) (m / 10) n' m')
        (digits m n)

-- Keys of positions below 10^10 are in the order of the positions.
pub padded_index-text_le :
    (m n : ℕ) → m < 10 ^ 10 → n < 10 ^ 10 → text_le (padded_index m) (padded_index n) ≡ leb m n
unfolding padded_index
padded_index-text_le m n h k =
    rw (pad_lem 9 (suc m) m h (omega arith), pad_lem 9 (suc n) n k (omega arith))
      (fixed-text_le 10 m n h k)
