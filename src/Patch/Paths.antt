-- ===== src/Patch/Paths.antt =====
-- Operations below a key: what a patch does to a field is what it does to the field's value.
use mathlib.Core.List.{append_assoc, append-nil, map-append}
use noydb.Base.{
  ℕ, ◌≡◌, ◌∙◌, sym, refl, ap, if◌then◌else◌, ite, Bool, true, false, Option, none, some, List, [],
  ◌∷◌, ◌++◌, map, Text, dec_text, arith,
}
use noydb.Json.{Json, Items, Fields, null, bool, number, string, array, object, end, field, find}
use noydb.Patch
use noydb.Patch.{
  Op, add, remove, replace, path_of, Result, ok, failed, ◌>>=◌, child_path, parse_path, diff,
  diff_fields, diff_added, apply_op, apply_at, apply_patch, walk_and_apply, apply_at_terminal,
}
use noydb.Patch.Escape.{render, parse_path-render}

abbrev pub prefix : Text → Op → Op
prefix p (add q v) = add (p ++ q) v
prefix p (remove q) = remove (p ++ q)
prefix p (replace q v) = replace (p ++ q) v

abbrev pub is_replace : Op → Bool
is_replace (replace p v) = true
is_replace op = false

-- A path of segments, or a replacement of the whole.
abbrev pub IsPathed : Op → Type 0
IsPathed op = (l : List Text) × (path_of op ≡ render l) × (l ≡ [] → is_replace op ≡ true)

child_path_prefix : (p q k : Text) → child_path (p ++ q) k ≡ p ++ child_path q k
child_path_prefix p q k = append_assoc p q _

child_path-render : (l : List Text) (k : Text) → child_path (render l) k ≡ render (l ++ k ∷ [])
unfolding render
child_path-render [] k = ap (◌∷◌ b'/') (sym (append-nil _))
child_path-render (s ∷ l) k = ap (◌∷◌ b'/') (
    append_assoc (Patch.escape_path_segment s) (render l) _
    ∙ ap (◌++◌ (Patch.escape_path_segment s)) (child_path-render l k))

diff_added-prefix :
    (p q : Text) (fs gs : Fields) → diff_added (p ++ q) fs gs ≡ map (prefix p) (diff_added q fs gs)
unfolding diff_added
diff_added-prefix p q fs end = refl
diff_added-prefix p q fs (field k w gs) =
    ground (arith, diff_added-prefix p q fs gs, child_path_prefix p q k)

-- A replacement, unless a test holds.
unless_prefix :
    (b : Bool) (v : Json) (p q : Text)
    → (if b then [] else replace (p ++ q) v ∷ [])
      ≡ map (prefix p) (if b then [] else replace q v ∷ [])
unless_prefix true v p q = refl
unless_prefix false v p q = refl

unless_text_prefix :
    (s t : Text) (v : Json) (p q : Text)
    → ite (dec_text s t) [] (replace (p ++ q) v ∷ [])
      ≡ map (prefix p) (ite (dec_text s t) [] (replace q v ∷ []))
unless_text_prefix s t v p q =
    elim (dec_text s t)
      as (λ d. ite d [] (replace (p ++ q) v ∷ []) ≡ map (prefix p) (ite d [] (replace q v ∷ []))) [
        | yes e ↦ refl
        | no d ↦ refl
      ]

-- What the pass writes for one field.
abbrev pub field_ops : Option Json → Json → Text → List Op
field_ops none v path = remove path ∷ []
field_ops (some w) v path = diff v w path

append_prefix :
    (p : Text) (l l' r r' : List Op)
    → l ≡ map (prefix p) l'
    → r ≡ map (prefix p) r'
    → l ++ r ≡ map (prefix p) (l' ++ r')
append_prefix p l l' r r' e f =
    ap (λ z. z ++ r) e ∙ ap (λ z. map (prefix p) l' ++ z) f ∙ sym (map-append (prefix p) l' r')

mutual
  unfolding diff

  pub diff-prefix : (v w : Json) (p q : Text) → diff v w (p ++ q) ≡ map (prefix p) (diff v w q)
  diff-prefix null null p q = refl
  diff-prefix (bool true) (bool true) p q = refl
  diff-prefix (bool false) (bool false) p q = refl
  diff-prefix (number s) (number t) p q = unless_text_prefix s t (number t) p q
  diff-prefix (string s) (string t) p q = unless_text_prefix s t (string t) p q
  diff-prefix (array xs) (array ys) p q =
      unless_prefix (Patch.deep_equal (array xs) (array ys)) (array ys) p q
  diff-prefix (object fs) (object gs) p q =
      append_prefix p _ (diff_fields fs gs q) _ (diff_added q fs gs) (diff_fields-prefix fs gs p q)
        (diff_added-prefix p q fs gs)
  diff-prefix _ _ p q = refl

  diff_fields-prefix :
      (fs gs : Fields) (p q : Text)
      → diff_fields fs gs (p ++ q) ≡ map (prefix p) (diff_fields fs gs q)
  diff_fields-prefix end gs p q = refl
  diff_fields-prefix (field k v fs) gs p q =
      elim (find k gs)
        as (λ o.
          (elim o [
            | none ↦ remove (child_path (p ++ q) k) ∷ []
            | some w ↦ diff v w (child_path (p ++ q) k)
          ])
            ++ diff_fields fs gs (p ++ q)
          ≡ map (prefix p) (
              (elim o [ none ↦ remove (child_path q k) ∷ [] | some w ↦ diff v w (child_path q k) ])
              ++ diff_fields fs gs q)) [
                | none ↦ cc (child_path_prefix p q k, diff_fields-prefix fs gs p q)
                | some w ↦
                    let head : diff v w (child_path (p ++ q) k)
                        ≡ map (prefix p) (diff v w (child_path q k)) =
                      ap (diff v w) (child_path_prefix p q k)
                      ∙ diff-prefix v w p (child_path q k) in
                    append_prefix p _ (diff v w (child_path q k)) _ (diff_fields fs gs q) head
                      (diff_fields-prefix fs gs p q)
              ]

after_walk :
    (doc : Json) (s : Text) (r r' : Result Json)
    → r ≡ r'
    → (r >>= λ c. Patch.with_child doc s c) ≡ (r' >>= λ c. Patch.with_child doc s c)
after_walk doc s r r' e = ap (λ r. r >>= λ c. Patch.with_child doc s c) e

item-prefix :
    (p : Text) (op : Op) (n : ℕ) (xs : Items)
    → Patch.apply_item (prefix p op) n xs ≡ Patch.apply_item op n xs
unfolding Patch.apply_item
item-prefix p (add q v) n xs = refl
item-prefix p (remove q) n xs = refl
item-prefix p (replace q v) n xs = refl

field-prefix :
    (p : Text) (op : Op) (k : Text) (fs : Fields)
    → Patch.apply_field (prefix p op) k fs ≡ Patch.apply_field op k fs
unfolding Patch.apply_field
field-prefix p (add q v) k fs = refl
field-prefix p (remove q) k fs = refl
field-prefix p (replace q v) k fs = refl

terminal-prefix :
    (p : Text) (doc : Json) (s : Text) (op : Op)
    → apply_at_terminal doc s (prefix p op) ≡ apply_at_terminal doc s op
unfolding apply_at_terminal
terminal-prefix p (array xs) s op =
    elim (Patch.item_index s xs)
      as (λ r.
        (r >>= λ n. Patch.apply_item (prefix p op) n xs) ≡ (r >>= λ n. Patch.apply_item op n xs)) [
          | failed ↦ refl
          | ok n ↦ item-prefix p op n xs
        ]
terminal-prefix p (object fs) s op = field-prefix p op s fs
terminal-prefix p _ s op = refl

pub walk-prefix :
    (p : Text) (doc : Json) (l : List Text) (op : Op)
    → walk_and_apply doc l (prefix p op) ≡ walk_and_apply doc l op
unfolding walk_and_apply
walk-prefix p doc [] op = refl
walk-prefix p doc (s ∷ []) op = terminal-prefix p doc s op
walk-prefix p doc (s ∷ t ∷ l) op =
    elim (Patch.child_of doc s)
      as (λ r.
        (r >>= λ c. walk_and_apply c (t ∷ l) (prefix p op) >>= λ d. Patch.with_child doc s d)
        ≡ (r >>= λ c. walk_and_apply c (t ∷ l) op >>= λ d. Patch.with_child doc s d)) [
          | failed ↦ refl
          | ok c ↦ after_walk doc s _ _ (walk-prefix p c (t ∷ l) op)
        ]

-- At a path of segments an operation walks.
pub apply_at-render :
    (doc : Json) (s : Text) (l : List Text) (op : Op)
    → apply_at doc (render (s ∷ l)) op ≡ walk_and_apply doc (s ∷ l) op
unfolding apply_at render
apply_at-render doc s l op =
    ap (λ r. r >>= λ segments. walk_and_apply doc segments op) (parse_path-render s l)
