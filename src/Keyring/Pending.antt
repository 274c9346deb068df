-- ===== src/Keyring/Pending.antt =====
-- The children in the table of the grants, and what a visit puts on the stack.
use noydb.Base.{
  ◌+◌, ◌≤◌, ◌≡◌, ◌⊎◌, inr, ◌∙◌, refl, ◌||◌, if◌then◌else◌, ite, Bool, true, false, List, [], ◌∷◌,
  ◌++◌, length, lookup, Text, dec_text, arith,
}
use noydb.Dict.{lookup-insert}
use noydb.Indexes.{member}
use noydb.Keyring.{
  is_admin, KeyringFile, Children, children, add_child, children_by_parent, push_all, push_new,
  pending,
}

-- Whether a file says that `p` granted the admin `x`, another one than the root.
abbrev pub granted : Text → Text → Text → List KeyringFile → Bool
granted root p x [] = false
granted root p x (f ∷ l) =
    (if is_admin f.role
      then ite (dec_text f.user_id root) false
          (ite (dec_text p f.granted_by) (ite (dec_text x f.user_id) true false) false)
      else false)
    || granted root p x l

-- The admins below a user.
pub data IsBelow (files : List KeyringFile) (root : Text) : Text → Type 0 where
  direct : (x : Text) → granted root root x files ≡ true → IsBelow files root x
  through :
      (p x : Text) → IsBelow files root p → granted root p x files ≡ true → IsBelow files root x

member-append : (x : Text) (l m : List Text) → member x (l ++ m) ≡ (member x l || member x m)
unfolding member
member-append x [] m = refl
member-append x (y ∷ l) m = ground (arith, member-append x l m)

pub member-push_all :
    (x : Text) (l m : List Text) → member x (push_all l m) ≡ (member x l || member x m)
unfolding member push_all
member-push_all x [] m = refl
member-push_all x (y ∷ l) m = ground (arith, member-push_all x l (y ∷ m))

-- What is pushed is new; what is not pushed was visited.
pub member-push_new :
    (x : Text) (v l m : List Text)
    → member x (push_new v l m) ≡ true
    → (member x l ≡ true) ⊎ (member x m ≡ true)
unfolding member push_new
member-push_new x v [] m h = inr h
member-push_new x v (y ∷ l) m h =
    ground (arith, h, member-push_new x v l m, member-push_new x v l (y ∷ m))

pub kept_new : (x : Text) (v l m : List Text) → member x m ≡ true → member x (push_new v l m) ≡ true
unfolding member push_new
kept_new x v [] m h = h
kept_new x v (y ∷ l) m h = ground (arith, h, kept_new x v l m, kept_new x v l (y ∷ m))

pub pushed_new :
    (x : Text) (v l m : List Text)
    → member x l ≡ true
    → (member x v ≡ true) ⊎ (member x (push_new v l m) ≡ true)
unfolding member push_new
pushed_new x v [] m h = cc
pushed_new x v (y ∷ l) m h =
    ground (arith, h, pushed_new x v l m, pushed_new x v l (y ∷ m), kept_new x v l (y ∷ m))

children-add_child :
    (root p x : Text) (f : KeyringFile) (m : Children)
    → member x (children (add_child root f m) p)
      ≡ (member x (children m p) || granted root p x (f ∷ []))
unfolding member
children-add_child root p x f m = ground (
  arith,
  member-append x (children m f.granted_by) (f.user_id ∷ []),
  lookup-insert dec_text f.granted_by p (children m f.granted_by ++ f.user_id ∷ []) m,
)

pub children_lem :
    (root p x : Text) (files : List KeyringFile) (m : Children)
    → member x (children (children_by_parent root files m) p)
      ≡ (member x (children m p) || granted root p x files)
unfolding children_by_parent
children_lem root p x [] m = ground arith
children_lem root p x (f ∷ files) m =
    children_lem root p x files (add_child root f m)
    ∙ ground (arith, children-add_child root p x f m)

pub length-push_new : (v l m : List Text) → length (push_new v l m) ≤ length l + length m
unfolding push_new
length-push_new v [] m = omega arith
length-push_new v (y ∷ l) m = ground (arith, length-push_new v l m, length-push_new v l (y ∷ m))

pub member-last :
    (x y : Text) (l : List Text) → member x (l ++ y ∷ []) ≡ ite (dec_text x y) true (member x l)
unfolding member
member-last x y [] = refl
member-last x y (z ∷ l) = ground (arith, member-last x y l)

pending_more :
    (m : Children) (x : Text) (order : List Text) → pending m (order ++ x ∷ []) ≤ pending m order
unfolding pending
pending_more [] x order = omega arith
pending_more (e ∷ m) x order = ground (arith, member-last e.0 x order, pending_more m x order)

-- A visit takes the children of the user off what is pending.
pub pending_visit :
    (m : Children) (x : Text) (order : List Text)
    → member x order ≡ false
    → length (children m x) + pending m (order ++ x ∷ []) ≤ pending m order
unfolding pending lookup
pending_visit [] x order h = omega arith
pending_visit (e ∷ m) x order h =
    ground (arith, member-last e.0 x order, pending_more m x order, pending_visit m x order h)
