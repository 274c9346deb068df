-- ===== src/Keyring.antt =====
-- packages/hub/src/keyring.ts: what a role may do, and the admins that an admin has granted,
-- directly or through others. `JSON.parse` at a keyring file is a parameter.
mod Pending
pub mod Descendants
mod Tests
use noydb.Base.{
  ℕ, zero, suc, ◌+◌, if◌then◌else◌, ite, Bool, true, false, Option, none, some, is_some, List, [],
  ◌∷◌, ◌++◌, length, lookup, Text, codes, dec_text,
}
use noydb.Dict.{insert}
use noydb.Store.{Envelope, StoreError, Outcome, ok, thrown, NoydbStore}
use noydb.Indexes.{member, bucket_of}

pub data Role : Type 0 where
  owner admin operator viewer client : Role

pub data Permission : Type 0 where
  rw ro : Permission

pub record KeyringFile : Type 0 where
  pub user_id : Text
  pub role : Role
  pub granted_by : Text

pub record UnlockedKeyring : Type 0 where
  pub role : Role
  pub permissions : List (Text × Permission)

abbrev pub is_admin : Role → Bool
is_admin admin = true
is_admin role = false

-- `ADMIN_GRANTABLE_TARGETS.includes(role)`
abbrev pub is_grantable : Role → Bool
is_grantable owner = false
is_grantable role = true

unfoldable pub can_grant : Role → Role → Bool
can_grant owner target = true
can_grant admin target = is_grantable target
can_grant caller target = false

unfoldable pub can_revoke : Role → Role → Bool
can_revoke caller owner = false
can_revoke owner target = true
can_revoke admin target = is_grantable target
can_revoke caller target = false

abbrev pub is_rw : Option Permission → Bool
is_rw (some rw) = true
is_rw p = false

unfoldable pub has_write_permission : UnlockedKeyring → Text → Bool
has_write_permission k name = by_role k.role
  where
    by_role : Role → Bool
    by_role owner = true
    by_role admin = true
    by_role viewer = false
    by_role client = false
    by_role operator = is_rw (lookup dec_text name k.permissions)

unfoldable pub has_access : UnlockedKeyring → Text → Bool
has_access k name = by_role k.role
  where
    by_role : Role → Bool
    by_role owner = true
    by_role admin = true
    by_role viewer = true
    by_role role = is_some (lookup dec_text name k.permissions)

unfoldable pub resolve_permissions :
    Role → Option (List (Text × Permission)) → List (Text × Permission)
resolve_permissions owner explicit = []
resolve_permissions admin explicit = []
resolve_permissions viewer explicit = []
resolve_permissions role none = []
resolve_permissions role (some explicit) = explicit

-- The admins that each user granted.
abbrev pub Children : Type 0
Children = List (Text × List Text)

abbrev pub children : Children → Text → List Text
children m p = bucket_of (lookup dec_text p m)

abbrev pub add_child : Text → KeyringFile → Children → Children
add_child root f m =
    if is_admin f.role
    then ite (dec_text f.user_id root) m
        (insert dec_text f.granted_by (children m f.granted_by ++ f.user_id ∷ []) m)
    else m

unfoldable pub children_by_parent : Text → List KeyringFile → Children → Children
children_by_parent root [] m = m
children_by_parent root (f ∷ l) m = children_by_parent root l (add_child root f m)

-- The array from which `pop` takes, its end first.
unfoldable pub push_all : List Text → List Text → List Text
push_all [] stack = stack
push_all (x ∷ l) stack = push_all l (x ∷ stack)

unfoldable pub push_new : List Text → List Text → List Text → List Text
unfolding member
push_new visited [] stack = stack
push_new visited (x ∷ l) stack =
    if member x visited then push_new visited l stack else push_new visited l (x ∷ stack)

-- The loop over the stack. The users in `order` are those visited.
unfoldable pub walk : Children → ℕ → List Text → List Text → List Text
unfolding push_new
walk m zero stack order = order
walk m (suc fuel) [] order = order
walk m (suc fuel) (next ∷ stack) order =
    let here = order ++ next ∷ [] in
    elim (member next order) [
      | true ↦ walk m fuel stack order
      | false ↦ walk m fuel (push_new here (children m next) stack) here
    ]

-- The children of users that were not visited.
unfoldable pub pending : Children → List Text → ℕ
unfolding member
pending [] order = 0
pending (e ∷ m) order =
    let rest = pending m order in if member e.0 order then rest else length e.1 + rest

unfoldable pub admin_descendants : Text → List KeyringFile → List Text
unfolding children_by_parent push_all walk pending
admin_descendants root files =
    let m = children_by_parent root files [] in
    let stack = push_all (children m root) [] in walk m (suc (length stack + pending m [])) stack []

module _ {S : Type 0} where
  abbrev pub then_keep :
      KeyringFile
      → S × Outcome StoreError (List KeyringFile)
      → S × Outcome StoreError (List KeyringFile)
  then_keep f (s, ok l) = (s, ok (f ∷ l))
  then_keep f (s, thrown e) = (s, thrown e)

  -- A text that is no JSON throws.
  abbrev pub with_file :
      Option KeyringFile
      → (S → S × Outcome StoreError (List KeyringFile))
      → S
      → S × Outcome StoreError (List KeyringFile)
  with_file none go s = (s, thrown (StoreError.failure (codes "SyntaxError")))
  with_file (some f) go s = then_keep f (go s)

  abbrev pub after_file :
      (Text → Option KeyringFile)
      → (S → S × Outcome StoreError (List KeyringFile))
      → S × Outcome StoreError (Option Envelope)
      → S × Outcome StoreError (List KeyringFile)
  after_file parse go (s, thrown e) = (s, thrown e)
  after_file parse go (s, ok none) = go s
  after_file parse go (s, ok (some e)) = with_file (parse e.data_text) go s

module _ {S : Type 0} (parse : Text → Option KeyringFile) (adapter : NoydbStore S)
    (vault : Text) where
  unfoldable pub load_keyrings : List Text → S → S × Outcome StoreError (List KeyringFile)
  load_keyrings [] s = (s, ok [])
  load_keyrings (id ∷ ids) s =
      after_file parse (load_keyrings ids) (adapter.get vault (codes "_keyring") id s)

  abbrev pub after_list :
      S × Outcome StoreError (List Text) → S × Outcome StoreError (List KeyringFile)
  after_list (s, thrown e) = (s, thrown e)
  after_list (s, ok ids) = load_keyrings ids s

  abbrev pub after_load :
      Text → S × Outcome StoreError (List KeyringFile) → S × Outcome StoreError (List Text)
  after_load root (s, thrown e) = (s, thrown e)
  after_load root (s, ok files) = (s, ok (admin_descendants root files))

  unfoldable pub find_admin_descendants : Text → S → S × Outcome StoreError (List Text)
  unfolding load_keyrings admin_descendants
  find_admin_descendants root s =
      after_load root (after_list (adapter.list vault (codes "_keyring") s))
