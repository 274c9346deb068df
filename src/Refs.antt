-- ===== src/Refs.antt =====
-- packages/hub/src/refs.ts: `ref` and the registry of references, `RefRegistry`. Field names have
-- no comma, so that joined key lists agree exactly when the lists do.
pub mod Inbound
mod Tests
use noydb.Base.{
  ℕ, ite, if◌then◌else◌, Bool, true, false, Option, none, some, List, [], ◌∷◌, ◌++◌, lookup, Text,
  codes, dec_text, starts_with, sort,
}
use noydb.Dict.{keys, insert}
use noydb.Store.{Outcome, ok, thrown}

pub data RefMode : Type 0 where
  strict warn cascade : RefMode

pub record RefDescriptor : Type 0 where
  pub target : Text
  pub mode : RefMode

abbrev pub Refs : Type 0
Refs = List (Text × RefDescriptor)

pub record InboundRef : Type 0 where
  pub collection : Text
  pub field : Text
  pub mode : RefMode

pub data RefError : Type 0 where
  scope reserved conflicting : RefError

pub record RefRegistry : Type 0 where
  pub outbound : List (Text × Refs)
  pub inbound : List (Text × List InboundRef)

-- `target.includes('/')`
unfoldable pub has_slash : Text → Bool
has_slash [] = false
has_slash (c ∷ s) = let rest = has_slash s in if starts_with (codes "/") (c ∷ s) then true else rest

-- `!target || target.startsWith('_')`
unfoldable pub is_reserved : Text → Bool
unfolding starts_with
is_reserved [] = true
is_reserved (c ∷ s) = starts_with (codes "_") (c ∷ s)

unfoldable pub ref : Text → RefMode → Outcome RefError RefDescriptor
unfolding has_slash is_reserved
ref target mode =
    if has_slash target
    then thrown scope
    else (if is_reserved target
        then thrown reserved
        else ok (record { target = target; mode = mode }))

abbrev pub same_mode : RefMode → RefMode → Bool
same_mode strict strict = true
same_mode warn warn = true
same_mode cascade cascade = true
same_mode _ _ = false

abbrev pub same_names : List Text → List Text → Bool
same_names [] [] = true
same_names (x ∷ l) (y ∷ m) = ite (dec_text x y) (same_names l m) false
same_names _ _ = false

abbrev pub same_descriptor : Option RefDescriptor → Option RefDescriptor → Bool
same_descriptor (some a) (some b) = ite (dec_text a.target b.target) (same_mode a.mode b.mode) false
same_descriptor _ _ = false

-- The loop that compares the declarations field by field.
unfoldable pub agree_on : Refs → Refs → List Text → Bool
agree_on existing refs [] = true
agree_on existing refs (k ∷ l) =
    let rest = agree_on existing refs l in
    if same_descriptor (lookup dec_text k existing) (lookup dec_text k refs) then rest else false

unfoldable pub is_same : Refs → Refs → Bool
unfolding agree_on sort
is_same existing refs =
    let names = sort (keys existing) in
    if same_names names (sort (keys refs)) then agree_on existing refs names else false

abbrev pub list_of : Option (List InboundRef) → List InboundRef
list_of none = []
list_of (some l) = l

-- The loop of `register` over the new references.
unfoldable pub add_inbound :
    Text → Refs → List (Text × List InboundRef) → List (Text × List InboundRef)
add_inbound collection [] inbound = inbound
add_inbound collection ((field, desc) ∷ l) inbound =
    let entry : InboundRef = record { collection = collection; field = field; mode = desc.mode } in
    add_inbound collection l (
      insert dec_text desc.target (list_of (lookup dec_text desc.target inbound) ++ entry ∷ [])
        inbound)

-- `register`, with what the collection has declared.
unfoldable pub register_over :
    Option Refs → Text → Refs → RefRegistry → RefRegistry × Outcome RefError Unit
unfolding is_same add_inbound
register_over (some existing) collection refs r =
    if is_same existing refs then (r, ok tt) else (r, thrown conflicting)
register_over none collection refs r = (
  record {
    outbound = insert dec_text collection refs r.outbound;
    inbound = add_inbound collection refs r.inbound;
  },
  ok tt,
)

unfoldable pub register : Text → Refs → RefRegistry → RefRegistry × Outcome RefError Unit
unfolding register_over
register collection refs r = register_over (lookup dec_text collection r.outbound) collection refs r

unfoldable pub get_outbound : Text → RefRegistry → Refs
get_outbound collection r = elim (lookup dec_text collection r.outbound) [
  | none ↦ []
  | some refs ↦ refs
]

unfoldable pub get_inbound : Text → RefRegistry → List InboundRef
get_inbound target r = list_of (lookup dec_text target r.inbound)

unfoldable pub clear : RefRegistry → RefRegistry
clear r = record { outbound = []; inbound = [] }

abbrev pub entries : RefRegistry → List (Text × Refs)
entries r = r.outbound
