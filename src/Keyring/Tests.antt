-- ===== src/Keyring/Tests.antt =====
-- The admins below a user, with a cycle of grants.
use noydb.Base.{◌≡◌, ◌↔◌, refl, true, [], ◌∷◌, List, lookup, Text, codes, dec_text, ℕ_discrete}
use noydb.Dict.{insert}
use noydb.Indexes.{member}
use noydb.Keyring.{Role, admin, viewer, KeyringFile, admin_descendants}
use noydb.Keyring.Pending.{IsBelow}
use noydb.Keyring.Descendants.{admin_descendants_iff}

program : Unit {0}
unfolding member insert lookup dec_text ℕ_discrete admin_descendants
program = tt

abbrev file : Text → Role → Text → KeyringFile
file id role by = record { user_id = id; role = role; granted_by = by }

-- ann granted bob and vic, bob granted cy and ann, cy granted bob again.
abbrev files : List KeyringFile
files =
    file (codes "ann") admin (codes "bob")
    ∷ file (codes "bob") admin (codes "ann")
    ∷ file (codes "cy") admin (codes "bob")
    ∷ file (codes "dee") admin (codes "own")
    ∷ file (codes "vic") viewer (codes "ann")
    ∷ []

below_ann : admin_descendants (codes "ann") files ≡ codes "bob" ∷ codes "cy" ∷ []
unfolding program
below_ann = refl

admin_descendants_iff_example :
    (member (codes "cy") (admin_descendants (codes "ann") files) ≡ true)
    ↔ IsBelow files (codes "ann") (codes "cy")
admin_descendants_iff_example = admin_descendants_iff (codes "ann") files (codes "cy")
