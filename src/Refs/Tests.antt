-- ===== src/Refs/Tests.antt =====
-- Runs of the registry of references, and its theorem at a concrete one.
use noydb.Base.{
  ◌≡◌, refl, [], ◌∷◌, lookup, codes, dec_text, ℕ_discrete, starts_with, sort, sort_into, text_le,
}
use noydb.Dict.{insert}
use noydb.Store.{ok, thrown}
use noydb.Refs
use noydb.Refs.{
  RefRegistry, strict, cascade, ref, register, get_inbound, scope, reserved, conflicting,
}
use noydb.Refs.Inbound.{IsMirrored, register-IsMirrored, pointing_all}

program : Unit {0}
unfolding ref register get_inbound insert lookup dec_text ℕ_discrete starts_with sort sort_into
    text_le
program = tt

ref_scope : ref (codes "a/b") strict ≡ thrown scope
unfolding program
ref_scope = refl

ref_reserved : ref (codes "_keyring") strict ≡ thrown reserved
unfolding program
ref_reserved = refl

abbrev to_client : Refs.Refs
to_client = (codes "client", record { target = codes "clients"; mode = strict }) ∷ []

abbrev empty : RefRegistry
empty = record { outbound = []; inbound = [] }

abbrev registered : RefRegistry
registered = (register (codes "invoices") to_client empty).0

register_twice : (register (codes "invoices") to_client registered).1 ≡ ok tt
unfolding program
register_twice = refl

register_other :
    (register
      (codes "invoices")
      ((codes "client", record { target = codes "clients"; mode = cascade }) ∷ [])
      registered).1
    ≡ thrown conflicting
unfolding program
register_other = refl

empty-IsMirrored : IsMirrored empty
unfolding program pointing_all
empty-IsMirrored target = refl

register-IsMirrored_example : IsMirrored (register (codes "invoices") to_client empty).0
register-IsMirrored_example =
    register-IsMirrored (codes "invoices") to_client empty empty-IsMirrored
