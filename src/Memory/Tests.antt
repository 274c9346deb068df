-- ===== src/Memory/Tests.antt =====
-- Runs of the memory store, and its theorems at concrete maps.
use noydb.Base.{
  ℕ, ◌≡◌, ◌≢◌, refl, none, some, [], ◌∷◌, lookup, Text, codes, dec_text, ℕ_discrete, sort,
  sort_into, text_le, All, arith, starts_with,
}
use noydb.Dict.{insert, remove, keys}
use noydb.Store.{Envelope, thrown, conflict, VaultSnapshot}
use noydb.Memory.{Memory, put, get, delete, list, list_page, load_all, save_all, internal_only}
use noydb.Memory.Writes.{PutResult, put_lem}
use noydb.Memory.Snapshot.{IsSnapshot, collections, load_all-save_all}
use noydb.Memory.Pages.{all_pages, all_pages_lem}

abbrev envelope : ℕ → Envelope
envelope n = record { noydb = 1; v = n; ts = []; iv = []; data_text = []; by = none }

abbrev acme : Text
acme = codes "acme"

abbrev notes : Text
notes = codes "notes"

abbrev two : Memory
two =
    (
      acme,
      (notes, (codes "b", envelope 2) ∷ (codes "a", envelope 1) ∷ [])
          ∷ (codes "_sync", (codes "meta", envelope 1) ∷ [])
          ∷ [],
    )
    ∷ []

program : Unit {0}
unfolding put get delete list list_page load_all save_all all_pages insert remove lookup dec_text
    ℕ_discrete sort sort_into text_le starts_with
program = tt

put_conflict : (put acme notes (codes "b") (envelope 9) (some 1) two).1 ≡ thrown (conflict 2)
unfolding program
put_conflict = refl

put_expected :
    get acme notes (codes "b") (put acme notes (codes "b") (envelope 3) (some 2) two).0
    ≡ some (envelope 3)
unfolding program
put_expected = refl

load_hides_internal : keys (load_all acme two) ≡ notes ∷ []
unfolding program
load_hides_internal = refl

pages_sorted : keys (all_pages 3 acme notes none 1 two) ≡ codes "a" ∷ codes "b" ∷ []
unfolding program
pages_sorted = refl

put_lem_example :
    PutResult acme notes
      (codes "b")
      (envelope 9)
      (some 1)
      two
      (put acme notes (codes "b") (envelope 9) (some 1) two).0
      (put acme notes (codes "b") (envelope 9) (some 1) two).1
put_lem_example = put_lem acme notes (codes "b") (envelope 9) (some 1) two

abbrev backup : VaultSnapshot
backup = (codes "tasks", (codes "t", envelope 4) ∷ []) ∷ (notes, (codes "c", envelope 5) ∷ []) ∷ []

backup-IsSnapshot : IsSnapshot backup
unfolding program
backup-IsSnapshot = record {
  distinct = (refl, (refl, tt));
  user = (refl, (refl, tt));
  records = ((refl, tt), ((refl, tt), tt));
}

load_all-save_all_example :
    (load_all acme (save_all acme backup two) ≡ backup)
    × (internal_only (collections acme (save_all acme backup two))
        ≡ internal_only (collections acme two))
    × ((w : Text) → w ≢ acme → lookup dec_text w (save_all acme backup two) ≡ lookup dec_text w two)
load_all-save_all_example = load_all-save_all acme backup two backup-IsSnapshot

all_pages_lem_example :
    (keys (all_pages 3 acme notes none 1 two) ≡ sort (list acme notes two))
    × All (λ e. get acme notes e.0 two ≡ some e.1) (all_pages 3 acme notes none 1 two)
unfolding program
all_pages_lem_example = all_pages_lem acme notes 1 two 3 (omega arith) (omega arith)
