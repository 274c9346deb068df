-- ===== src/History/Tests.antt =====
-- Runs of the history over the memory store, and its theorem there.
use noydb.Base.{
  ℕ, ◌≡◌, refl, none, some, [], ◌∷◌, lookup, Text, codes, dec_text, ℕ_discrete, starts_with, sort,
  sort_into, text_le,
}
use noydb.Dict.{insert, remove}
use noydb.Store.{Envelope, ok}
use noydb.Memory
use noydb.Memory.{Memory}
use noydb.Memory.Lawful.{memory}
use noydb.Sync.{included}
use noydb.History

program : Unit {0}
unfolding Memory.put Memory.get Memory.set_in Memory.delete Memory.list insert remove lookup
    dec_text ℕ_discrete starts_with sort sort_into text_le included History.save_history
    History.get_history History.clear_history History.prune_history
program = tt

abbrev acme : Text
acme = codes "acme"

abbrev envelope : ℕ → Envelope
envelope n = record { noydb = 1; v = n; ts = []; iv = []; data_text = []; by = none }

abbrev padded : ℕ → Text
padded n = n ∷ []

abbrev saved : ℕ → Memory → Memory
saved n s = (History.save_history memory acme padded (codes "notes") (codes "a") (envelope n) s).0

abbrev three : Memory
three = saved 3 (saved 1 (saved 2 []))

newest_first :
    (History.get_history memory acme
      (codes "notes")
      (codes "a")
      (record { from = none; to = none; limit = some 2 })
      three).1
    ≡ ok (envelope 3 ∷ envelope 2 ∷ [])
unfolding program
newest_first = refl

pruned :
    (History.prune_history memory acme
      (codes "notes")
      none
      (record { keep_versions = some 1; before_date = none })
      three).1
    ≡ ok 2
unfolding program
pruned = refl

abbrev old_id : Text
old_id = History.history_id padded (codes "notes") (codes "a") 1
