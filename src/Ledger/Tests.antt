-- ===== src/Ledger/Tests.antt =====
-- Runs of the ledger over the memory store, and its theorems there.
use noydb.Base.{
  ℕ, suc, ◌==◌, ◌≡◌, ◌↔◌, refl, if◌then◌else◌, true, leb, none, some, List, get_elem?, [], ◌∷◌,
  length, lookup, Text, codes, dec_text, ℕ_discrete, sort, sort_into, text_le, arith,
}
use noydb.Dict.{insert, remove}
use noydb.Store.{Envelope, ok}
use noydb.Memory
use noydb.Memory.{Memory}
use noydb.Memory.Lawful.{memory, memory-IsLawful}
use noydb.Json.{Json, number, object, end, field, find, canonical_json}
use noydb.Patch.{compute_patch}
use noydb.Patch
use noydb.Patch.Same.{Same}
use noydb.Entry
use noydb.Entry.{
  LedgerEntry, Platform, VerifyResult, verified, diverged, hash_entry, verify_entries, padded_index,
}
use noydb.Ledger.{
  LedgerState, LedgerOptions, AppendInput, Draw, load_all_entries, append, head_of, reconstruct,
  matching_back, load_delta,
}
use noydb.Ledger.Chain.{back, Chain, verify_entries_iff}
use noydb.Ledger.Tamper.{IsBroken, verify-NoCollision, verify-diverged}
use noydb.Ledger.Append.{IsCoherent, Writes, Stored, append-verify}
use noydb.Ledger.Padding.{padded_index-text_le}
use noydb.Ledger.Past.{Past, reconstruct-Past}

program : Unit {0}
unfolding Memory.put Memory.get Memory.set_in Memory.list insert remove lookup find dec_text
    ℕ_discrete sort sort_into text_le verify_entries load_all_entries append padded_index
    reconstruct Patch.compute_patch Patch.apply_patch Patch.Same.observe
program = tt

abbrev entry : ℕ → Text → LedgerEntry
entry n prev = record {
  index = n;
  prev_hash = prev;
  op = Entry.put;
  collection = codes "notes";
  id = codes "a";
  version = suc n;
  ts = [];
  actor = codes "ann";
  payload_hash = [];
  delta_hash = some [];
}

abbrev first : LedgerEntry
first = entry 0 []

abbrev digest : Text → Text
digest t = b'x' ∷ t

abbrev quote : Text → Text
quote s = s

abbrev first_hash : Text
first_hash = digest (canonical_json quote (Entry.entry_json first))

abbrev second : LedgerEntry
second = entry 1 first_hash

abbrev count_of : ℕ → Json
count_of n = object (field (codes "n") (number (n ∷ [])) end)

abbrev platform : Platform
platform = record {
  quote = quote;
  render_patch = λ ops. [];
  sha256_hex = digest;
  encrypt = λ vector t. (vector, t);
  decrypt = λ vector t. some t;
  parse_entry = λ t. some (if length t == 1 then first else second);
  parse_patch = λ t. some (compute_patch (count_of 2) (count_of 1));
}

abbrev options : LedgerOptions
options = record { vault = codes "acme"; encrypted = true; actor = codes "ann" }

abbrev envelope : Envelope
envelope = record { noydb = 1; v = 1; ts = []; iv = []; data_text = b'1' ∷ []; by = none }

abbrev later : Envelope
later = record { noydb = 1; v = 2; ts = []; iv = []; data_text = []; by = none }

-- The ledger with one entry.
abbrev one : LedgerState Memory
one = record {
  store = (codes "acme", (codes "_ledger", (padded_index 0, envelope) ∷ []) ∷ []) ∷ [];
  head_cache = none;
}

abbrev both : List LedgerEntry
both = first ∷ second ∷ []

verify_both : verify_entries platform both ≡ verified (hash_entry platform second) 2
unfolding program
verify_both = refl

verify_entries_iff_example :
    (verify_entries platform both ≡ verified (hash_entry platform second) 2)
    ↔ (Chain platform (back both []) (hash_entry platform second) × (◌≡◌ {A = ℕ} 2 2))
verify_entries_iff_example = verify_entries_iff platform both (hash_entry platform second) 2

verify_one : verify_entries platform (first ∷ []) ≡ verified (hash_entry platform first) 1
unfolding program
verify_one = refl

verify-NoCollision_example : first ∷ [] ≡ first ∷ []
verify-NoCollision_example =
    verify-NoCollision platform (first ∷ []) (first ∷ []) (hash_entry platform first) 1 1
      (λ t e. cc) ((λ e. refl, tt), tt) verify_one verify_one

abbrev broken : List LedgerEntry
broken = first ∷ entry 1 [] ∷ []

verify_broken : verify_entries platform broken ≡ diverged 1 (hash_entry platform first) []
unfolding program
verify_broken = refl

verify-diverged_example :
    (h : Text) × (verify_entries platform (first ∷ []) ≡ verified h 1)
    × (e : LedgerEntry) × (get_elem? broken 1 ≡ some e)
    × IsBroken platform e h 1 (hash_entry platform first) []
verify-diverged_example =
    verify-diverged platform broken 1 (hash_entry platform first) [] verify_broken

abbrev input : AppendInput
input = record {
  op = Entry.put;
  collection = codes "notes";
  id = codes "a";
  version = 2;
  actor = [];
  payload_hash = [];
  delta = some [];
}

abbrev draw : Draw
draw = record { now = codes "t"; vector = [] }

memory-Writes : Writes platform options memory
unfolding program
memory-Writes c k e t = refl

loaded : (load_all_entries platform options memory one).1 ≡ ok (first ∷ [])
unfolding program
loaded = refl

append-verify_example :
    (e : LedgerEntry) × (t : LedgerState Memory) × (append platform options memory input draw draw
        one
      ≡ (t, ok e))
    × Stored platform options memory memory-IsLawful 1 input draw draw e one.store t.store
    × (e.index ≡ 1)
    × (verify_entries platform (first ∷ e ∷ []) ≡ verified (hash_entry platform e) 2)
    × (t.head_cache ≡ some (some (head_of platform e)))
    × IsCoherent platform (first ∷ e ∷ []) t.head_cache
append-verify_example =
    append-verify platform options memory memory-IsLawful (first ∷ []) (hash_entry platform first) 1
      input draw draw one (λ v c w d j s. refl) memory-Writes tt loaded verify_one

padded_index-text_le_example : text_le (padded_index 9) (padded_index 10) ≡ leb 9 10
padded_index-text_le_example = padded_index-text_le 9 10 (omega arith) (omega arith)

-- The ledger with two, and the patch back.
abbrev two : LedgerState Memory
two = record {
  store =
      (
        codes "acme",
        (codes "_ledger", (padded_index 1, later) ∷ (padded_index 0, envelope) ∷ [])
            ∷ (codes "_ledger_deltas", (padded_index 1, envelope) ∷ [])
            ∷ [],
      )
      ∷ [];
  head_cache = none;
}

loaded_two : load_all_entries platform options memory two ≡ (two, ok both)
unfolding program
loaded_two = refl

two-Past :
    Past platform options memory two
      (matching_back (codes "notes") (codes "a") [] both)
      (count_of 2)
      1
      (count_of 1)
unfolding program matching_back load_delta
two-Past =
    Past.earlier second (first ∷ []) (count_of 2) (count_of 1) (count_of 1) 1 [] refl
      (λ e. ground (arith, e)) refl refl (refl, tt, tt) (refl, tt, tt) refl
      (Past.here first [] (count_of 1) refl)

reconstruct-Past_example :
    (r : Json) × (reconstruct platform options memory (codes "notes") (codes "a") (count_of 2) 1 two
      ≡ (two, ok (some r)))
    × Same r (count_of 1)
reconstruct-Past_example =
    reconstruct-Past platform options memory two both (codes "notes") (codes "a") (count_of 2)
      (count_of 1) 1 loaded_two two-Past
