-- ===== src/Collection/Tests.antt =====
-- A collection of notes over the memory store, and the theorems of collections there.
use mathlib.Core.Path.{subst}
use noydb.Collection.{ensure_hydrated, encrypt_record, decrypt_record}
use noydb.Collection.Hydrate.{ensure_hydrated_lem}
use noydb.Collection.Filling.{ListsAll}
use noydb.Collection.Held.{stored}
use noydb.Dict.{keys}
use noydb.Indexes.{member}
use noydb.Store.{Envelope}
use noydb.Base.{
  List, ite, ◌⊎◌, inl, inr, ◌∙◌, sym, ◌≡◌, refl, true, false, Option, none, some, [], ◌∷◌, length,
  lookup, Text, codes, dec_text, ℕ_discrete, sort, sort_into, text_le, starts_with, arith,
}
use noydb.Dict.{insert, remove}
use noydb.Store.{Outcome, ok, IsLawful}
use noydb.Memory
use noydb.Memory.{Memory}
use noydb.Memory.Lawful.{memory, memory-IsLawful}
use noydb.Json.{Json, string, object, end, field, find, decimal}
use noydb.Predicate.{read_path}
use noydb.Patch.{compute_patch}
use noydb.Entry
use noydb.Ledger
use noydb.Ledger.{LedgerOptions, LedgerState, Draw}
use noydb.History.{save_history, prune_history}
use noydb.Indexes
use noydb.Keyring
use noydb.Collection.{Platform, CollectionError, Config, Collection, Draws, validated, schema_input}
use noydb.Collection.Writes
use noydb.Collection.Sound.{IsSound}
use noydb.Store.Answers.{IsOk, Answers}
use noydb.Ledger.Opening.{Opens}
use noydb.Entry.{LedgerEntry}
use noydb.Collection.Settled.{IsWilling, IsReady}
use noydb.Collection.Willing.{writes_settle}
use noydb.Collection.RoundTrip.{Shows, get-put}
use noydb.Keyring.{has_write_permission}
use noydb.Collection.Mirror.{IsMirror, MirrorAt}
use noydb.Collection.Put.{PutDone}
use noydb.Collection.Delete.{DeleteDone}

program : Unit {0}
unfolding Memory.put Memory.get Memory.delete Memory.set_in Memory.list insert remove lookup find
    dec_text ℕ_discrete sort sort_into text_le save_history prune_history compute_patch read_path
    Writes.put Writes.delete Ledger.append Indexes.upsert Indexes.remove decimal starts_with
program = tt

abbrev note : Text → Json
note t = object (field (codes "kind") (string t) end)

-- The text of a record with one field; such a record is taken as a note.
abbrev kind_of : Json → Option Text
kind_of (object (field k (string t) end)) = some t
kind_of v = none

abbrev to_note : Option Text → Option Json
to_note none = none
to_note (some t) = some (note t)

abbrev or_nothing : Option Text → Text
or_nothing none = []
or_nothing (some t) = t

-- The cipher puts a mark in front.
abbrev unmark : Text → Option Text
unmark [] = none
unmark (c ∷ t) = some t

abbrev platform : Platform
platform = record {
  stringify = λ v. or_nothing (kind_of v);
  parse = λ t. some (note t);
  encrypt = λ vector t. (vector, b'#' ∷ t);
  decrypt = λ iv t. unmark t;
  padded = decimal;
}

-- Every text is read as this entry.
abbrev some_entry : LedgerEntry
some_entry = record {
  index = 0;
  prev_hash = [];
  op = Entry.put;
  collection = codes "notes";
  id = codes "a";
  version = 1;
  ts = [];
  actor = codes "ann";
  payload_hash = [];
  delta_hash = none;
}

abbrev ledger_options : LedgerOptions
ledger_options = record { vault = codes "acme"; encrypted = false; actor = codes "ann" }

abbrev ledger_platform : Entry.Platform
ledger_platform = record {
  quote = λ t. t;
  render_patch = λ l. codes "[]";
  sha256_hex = λ t. b'x' ∷ t;
  encrypt = λ vector t. (vector, t);
  decrypt = λ vector t. some t;
  parse_entry = λ t. some some_entry;
  parse_patch = λ t. none;
}

abbrev configured : Option (Entry.Platform × LedgerOptions) → Config Memory
configured o = record {
  adapter = memory;
  vault = codes "acme";
  name = codes "notes";
  keyring = record { role = Keyring.owner; permissions = [] };
  user_id = codes "ann";
  encrypted = true;
  history_config = record { enabled = true; max_versions = some 2 };
  schema = some (λ v. to_note (kind_of v));
  i18n_put_validator = none;
  ref_enforcer = none;
  on_dirty = λ id action n. ok tt;
  ledger_config = o;
  platform = platform;
}

abbrev config : Config Memory
config = configured (some (ledger_platform, ledger_options))

abbrev draws : Draws
draws =
    let d : Draw = record { now = codes "T"; vector = codes "V" } in
    record { for_history = d; for_record = d; for_delta = d; for_entry = d }

abbrev fresh : Collection Memory
fresh = record {
  ledger_state = record { store = []; head_cache = none };
  cache = [];
  hydrated = true;
  lru = none;
  indexes = (codes "kind", []) ∷ [];
  events = [];
}

-- What the schema makes is a note, and it is read back and taken again.
abbrev IsNote : Json → Type 0
IsNote w = (to_note (kind_of w) ≡ some w) × (some (note (or_nothing (kind_of w))) ≡ some w)

takes_notes : (w : Json) (o : Option Text) → to_note o ≡ some w → IsNote w
takes_notes w none e = absurd (ground (arith, e))
takes_notes w (some t) e =
    let same : note t ≡ w = ground (arith, e) in subst IsNote same (refl, refl)

made : (v w : Json) → validated schema_input config.schema w ≡ ok v → to_note (kind_of w) ≡ some v
made v w e = ground (arith, e)

chosen : (f : Json → Option Json) → config.schema ≡ some f → (λ v. to_note (kind_of v)) ≡ f
chosen f e = ground (arith, e)

configured-IsSound :
    (o : Option (Entry.Platform × LedgerOptions)) → IsSound (configured o) memory-IsLawful
configured-IsSound o = record {
  reads_back = λ v w e. (takes_notes v (kind_of w) (made v w e)).1;
  decrypts = λ vector json. refl;
  accepts = λ f v w e h.
      subst (λ g. g w ≡ some w) (chosen f e)
        (takes_notes w (kind_of v) (subst (λ g. g v ≡ some w) (sym (chosen f e)) h)).0;
  lists = λ v c w d j s. refl;
  no_history = λ e. ground (arith, e);
  no_ledger = λ e. ground (arith, e);
  no_deltas = λ e. ground (arith, e);
  puts_elsewhere = λ r v c x f e. absurd (ground (arith, e));
  deletes_elsewhere = λ r id c x f e. absurd (ground (arith, e));
}

fresh-IsMirror :
    (o : Option (Entry.Platform × LedgerOptions)) → IsMirror (configured o) memory-IsLawful fresh
unfolding Memory.get lookup Indexes.member
fresh-IsMirror o = record {
  eager = refl;
  is_hydrated = refl;
  agrees = λ id.
      subst (MirrorAt (configured o) memory-IsLawful none)
        (IsLawful.get_ok memory-IsLawful (codes "acme") (codes "notes") id [] none refl) tt;
  indexed = (λ k id. refl, tt);
}

abbrev Ran : Type 0
Ran = Collection Memory × Outcome CollectionError Unit

-- A note is put, put again and deleted.
abbrev first : Ran
first = Writes.put config draws (codes "a") (note (codes "x")) fresh

first-ok : first.1 ≡ ok tt
unfolding program
first-ok = refl

abbrev second : Ran
second = Writes.put config draws (codes "a") (note (codes "y")) first.0

second-ok : second.1 ≡ ok tt
unfolding program
second-ok = refl

abbrev last : Ran
last = Writes.delete config draws (codes "a") second.0

last-ok : (last.1 ≡ ok tt) × (last.0.cache ≡ []) × (last.0.indexes ≡ (codes "kind", []) ∷ [])
unfolding program
last-ok = (refl, refl, refl)

second_events : length second.0.events ≡ 5
unfolding program
second_events = refl

abbrev plain : Config Memory
plain = configured none

memory-Answers : Answers memory
unfolding Memory.put Memory.version_conflict
memory-Answers = record {
  get_answers = λ v c id s. tt;
  put_answers = λ v c id e s. ground arith;
  delete_answers = λ v c id s. tt;
  list_answers = λ v c s. tt;
}

config-IsWilling : IsWilling config memory-IsLawful
unfolding has_write_permission
config-IsWilling = record {
  answers = memory-Answers;
  may_write = refl;
  translated = λ f v e. absurd (ground (arith, e));
  puts_refer = λ r v s e. absurd (ground (arith, e));
  deletes_refer = λ r id s e. absurd (ground (arith, e));
  marks = λ id a n. tt;
}

reads_entry : (e : Envelope) → Opens memory memory-IsLawful ledger_platform ledger_options e
unfolding Ledger.decrypt_entry
reads_entry e s = tt

-- The ledger of any collection can be read.
config-IsReady : (s : Collection Memory) → IsReady config memory-IsLawful s
config-IsReady s q o e key x h =
    let same : ◌≡◌ {A = Entry.Platform × LedgerOptions} (ledger_platform, ledger_options) (q, o) =
      ground (arith, e) in
    subst (λ z. Opens memory memory-IsLawful z.0 z.1 x) same (reads_entry x)

first-IsMirror : IsMirror config memory-IsLawful first.0
first-IsMirror =
    ((writes_settle config memory-IsLawful config-IsWilling
        (configured-IsSound config.ledger_config) draws (codes "a") fresh
        (fresh-IsMirror config.ledger_config) (config-IsReady fresh)).0
      (note (codes "x")) (note (codes "x")) refl).1

writes_settle_example :
    ((value v : Json)
      → validated schema_input config.schema value ≡ ok v
      → ((Writes.put config draws (codes "a") value first.0).1 ≡ ok tt)
        × IsMirror config memory-IsLawful (Writes.put config draws (codes "a") value first.0).0
        × PutDone config memory-IsLawful
            (codes "a")
            value
            first.0
            (Writes.put config draws (codes "a") value first.0).0)
    × ((Writes.delete config draws (codes "a") first.0).1 ≡ ok tt)
    × IsMirror config memory-IsLawful (Writes.delete config draws (codes "a") first.0).0
    × DeleteDone config memory-IsLawful
        (codes "a")
        first.0
        (Writes.delete config draws (codes "a") first.0).0
writes_settle_example =
    writes_settle config memory-IsLawful config-IsWilling (configured-IsSound config.ledger_config)
      draws (codes "a") first.0 first-IsMirror (config-IsReady first.0)

get-put_example :
    ((value v : Json)
      → validated schema_input config.schema value ≡ ok v
      → Shows config memory-IsLawful
          (codes "a")
          (some v)
          first.0
          (Writes.put config draws (codes "a") value first.0).0)
    × Shows config memory-IsLawful
        (codes "a")
        none
        first.0
        (Writes.delete config draws (codes "a") first.0).0
get-put_example =
    get-put config memory-IsLawful (configured-IsSound config.ledger_config) config-IsWilling draws
      (codes "a") first.0 first-IsMirror (config-IsReady first.0)

lookup-keys :
    (j : Text) (m : List (Text × Envelope))
    → (lookup dec_text j m ≡ none) ⊎ (member j (keys m) ≡ true)
unfolding lookup member
lookup-keys j [] = inl refl
lookup-keys j (e ∷ m) =
    elim (dec_text j e.0)
      as (λ q.
        (ite q (some e.1) (lookup dec_text j m) ≡ none) ⊎ (ite q true (member j (keys m)) ≡ true)) [
          | yes p ↦ inr refl
          | no p ↦ lookup-keys j m
        ]

found-keys :
    (j : Text) (o : Option (List (Text × Envelope))) (ids : List Text)
    → (elim o as (λ q. List Text) [ none ↦ [] | some coll ↦ keys coll ]) ≡ ids
    → (Memory.find_in j o ≡ none) ⊎ (member j ids ≡ true)
found-keys j none ids e = inl refl
found-keys j (some m) ids e =
    subst (λ z. (lookup dec_text j m ≡ none) ⊎ (member j z ≡ true)) e (lookup-keys j m)

memory-ListsAll : ListsAll memory memory-IsLawful
unfolding Memory.get Memory.list
memory-ListsAll v c j s ids e =
    subst (λ z. (z ≡ none) ⊎ (member j ids ≡ true))
      (IsLawful.get_ok memory-IsLawful v c j s (Memory.get v c j s) refl)
      (found-keys j (Memory.find_in c (Memory.find_in v (some s))) ids (ground (arith, e)))

-- A store with one note.
abbrev sealed : Envelope
sealed = encrypt_record plain draws.for_record (note (codes "x")) 1

abbrev cold : Collection Memory
cold = record fresh {
  ledger_state = record {
    store = (codes "acme", (codes "notes", (codes "a", sealed) ∷ []) ∷ []) ∷ [];
    head_cache = none;
  };
  hydrated = false;
}

sealed-IsOk : IsOk (decrypt_record plain false sealed)
unfolding encrypt_record decrypt_record
sealed-IsOk = tt

cold_readable :
    (id : Text) (e : Envelope)
    → stored plain memory-IsLawful id cold.ledger_state.store ≡ some e
    → IsOk (decrypt_record plain false e)
unfolding Memory.get lookup dec_text
cold_readable id e h =
    let k : lookup dec_text id ((codes "a", sealed) ∷ []) ≡ some e =
      IsLawful.get_ok memory-IsLawful (codes "acme") (codes "notes") id cold.ledger_state.store _
        refl
      ∙ h in
    only (dec_text id (codes "a")) k
  where
    only :
        (q : Dec (id ≡ codes "a"))
        → ite q (some sealed) none ≡ some e
        → IsOk (decrypt_record plain false e)
    only (yes p) k =
        let same : sealed ≡ e = ground (arith, k) in
        subst (λ z. IsOk (decrypt_record plain false z)) same sealed-IsOk
    only (no p) k = absurd (ground (arith, k))

ensure_hydrated_lem_example :
    ((ensure_hydrated plain cold).1 ≡ ok tt)
    × IsMirror plain memory-IsLawful (ensure_hydrated plain cold).0
    × ((id : Text)
        → stored plain memory-IsLawful id (ensure_hydrated plain cold).0.ledger_state.store
          ≡ stored plain memory-IsLawful id cold.ledger_state.store)
ensure_hydrated_lem_example =
    ensure_hydrated_lem plain memory-IsLawful memory-Answers (λ v c w d j s. refl) memory-ListsAll
      cold cold_readable refl refl refl
