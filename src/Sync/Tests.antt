-- ===== src/Sync/Tests.antt =====
-- Runs of the sync engine between two memory stores, and its theorems there.
use noydb.Base.{
  ℕ, ◌≡◌, refl, if◌then◌else◌, true, none, some, List, [], ◌∷◌, lookup, Text, codes, dec_text,
  ℕ_discrete, sort, sort_into, text_le, starts_with,
}
use noydb.Dict.{insert, remove}
use noydb.Store.{Envelope}
use noydb.Memory
use noydb.Memory.{Memory}
use noydb.Memory.Lawful.{memory, memory-IsLawful}
use noydb.Sync.{
  Action, DirtyEntry, ConflictStrategy, version, remote_wins, PullOptions, Engine, Config, is_entry,
  is_dirty, drop_dirty, record_change, legacy_resolve, included,
}
use noydb.Sync.Meta.{ensure_loaded, persist_meta, meta_envelope, track_change}
use noydb.Sync.Push
use noydb.Sync.Push.Loop.{UniqueDirty, Loops, push_entries_lem}
use noydb.Sync.Push.Log.{Progress, push_filtered_lem}
use noydb.Sync.Pull
use noydb.Sync.Pull.Newest.{Pulls, pull_record_lem}
use noydb.Sync.Track.{find_dirty, record_change_lem}

abbrev acme : Text
acme = codes "acme"

abbrev notes : Text
notes = codes "notes"

abbrev envelope : ℕ → Envelope
envelope n = record { noydb = 1; v = n; ts = codes "T"; iv = []; data_text = []; by = none }

abbrev change : Text → Action → ℕ → DirtyEntry
change id action n = record {
  vault = acme;
  collection = notes;
  id = id;
  action = action;
  version = n;
  timestamp = [];
}

abbrev log : List DirtyEntry
log =
    change (codes "a") Action.put 2
    ∷ change (codes "b") Action.put 2
    ∷ change (codes "c") Action.delete 1
    ∷ []

abbrev config : ConflictStrategy → Config Memory Memory
config strategy = record {
  local_store = memory;
  remote_store = memory;
  strategy = strategy;
  vault = acme;
  write_meta = λ m. codes "{}";
  read_meta = λ t. record { last_push = none; last_pull = none; dirty = [] };
}

abbrev stored : List (Text × Envelope) → Memory
stored l = (acme, (notes, l) ∷ []) ∷ []

abbrev engine : Engine Memory Memory
engine = record {
  local = stored ((codes "a", envelope 2) ∷ (codes "b", envelope 2) ∷ []);
  remote =
      stored ((codes "b", envelope 5) ∷ (codes "c", envelope 1) ∷ (codes "d", envelope 1) ∷ []);
  dirty = log;
  last_push = none;
  last_pull = none;
  loaded = true;
  is_online = true;
  resolvers = [];
  events = [];
}

program : Unit {0}
unfolding Memory.put Memory.get Memory.set_in Memory.delete Memory.load_all insert remove lookup
    dec_text ℕ_discrete sort sort_into text_le starts_with is_dirty drop_dirty record_change
    legacy_resolve included ensure_loaded persist_meta meta_envelope track_change Push.push
    Pull.pull Pull.sync find_dirty
program = tt

-- The entry in conflict takes the remote side; the two others are sent.
abbrev pushed : Engine Memory Memory
pushed = (Push.push (config version) none (codes "now") engine).0

push_log : pushed.dirty ≡ []
unfolding program
push_log = refl

push_a : Memory.get acme notes (codes "a") pushed.remote ≡ some (envelope 2)
unfolding program
push_a = refl

push_b : Memory.get acme notes (codes "b") pushed.local ≡ some (envelope 5)
unfolding program
push_b = refl

push_c : Memory.get acme notes (codes "c") pushed.remote ≡ none
unfolding program
push_c = refl

pull_all : PullOptions
pull_all = record { collections = none; modified_since = none }

log-UniqueDirty : UniqueDirty log
unfolding program
log-UniqueDirty = (refl, (refl, (refl, tt)))

push_filtered_lem_example :
    Progress
      (config version)
      memory-IsLawful
      memory-IsLawful
      log
      (Push.push_filtered (config version) (λ e. true) (codes "now") engine).0
unfolding program
push_filtered_lem_example =
    push_filtered_lem (config version) memory-IsLawful memory-IsLawful (λ e. true) (codes "now")
      engine refl log-UniqueDirty (refl, (refl, (refl, tt)))

push_entries_lem_example :
    Loops
      (config remote_wins)
      memory-IsLawful
      memory-IsLawful
      log
      (Push.start_push (config version) engine)
      (Push.push_entries
        (config remote_wins)
        (λ e. true)
        []
        log
        (Push.start_push (config version) engine))
push_entries_lem_example =
    push_entries_lem (config remote_wins) memory-IsLawful memory-IsLawful (λ e. true) [] log
      (Push.start_push (config version) engine) log-UniqueDirty

abbrev pulling : Pull.PullState Memory
pulling = record {
  local = engine.local;
  dirty = log;
  pulled = 0;
  conflicts = [];
  errors = [];
  events = [];
}

pull_record_lem_example :
    Pulls (config version) memory-IsLawful [] notes (codes "d") (envelope 1) pulling (
      Pull.pull_record
        (config version)
        []
        notes
        (codes "d")
        (some (codes "S"))
        (envelope 1)
        pulling)
unfolding program Pull.is_skipped
pull_record_lem_example =
    pull_record_lem (config version) memory-IsLawful [] notes (codes "d") (some (codes "S"))
      (envelope 1) pulling refl refl

record_change_lem_example :
    UniqueDirty (record_change (change (codes "b") Action.delete 3) log)
    × ((c i : Text)
        → find_dirty c i (record_change (change (codes "b") Action.delete 3) log) ≡ (
            if is_entry c i (change (codes "b") Action.delete 3)
            then some (change (codes "b") Action.delete 3)
            else find_dirty c i log))
record_change_lem_example =
    record_change_lem (change (codes "b") Action.delete 3) log log-UniqueDirty
