-- ===== src/Ledger.antt =====
-- packages/hub/src/ledger/store.ts: the ledger of a vault, a chain of entries in which each holds
-- the hash of the one before, and the patches beside it, over a store of the contract.
pub mod Chain
pub mod Quiet
pub mod Opening
pub mod Tamper
pub mod Append
pub mod Padding
pub mod Past
mod Tests
use noydb.Base.{
  ℕ, zero, suc, ◌+◌, ◌-◌, ◌/◌, ◌%◌, ◌==◌, ltb, leb, if◌then◌else◌, ite, Bool, true, false, Option,
  none, some, List, [], ◌∷◌, ◌++◌, length, take, drop, Text, codes, dec_text, sort,
}
use Prim.Native.Nat.{min, max}
use noydb.Store.{Envelope, StoreError, Outcome, ok, thrown, Method, NoydbStore}
use noydb.Json.{decimal, Json, Fields, number, string, object, end, field, canonical_json}
use noydb.Entry.{
  padded_index, EntryOp, LedgerEntry, Platform, entry_json, hash_entry, VerifyResult,
  verify_entries,
}
use noydb.Entry
use noydb.Patch.{apply_patch}
use noydb.Patch

pub record AppendInput : Type 0 where
  pub op : EntryOp
  pub collection : Text
  pub id : Text
  pub version : ℕ
  pub actor : Text
  pub payload_hash : Text
  pub delta : Option (List Patch.Op)

pub data LedgerError : Type 0 where
  store : StoreError → LedgerError
  decryption : LedgerError
  syntax : LedgerError
  bad_patch : LedgerError

pub record LedgerOptions : Type 0 where
  pub vault : Text
  pub encrypted : Bool
  pub actor : Text

pub record Head : Type 0 where
  pub entry : LedgerEntry
  pub hash : Text

-- The cache is `none` before the first read, and `some none` when the ledger was found empty.
pub record LedgerState (S : Type 0) : Type 0 where
  pub store : S
  pub head_cache : Option (Option Head)

abbrev pub ledger_collection : Text
ledger_collection = codes "_ledger"

abbrev pub deltas_collection : Text
deltas_collection = codes "_ledger_deltas"

-- What a method of the ledger does: it changes the state, and settles.
abbrev pub Action : Type 0 → Type 0 → Type 0
Action S A = LedgerState S → LedgerState S × Outcome LedgerError A

module _ {S : Type 0} where
  abbrev pub after :
      {A B : Type 0}
      → (A → Action S B)
      → LedgerState S × Outcome LedgerError A
      → LedgerState S × Outcome LedgerError B
  after f (s, ok a) = f a s
  after f (s, thrown e) = (s, thrown e)

  infixl 5 ◌>>=◌ ◌>>◌
  abbrev pub ◌>>=◌ : {A B : Type 0} → Action S A → (A → Action S B) → Action S B
  (m >>= f) s = after f (m s)

  abbrev pub ◌>>◌ : {A B : Type 0} → Action S A → Action S B → Action S B
  (m >> n) s = after (λ a. n) (m s)

  abbrev pub return : {A : Type 0} → A → Action S A
  return a s = (s, ok a)

  abbrev pub throw : {A : Type 0} → LedgerError → Action S A
  throw e s = (s, thrown e)

  abbrev pub or_throw : {A : Type 0} → LedgerError → Option A → Action S A
  or_throw e none s = (s, thrown e)
  or_throw e (some a) s = (s, ok a)

  abbrev pub called :
      {A : Type 0}
      → Option (Option Head)
      → S × Outcome StoreError A
      → LedgerState S × Outcome LedgerError A
  called cache (t, ok a) = (record { store = t; head_cache = cache }, ok a)
  called cache (t, thrown e) = (record { store = t; head_cache = cache }, thrown (store e))

  abbrev pub set_head : Option Head → Action S Unit
  set_head h s = (record { store = s.store; head_cache = some h }, ok tt)

  abbrev pub applied : Patch.Result Json → Action S Json
  applied (Patch.ok doc) = return doc
  applied Patch.failed = throw bad_patch

  -- A call of the store.
  abbrev pub call : {A : Type 0} → Method S A → Action S A
  call m s = called s.head_cache (m s.store)

module _ (platform : Platform) where
  abbrev pub head_of : LedgerEntry → Head
  head_of e = record { entry = e; hash = hash_entry platform e }

abbrev pub last : List LedgerEntry → Option LedgerEntry
last [] = none
last (e ∷ []) = some e
last (e ∷ f ∷ l) = last (f ∷ l)

abbrev pub next_index : Option Head → ℕ
next_index none = 0
next_index (some h) = h.entry.index + 1

abbrev pub next_prev_hash : Option Head → Text
next_prev_hash none = []
next_prev_hash (some h) = h.hash

abbrev slice : ℕ → ℕ → List LedgerEntry → List LedgerEntry
slice first last l = take (last - first) (drop first l)

abbrev or_else : ℕ → Option ℕ → ℕ
or_else n none = n
or_else n (some m) = m

abbrev pub is_null : Json → Bool
is_null Json.null = true
is_null v = false

abbrev pub is_put : EntryOp → Bool
is_put EntryOp.put = true
is_put EntryOp.delete = false

-- The entries of one record, the latest first.
unfoldable pub matching_back : Text → Text → List LedgerEntry → List LedgerEntry → List LedgerEntry
matching_back collection id seen [] = seen
matching_back collection id seen (e ∷ l) =
    ite (dec_text e.collection collection)
      (ite (dec_text e.id id) (matching_back collection id (e ∷ seen) l)
        (matching_back collection id seen l))
      (matching_back collection id seen l)

-- The time and the random vector of one envelope.
pub record Draw : Type 0 where
  pub now : Text
  pub vector : Text

module _ {S : Type 0} (platform : Platform) (options : LedgerOptions) (adapter : NoydbStore S) where
  -- The text of an envelope: its vector and its data.
  abbrev pub seal : Text → Text → Text × Text
  seal vector json = if options.encrypted then platform.encrypt vector json else ([], json)

  abbrev pub unseal : Envelope → Option Text
  unseal e = if options.encrypted then platform.decrypt e.iv e.data_text else some e.data_text

  unfoldable pub encrypt_entry : Text → LedgerEntry → Envelope
  unfolding canonical_json entry_json
  encrypt_entry vector e =
      let (iv, data_text) = seal vector (canonical_json platform.quote (entry_json e)) in
      record {
        noydb = 1;
        v = e.index + 1;
        ts = e.ts;
        iv = iv;
        data_text = data_text;
        by = some e.actor;
      }

  unfoldable pub decrypt_entry : Envelope → Action S LedgerEntry
  decrypt_entry e = do
    json ← or_throw decryption (unseal e)
    or_throw syntax (platform.parse_entry json)

  unfoldable pub encrypt_delta : Draw → List Patch.Op → Envelope
  encrypt_delta draw ops =
      let (iv, data_text) = seal draw.vector (platform.render_patch ops) in
      record {
        noydb = 1;
        v = 1;
        ts = draw.now;
        iv = iv;
        data_text = data_text;
        by = some options.actor;
      }

  unfoldable pub load_delta : ℕ → Action S (Option (List Patch.Op))
  unfolding padded_index
  load_delta index = do
    found ← call (adapter.get options.vault deltas_collection (padded_index index))
    elim found [
      | none ↦ return none
      | some e ↦ do
        json ← or_throw decryption (unseal e)
        ops ← or_throw syntax (platform.parse_patch json)
        return (some ops)
    ]

  -- The loop over the sorted keys. A key without a record is passed over.
  unfoldable pub load_entries : List Text → Action S (List LedgerEntry)
  unfolding decrypt_entry
  load_entries [] = return []
  load_entries (key ∷ keys) = do
    found ← call (adapter.get options.vault ledger_collection key)
    elim found [
      | none ↦ load_entries keys
      | some e ↦ do entry ← decrypt_entry e; entries ← load_entries keys; return (entry ∷ entries)
    ]

  unfoldable pub load_all_entries : Action S (List LedgerEntry)
  unfolding load_entries sort
  load_all_entries = do
    keys ← call (adapter.list options.vault ledger_collection)
    load_entries (sort keys)

  -- The head of the entries that were loaded goes to the cache.
  abbrev pub keep_head : Option LedgerEntry → Action S (Option Head)
  keep_head none = do set_head none; return none
  keep_head (some e) = do set_head (some (head_of platform e)); return (some (head_of platform e))

  unfoldable pub load_head : Action S (Option Head)
  unfolding load_all_entries hash_entry
  load_head = do entries ← load_all_entries; keep_head (last entries)

  unfoldable pub get_cached_head : Action S (Option Head)
  unfolding load_head
  get_cached_head s = elim s.head_cache [ some h ↦ (s, ok h) | none ↦ load_head s ]

  -- The entry that `append` writes after a head.
  abbrev pub next_entry : Option Head → AppendInput → Text → Option Text → LedgerEntry
  next_entry head input now delta_hash = record {
    index = next_index head;
    prev_hash = next_prev_hash head;
    op = input.op;
    collection = input.collection;
    id = input.id;
    version = input.version;
    ts = now;
    actor = ite (dec_text input.actor []) options.actor input.actor;
    payload_hash = input.payload_hash;
    delta_hash = delta_hash;
  }

  -- The first write of `append`, and the hash of what it wrote.
  abbrev pub delta_hash_of : Envelope → Action S (Option Text)
  delta_hash_of e = return (some (platform.sha256_hex e.data_text))

  unfoldable pub put_delta : ℕ → Draw → Option (List Patch.Op) → Action S (Option Text)
  unfolding encrypt_delta padded_index
  put_delta index draw none = return none
  put_delta index draw (some ops) =
      let e = encrypt_delta draw ops in
      call (adapter.put options.vault deltas_collection (padded_index index) e none)
      >> delta_hash_of e

  -- The end of `append`.
  abbrev pub written : LedgerEntry → Action S LedgerEntry
  written entry = do set_head (some (head_of platform entry)); return entry

  unfoldable pub write_entry : AppendInput → Draw → Option Head → Option Text → Action S LedgerEntry
  unfolding encrypt_entry padded_index
  write_entry input draw cached delta_hash =
      let entry = next_entry cached input draw.now delta_hash in
      let e = encrypt_entry draw.vector entry in
      call (adapter.put options.vault ledger_collection (padded_index entry.index) e none)
      >> written entry

  abbrev pub write_after : AppendInput → Draw → Draw → Option Head → Action S LedgerEntry
  write_after input delta_draw draw cached =
      put_delta (next_index cached) delta_draw input.delta >>= write_entry input draw cached

  unfoldable pub append : AppendInput → Draw → Draw → Action S LedgerEntry
  unfolding get_cached_head put_delta write_entry
  append input delta_draw draw = get_cached_head >>= write_after input delta_draw draw

  -- The entry, its hash and the length.
  unfoldable pub head : Action S (Option (LedgerEntry × Text × ℕ))
  unfolding get_cached_head
  head = do
    cached ← get_cached_head
    elim cached [ none ↦ return none | some h ↦ return (some (h.entry, h.hash, h.entry.index + 1)) ]

  -- `opts.from ?? 0` and `opts.to ?? all.length`, clipped.
  unfoldable pub entries : Option ℕ → Option ℕ → Action S (List LedgerEntry)
  unfolding load_all_entries
  entries from to = do
    all ← load_all_entries
    return (slice (or_else 0 from) (min (length all) (or_else (length all) to)) all)

  unfoldable pub verify : Action S VerifyResult
  unfolding load_all_entries verify_entries
  verify = do all ← load_all_entries; return (verify_entries platform all)

  -- What one entry of the walk decides: whether it is a put, whether its version is asked for, and
  -- whether it has a patch.
  abbrev pub turn_back :
      Bool → Bool → Option Text → Json → Action S (Option Json) → Action S (Option Json)
  turn_back true true h state older = return (some state)
  turn_back false at h state older = return none
  turn_back true false none state older = return none
  turn_back true false (some h) state older = older

  abbrev pub undo :
      (Json → Action S (Option Json)) → Json → Option (List Patch.Op) → Action S (Option Json)
  undo go state none = return none
  undo go state (some ops) =
      if is_null state then return none else (applied (apply_patch state ops) >>= go)

  -- The walk back from the current value.
  unfoldable pub walk_back : ℕ → Json → List LedgerEntry → Action S (Option Json)
  unfolding load_delta apply_patch
  walk_back at_version state [] = return none
  walk_back at_version state (e ∷ l) =
      turn_back (is_put e.op) (e.version == at_version) e.delta_hash state
        (load_delta e.index >>= undo (λ next. walk_back at_version next l) state)

  unfoldable pub reconstruct : Text → Text → Json → ℕ → Action S (Option Json)
  unfolding load_all_entries matching_back walk_back
  reconstruct collection id current at_version = do
    all ← load_all_entries
    walk_back at_version current (matching_back collection id [] all)
