-- ===== src/Entry.antt =====
-- packages/hub/src/ledger/entry.ts: the entries of a ledger, their text and their hash, and the loop
-- over them in `verify` of store.ts. What the hub takes from outside is a parameter.
use noydb.Base.{
  ℕ, zero, suc, ◌-◌, ◌==◌, if◌then◌else◌, ite, Option, none, some, List, [], ◌∷◌, ◌++◌, length,
  Text, codes, dec_text,
}
use noydb.Store.{Envelope}
use noydb.Json.{decimal, Json, number, string, object, end, field, canonical_json}
use noydb.Patch

abbrev pub zeros : ℕ → Text
zeros zero = []
zeros (suc n) = b'0' ∷ zeros n

-- `s.padStart(width, '0')`
unfoldable pub pad_start : ℕ → Text → Text
pad_start width s = zeros (width - length s) ++ s

unfoldable pub padded_index : ℕ → Text
unfolding decimal pad_start
padded_index index = pad_start 10 (decimal index)

pub data EntryOp : Type 0 where
  put delete : EntryOp

pub record LedgerEntry : Type 0 where
  pub index : ℕ
  pub prev_hash : Text
  pub op : EntryOp
  pub collection : Text
  pub id : Text
  pub version : ℕ
  pub ts : Text
  pub actor : Text
  pub payload_hash : Text
  pub delta_hash : Option Text

pub data VerifyResult : Type 0 where
  verified : Text → ℕ → VerifyResult
  diverged : ℕ → Text → Text → VerifyResult

-- What the hub takes from outside: `JSON.stringify` at a string and at a patch, SHA-256 in hex, the
-- cipher under the key of the ledger, whose first argument is the random vector that it draws, and
-- `JSON.parse` at an entry and at a patch.
pub record Platform : Type 0 where
  pub quote : Text → Text
  pub render_patch : List Patch.Op → Text
  pub sha256_hex : Text → Text
  pub encrypt : Text → Text → Text × Text
  pub decrypt : Text → Text → Option Text
  pub parse_entry : Text → Option LedgerEntry
  pub parse_patch : Text → Option (List Patch.Op)

abbrev pub op_text : EntryOp → Text
op_text put = codes "put"
op_text delete = codes "delete"

-- The object that is an entry, without the delta's hash where there is none.
unfoldable pub entry_json : LedgerEntry → Json
unfolding decimal
entry_json e = object (
    field (codes "index") (number (decimal e.index)) (
      field (codes "prevHash") (string e.prev_hash) (
        field (codes "op") (string (op_text e.op)) (
          field (codes "collection") (string e.collection) (
            field (codes "id") (string e.id) (
              field (codes "version") (number (decimal e.version)) (
                field (codes "ts") (string e.ts) (
                  field (codes "actor") (string e.actor) (
                    field (codes "payloadHash") (string e.payload_hash) (elim e.delta_hash [
                      | none ↦ end
                      | some h ↦ field (codes "deltaHash") (string h) end
                    ]))))))))))

module _ (platform : Platform) where
  unfoldable pub hash_entry : LedgerEntry → Text
  unfolding canonical_json entry_json
  hash_entry e = platform.sha256_hex (canonical_json platform.quote (entry_json e))

  unfoldable pub envelope_payload_hash : Option Envelope → Text
  envelope_payload_hash none = []
  envelope_payload_hash (some e) = platform.sha256_hex e.data_text

  -- The loop of `verify`, at position `i`.
  unfoldable pub verify_from : ℕ → Text → List LedgerEntry → VerifyResult
  unfolding hash_entry decimal
  verify_from i expected [] = verified expected i
  verify_from i expected (e ∷ l) =
      let rest = verify_from (suc i) (hash_entry e) l in
      ite (dec_text e.prev_hash expected)
        (if e.index == i
          then rest
          else diverged i (codes "index=" ++ decimal i) (codes "index=" ++ decimal e.index))
        (diverged i expected e.prev_hash)

  unfoldable pub verify_entries : List LedgerEntry → VerifyResult
  unfolding verify_from
  verify_entries l = verify_from 0 [] l
