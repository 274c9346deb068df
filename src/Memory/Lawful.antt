-- ===== src/Memory/Lawful.antt =====
-- The memory store as a `NoydbStore`, and the hub's contract of it.
use noydb.Base.{ℕ, ◌≡◌, refl, Option, some, Text, arith}
use noydb.Store.{
  Envelope, StoreError, conflict, failure, Outcome, ok, thrown, NoydbStore, IsLawful, at_key, if_ok,
}
use noydb.Memory
use noydb.Memory.{Memory}
use noydb.Memory.Writes.{PutResult, put_lem, delete_lem}

abbrev pub memory : NoydbStore Memory
memory = record {
  get = λ v c id s. (s, ok (Memory.get v c id s));
  put = Memory.put;
  delete = λ v c id s. (Memory.delete v c id s, ok tt);
  list = λ v c s. (s, ok (Memory.list v c s));
  load_all = λ v s. (s, ok (Memory.load_all v s));
  save_all = λ v snapshot s. (Memory.save_all v snapshot s, ok tt);
}

put_result :
    (v c id : Text) (e : Envelope) (expected : Option ℕ) (w d j : Text) (s s' : Memory)
    (out : Outcome StoreError Unit)
    → PutResult v c id e expected s s' out
    → Memory.get w d j s'
      ≡ if_ok out (at_key v c id w d j (some e) (Memory.get w d j s)) (Memory.get w d j s)
put_result v c id e expected w d j s s' (ok u) h = h.reads w d j
put_result v c id e expected w d j s s' (thrown (conflict n)) h = h.reads w d j
put_result v c id e expected w d j s s' (thrown (failure t)) h = absurd h

-- The memory store keeps the contract: a read changes nothing and answers what is there, a write
-- that settles changes one record, and one that throws changes none.
pub memory-IsLawful : IsLawful memory
memory-IsLawful = record {
  view = Memory.get;
  get_view = λ v c id w d j s. refl;
  get_ok = λ v c id s o h. ground arith;
  put_view = λ v c id e expected w d j s.
      put_result v c id e expected w d j s _ _ (put_lem v c id e expected s);
  delete_view = λ v c id w d j s. delete_lem v c id s w d j;
}
