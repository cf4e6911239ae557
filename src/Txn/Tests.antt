-- ===== src/Txn/Tests.antt =====
-- Examples of locks, graphs and managers: the theorems about them at concrete inputs.
use icedb.Txn.Lock.{LockState, acquire_write_lock, grant, new_locks}
use icedb.Base.{
  Map, Bool, List, ◌≡◌, ◌≢◌, ℕ, lookup, ok, ◌∷◌, some, err, true, refl, [], contains, false,
  pair_key, arith, ◌+◌, insert, erase, length, ◌<◌, ◌&&◌, ◌^◌, not, keys, nat_key,
}
use icedb.Txn.Manager.History.{
  run, step, Call, begin_call, commit_call, IsSound, IsOver, run-IsSound, new-IsSound,
}
use icedb.Txn.Lock.Laws.{IsIdle, Reach, acquired, Reach-IsIdle, start, never_deadlock}
use icedb.Storage.Tuple.{Tid, TupleHeader, new_header}
use icedb.Txn.Manager
use icedb.Txn.Manager.{
  Manager, begin, commit, register, leave_active, finish_commit, mark_committed, current_snapshot,
  take_snapshot, others, minimum, serializables, check_serializable_conflict,
}
use icedb.Txn.Cycle.{has_cycle}
use icedb.Txn.Transaction.{
  read_committed, deadlock, serializable, Transaction, new_transaction, repeatable_read,
  is_active_state,
}
use icedb.Txn.Cycle.Total.{has_cycle_total}
use icedb.Txn.Xid.{first_xid, allocate_xid, invalid_xid}
use icedb.Txn.Cycle.Decides.{CycleFrom, has_cycle_correct}
use icedb.Wal.Writer.{open_fresh, Entry, append_all}
use icedb.Wal.Record.RoundTrip.{IsWellFormed, length-encode}
use icedb.Txn.Manager.Recovery.{
  IsRecovered, new_with_wal_recovery, new_with_wal_recovery-torn_write,
}
use icedb.Wal.Record.{WalRecord, RecordType}
use icedb.Txn.Snapshot.{is_tuple_visible}
use icedb.Wal.Log.Torn.{torn_write}
use icedb.Txn.Manager.Races.{snapshot_inside_commit, inside_commit}
use icedb.Txn.Manager.Isolation.{is_tuple_visible-run}

-- Transaction 3 holds the lock on the first tuple.
abbrev tid : Tid
tid = record { page_no = 0; slot = 0 }

abbrev locked : LockState
locked = grant new_locks 3 tid

new_locks-IsIdle : IsIdle new_locks
new_locks-IsIdle = Reach-IsIdle start

locked_by_call : acquire_write_lock 1 new_locks 3 tid ≡ some (ok tt, locked)
unfolding acquire_write_lock lookup
locked_by_call = refl

locked-Reach : Reach locked
locked-Reach = acquired 0 3 tid (ok tt) start locked_by_call

never_deadlock_example : acquire_write_lock 1 locked 4 tid ≢ some (err (deadlock 4 3), locked)
never_deadlock_example = never_deadlock 0 4 tid 4 3 locked-Reach

-- 3 depends on 4, 4 on 5, and 5 on 3.
abbrev ring : Map ℕ (List ℕ)
ring = (3, 4 ∷ []) ∷ (4, 5 ∷ []) ∷ (5, 3 ∷ []) ∷ []

has_cycle_correct_example :
    ((has_cycle 3 ring ≡ some true) → CycleFrom ring 3)
    × ((has_cycle 3 ring ≡ some false) → ¬ (CycleFrom ring 3))
has_cycle_correct_example = has_cycle_correct 3 ring

has_cycle_total_example : (b : Bool) × (has_cycle 3 ring ≡ some b)
has_cycle_total_example = has_cycle_total 3 ring

-- A manager in which transaction 3 is active, and the calls that follow.
abbrev fresh : Manager
fresh = Manager.new first_xid (open_fresh 1000)

abbrev busy : Manager
busy = (begin fresh serializable).1

abbrev calls : List Call
calls = begin_call read_committed ∷ commit_call 3 ∷ begin_call repeatable_read ∷ []

abbrev active_txn : Transaction
active_txn = record (new_transaction 3 serializable) {
  snapshot = some (record { xmin = 4; xmax = 4; in_progress = [] });
}

next-busy : busy.next_xid ≡ 4
unfolding begin register allocate_xid Manager.new
next-busy = refl

fresh-room : fresh.next_xid + length (begin_call serializable ∷ []) < 2 ^ 32
unfolding Manager.new
fresh-room = omega arith

busy-IsSound : IsSound busy
unfolding run step
busy-IsSound =
    (run-IsSound (begin_call serializable ∷ []) (new-IsSound (open_fresh 1000)) fresh-room).0

busy-live : lookup 3 busy.active ≡ some active_txn
unfolding lookup insert erase begin register allocate_xid Manager.new new_transaction take_snapshot
    others minimum keys
busy-live = refl

run-IsSound_example :
    IsSound (run busy calls)
    × ((x : ℕ) → contains busy.committed x ≡ true → contains (run busy calls).committed x ≡ true)
    × ((x : ℕ) → IsOver busy x → IsOver (run busy calls) x)
run-IsSound_example = run-IsSound calls busy-IsSound (omega (arith, next-busy))

-- A tuple version that transaction 3 inserted and nobody deleted, read by transaction 4.
abbrev version : TupleHeader
version = record new_header { t_xmin = 3 }

is_tuple_visible-run_example :
    is_tuple_visible version (take_snapshot busy 4) (run busy calls).committed
    ≡ (contains busy.committed version.t_xmin && not (contains busy.committed version.t_xmax))
unfolding new_header
is_tuple_visible-run_example =
    is_tuple_visible-run 4 version calls busy-IsSound (omega (arith, next-busy)) (omega arith)
      (omega arith)

busy-commits : commit busy 3 ≡ some (ok tt, finish_commit busy 3)
unfolding commit check_serializable_conflict lookup insert erase begin register allocate_xid
    Manager.new new_transaction take_snapshot others minimum keys
busy-commits = refl

version-fields : (version.t_xmin ≡ 3) × (version.t_xmax ≡ invalid_xid)
unfolding new_header
version-fields = (refl, refl)

snapshot_inside_commit_example :
    let between = inside_commit busy 3 in
    let snapshot = take_snapshot between 4 in
    (is_tuple_visible version snapshot between.committed ≡ false)
    × (is_tuple_visible version snapshot (finish_commit busy 3).committed ≡ true)
snapshot_inside_commit_example =
    snapshot_inside_commit 4 3 version busy-IsSound busy-commits (version-fields.0)
      (version-fields.1)

busy-alone : serializables busy.active ≡ (3, active_txn) ∷ []
unfolding lookup insert erase begin register allocate_xid Manager.new new_transaction take_snapshot
    others minimum keys serializables
busy-alone = refl

active_txn-live : is_active_state active_txn.state ≡ true
unfolding new_transaction
active_txn-live = refl

-- The log of a committed transaction, and a commit record that a crash cuts after 10 bytes.
abbrev entries : List Entry
entries = record { xid = 3; record_type = RecordType.commit; page_no = 0; payload = [] } ∷ []

abbrev cut_record : WalRecord
cut_record = record {
  lsn = 2;
  prev_lsn = 1;
  xid = 4;
  record_type = RecordType.commit;
  page_no = 0;
  payload = [];
}

cut_record-IsWellFormed : IsWellFormed cut_record
cut_record-IsWellFormed = record {
  lsn = omega arith;
  prev_lsn = omega arith;
  xid = omega arith;
  page_no = omega arith;
  total = omega arith;
}

new_with_wal_recovery-torn_write_example :
    IsRecovered
      (new_with_wal_recovery 2 first_xid
        (torn_write (append_all (open_fresh 1000) entries) 10 cut_record))
      entries
new_with_wal_recovery-torn_write_example =
    new_with_wal_recovery-torn_write first_xid 1000 entries 10 cut_record (omega arith)
      (record { xid = omega arith; page_no = omega arith; total = omega arith }, tt)
      cut_record-IsWellFormed (omega (arith, length-encode cut_record))
