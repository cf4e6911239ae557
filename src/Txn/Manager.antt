-- ===== src/Txn/Manager.antt =====
-- crates/txn/src/manager.rs without the tuple operations: beginning and ending transactions,
-- snapshots, the check of Serializable transactions, and the recovery from the log. `NEXT_XID`, the
-- process-wide counter of xid.rs, is the field `counter`; each function runs under the manager's
-- locks as one step, and the log's appends succeed.
pub mod History
pub mod Isolation
pub mod Races
pub mod Serializable
pub mod Recovery
pub mod Tuples
pub mod Scan
use icedb.Base.{
  ℕ, zero, suc, ◌+◌, ◌%◌, ◌^◌, min, Bool, true, false, not, ◌&&◌, ◌||◌, Option, none, some, List,
  [], ◌∷◌, ltb, ◌==◌, if◌then◌else◌, Map, lookup, insert, erase, keys, contains, discard, nat_key,
  pair_key, Outcome, ok, err, inl, inr, refl, arith, ◌>>=◌, ◌>>◌, ◌≡◌,
}
use icedb.Wal.Record.{WalRecord, RecordType}
use icedb.Wal.Writer
use icedb.Wal.Writer.{Writer, Entry}
use icedb.Txn.Xid.{first_xid, allocate_xid, advance_next_xid}
use icedb.Txn.Snapshot.{Snapshot}
use icedb.Txn.Transaction.{
  Transaction, IsolationLevel, TxnError, not_found, not_active, serialization_failure,
  new_transaction, is_active_state, is_serializable, keeps_snapshot,
}
use icedb.Txn.Lock.{LockState, new_locks, release_all}
use icedb.Txn.Cycle.{has_cycle}

pub record Manager : Type 0 where
  pub active : Map ℕ Transaction
  pub aborted : List ℕ
  pub next_xid : ℕ
  pub committed : List ℕ
  pub wal : Writer
  pub locks : LockState
  pub counter : ℕ

-- `TransactionManager::new`
unfoldable pub new : ℕ → Writer → Manager
new counter wal = record {
  active = [];
  aborted = [];
  next_xid = first_xid;
  committed = [];
  wal = wal;
  locks = new_locks;
  counter = counter;
}

-- `.filter(|&x| x != current_xid)`
unfoldable pub others : ℕ → List ℕ → List ℕ
others current [] = []
others current (x ∷ xs) = let rest = others current xs in if x == current then rest else x ∷ rest

abbrev pub min_with : ℕ → Option ℕ → ℕ
min_with x none = x
min_with x (some y) = min x y

-- `.min()`
unfoldable pub minimum : List ℕ → Option ℕ
minimum [] = none
minimum (x ∷ xs) = some (min_with x (minimum xs))

abbrev pub unwrap_or {ℓ} : {A : Type ℓ} → Option A → A → A
unwrap_or none d = d
unwrap_or (some a) d = a

unfoldable pub take_snapshot : Manager → ℕ → Snapshot
take_snapshot m current_xid =
    let in_progress = keys m.active in
    record {
      xmin = unwrap_or (minimum (others current_xid in_progress)) m.next_xid;
      xmax = m.next_xid;
      in_progress = in_progress;
    }

-- The part of `begin` under the lock, with the id that was allocated before it.
unfoldable pub register : Manager → ℕ → IsolationLevel → Manager
register m0 xid isolation =
    let m : Manager = record m0 { next_xid = (xid + 1) % 2 ^ 32 } in
    let snapshot : Option Snapshot =
      if keeps_snapshot isolation then some (take_snapshot m xid) else none in
    let txn : Transaction = record (new_transaction xid isolation) { snapshot = snapshot } in
    record m { active = insert xid txn m.active }

unfoldable pub begin : Manager → IsolationLevel → ℕ × Manager
begin m isolation =
    let (xid, counter) = allocate_xid m.counter in
    (xid, register (record m { counter = counter }) xid isolation)

-- `.intersection(…).next().is_some()`
unfoldable pub intersects : List (ℕ × ℕ) → List (ℕ × ℕ) → Bool
intersects [] ys = false
intersects (x ∷ xs) ys = contains ys x || intersects xs ys

unfoldable pub serializables : Map ℕ Transaction → Map ℕ Transaction
serializables [] = []
serializables ((x, t) ∷ m) =
    let rest = serializables m in if is_serializable t.isolation then (x, t) ∷ rest else rest

-- The transactions that wrote something that `a` read.
unfoldable pub writers_after : ℕ → Transaction → Map ℕ Transaction → List ℕ
writers_after a txn_a [] = []
writers_after a txn_a ((b, txn_b) ∷ m) =
    let rest = writers_after a txn_a m in
    if not (a == b) && intersects txn_a.read_set txn_b.write_set then b ∷ rest else rest

-- The graph, with an empty entry where the source has none.
unfoldable pub edges_of : Map ℕ Transaction → Map ℕ Transaction → Map ℕ (List ℕ)
edges_of all [] = []
edges_of all ((a, t) ∷ m) = (a, writers_after a t all) ∷ edges_of all m

abbrev pub is_empty : List (ℕ × ℕ) → Bool
is_empty [] = true
is_empty _ = false

-- `true` is the error `SerializationFailure`; `none` would be a search that does not end.
unfoldable pub check_serializable_conflict : Manager → ℕ → Option Bool
check_serializable_conflict m xid = elim (lookup xid m.active) [
  | none ↦ some false
  | some txn ↦
      if not (is_serializable txn.isolation)
      then some false
      else if is_empty txn.write_set || is_empty txn.read_set
      then some false
      else has_cycle xid (edges_of (serializables m.active) (serializables m.active))
]

abbrev pub end_entry : ℕ → RecordType → Entry
end_entry xid kind = record { xid = xid; record_type = kind; page_no = 0; payload = [] }

-- `inner.active.remove(&xid)`, under the lock of `inner`
unfoldable pub leave_active : Manager → ℕ → Manager
leave_active m xid = record m { active = erase xid m.active }

-- `self.committed.write().insert(xid)`, under the lock of `committed`
unfoldable pub mark_committed : Manager → ℕ → Manager
mark_committed m xid = record m { committed = xid ∷ m.committed }

abbrev pub log_end : RecordType → Manager → ℕ → Manager
log_end kind m xid = record m { wal = Writer.append m.wal (end_entry xid kind) }

abbrev pub unlock : Manager → ℕ → Manager
unlock m xid = record m { locks = release_all m.locks xid }

-- The steps of `commit` behind its checks, each under a lock of its own, in the order of the source.
abbrev pub commit_steps : List (Manager → ℕ → Manager)
commit_steps = log_end RecordType.commit ∷ leave_active ∷ mark_committed ∷ unlock ∷ []

abbrev pub run_steps : List (Manager → ℕ → Manager) → Manager → ℕ → Manager
run_steps [] m xid = m
run_steps (step ∷ steps) m xid = run_steps steps (step m xid) xid

unfoldable pub finish_commit : Manager → ℕ → Manager
finish_commit m xid = run_steps commit_steps m xid

abbrev pub after_check : Manager → ℕ → Option Bool → Option (Outcome TxnError (Unit {0}) × Manager)
after_check m xid none = none
after_check m xid (some true) = some (err serialization_failure, m)
after_check m xid (some false) = some (ok tt, finish_commit m xid)

unfoldable pub commit : Manager → ℕ → Option (Outcome TxnError (Unit {0}) × Manager)
commit m xid = elim (lookup xid m.active) [
  | none ↦ some (err (not_found xid), m)
  | some txn ↦
      if not (is_active_state txn.state)
      then some (err (not_active xid), m)
      else after_check m xid (check_serializable_conflict m xid)
]

unfoldable pub abort : Manager → ℕ → Outcome TxnError (Unit {0}) × Manager
abort m xid = elim (lookup xid m.active) [
  | none ↦ (err (not_found xid), m)
  | some txn ↦ if not (is_active_state txn.state) then (err (not_active xid), m) else (
    ok tt,
    record m {
      wal = Writer.append m.wal (end_entry xid RecordType.abort);
      active = erase xid m.active;
      aborted = xid ∷ m.aborted;
      locks = release_all m.locks xid;
    },
  )
]

unfoldable pub current_snapshot : Manager → ℕ → Snapshot
current_snapshot m xid = elim (lookup xid m.active) [
  | none ↦ take_snapshot m xid
  | some t ↦
      if keeps_snapshot t.isolation
      then unwrap_or t.snapshot (take_snapshot m xid)
      else take_snapshot m xid
]

abbrev pub is_none {ℓ} : {A : Type ℓ} → Option A → Bool
is_none none = true
is_none (some a) = false

abbrev pub with_level : Manager → ℕ → IsolationLevel → Transaction → Transaction
with_level m xid level txn =
    let snapshot : Option Snapshot =
      if keeps_snapshot level && is_none txn.snapshot
      then some (take_snapshot m xid)
      else txn.snapshot in
    record txn { isolation = level; snapshot = snapshot }

unfoldable pub set_isolation_level : Manager → ℕ → IsolationLevel → Manager
set_isolation_level m xid level = elim (lookup xid m.active) [
  | none ↦ m
  | some txn ↦ record m { active = insert xid (with_level m xid level txn) m.active }
]

unfoldable pub is_committed : Manager → ℕ → Bool
is_committed m xid = contains m.committed xid

unfoldable pub is_aborted : Manager → ℕ → Bool
is_aborted m xid = contains m.aborted xid

unfoldable pub is_active : Manager → ℕ → Bool
is_active m xid = not (is_none (lookup xid m.active))
