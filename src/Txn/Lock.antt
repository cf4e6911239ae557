-- ===== src/Txn/Lock.antt =====
-- crates/txn/src/lock.rs: write locks on tuples, and the search for a cycle of waiting transactions.
pub mod Laws
use icedb.Base.{
  ℕ, zero, suc, Bool, true, false, not, Option, none, some, List, [], ◌∷◌, ◌==◌, if◌then◌else◌, Map,
  lookup, insert, erase, nat_key, pair_key, Outcome, ok, err,
}
use icedb.Storage.Tuple.{Tid}
use icedb.Txn.Transaction.{TxnError, write_write_conflict, deadlock}

pub record LockState : Type 0 where
  pub write_locks : Map (ℕ × ℕ) ℕ
  pub wait_for : Map ℕ ℕ

abbrev pub new_locks : LockState
new_locks = record { write_locks = []; wait_for = [] }

abbrev pub key_of : Tid → ℕ × ℕ
key_of tid = (tid.page_no, tid.slot)

-- The `loop` along `wait_for`; `none` means that the fuel ran out.
unfoldable pub walk : ℕ → ℕ → ℕ → Map ℕ ℕ → Option Bool
walk zero xid current wait_for = none
walk (suc fuel) xid current wait_for = elim (lookup current wait_for) [
  | none ↦ some false
  | some next ↦ let rest = walk fuel xid next wait_for in if next == xid then some true else rest
]

abbrev pub conflict_error : Bool → ℕ → ℕ → TxnError
conflict_error true xid holder = deadlock xid holder
conflict_error false xid holder = write_write_conflict holder

-- The tuple is locked by another transaction. The entry in `wait_for` is removed again.
unfoldable pub conflict : ℕ → LockState → ℕ → ℕ → Option (Outcome TxnError (Unit {0}) × LockState)
conflict fuel s xid holder =
    let waiting = insert xid holder s.wait_for in
    elim (walk fuel xid holder waiting) [
      | none ↦ none
      | some cycle ↦
          some (err (conflict_error cycle xid holder), record s { wait_for = erase xid waiting })
    ]

abbrev pub grant : LockState → ℕ → Tid → LockState
grant s xid tid = record s { write_locks = insert (key_of tid) xid s.write_locks }

unfoldable pub acquire_write_lock :
    ℕ → LockState → ℕ → Tid → Option (Outcome TxnError (Unit {0}) × LockState)
acquire_write_lock fuel s xid tid = elim (lookup (key_of tid) s.write_locks) [
  | none ↦ some (ok tt, grant s xid tid)
  | some holder ↦
      if not (holder == xid) then conflict fuel s xid holder else some (ok tt, grant s xid tid)
]

-- `write_locks.retain(|_, v| *v != xid)`
unfoldable pub retain_others : ℕ → Map (ℕ × ℕ) ℕ → Map (ℕ × ℕ) ℕ
retain_others xid [] = []
retain_others xid ((k, v) ∷ m) =
    let rest = retain_others xid m in if v == xid then rest else (k, v) ∷ rest

unfoldable pub release_all : LockState → ℕ → LockState
release_all s xid = record {
  write_locks = retain_others xid s.write_locks;
  wait_for = erase xid s.wait_for;
}
