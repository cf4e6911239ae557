-- ===== src/Txn/Transaction.antt =====
-- crates/txn/src/transaction.rs and error.rs.
use icedb.Base.{ℕ, Bool, true, false, Option, none, List, []}
use icedb.Storage.Page.{PageError}
use icedb.Storage.Heap.{HeapError}
use icedb.Txn.Snapshot.{Snapshot}

pub data TransactionState : Type 0 where
  active committed aborted : TransactionState

pub data IsolationLevel : Type 0 where
  read_committed repeatable_read serializable : IsolationLevel

abbrev pub is_active_state : TransactionState → Bool
is_active_state active = true
is_active_state _ = false

abbrev pub is_serializable : IsolationLevel → Bool
is_serializable serializable = true
is_serializable _ = false

-- `RepeatableRead` or `Serializable`: one snapshot for the whole transaction.
abbrev pub keeps_snapshot : IsolationLevel → Bool
keeps_snapshot read_committed = false
keeps_snapshot _ = true

-- The fields `wal_lsns` and `command_id` are never used and left out.
pub record Transaction : Type 0 where
  pub xid : ℕ
  pub state : TransactionState
  pub isolation : IsolationLevel
  pub snapshot : Option Snapshot
  pub read_set : List (ℕ × ℕ)
  pub write_set : List (ℕ × ℕ)

unfoldable pub new_transaction : ℕ → IsolationLevel → Transaction
new_transaction xid isolation = record {
  xid = xid;
  state = active;
  isolation = isolation;
  snapshot = none;
  read_set = [];
  write_set = [];
}

-- The `Wal` errors of the source are I/O errors, which do not occur here.
pub data TxnError : Type 0 where
  not_found : ℕ → TxnError
  not_active : ℕ → TxnError
  write_write_conflict : ℕ → TxnError
  deadlock : ℕ → ℕ → TxnError
  serialization_failure : TxnError
  heap_error : HeapError → TxnError
  storage_page_error : PageError → TxnError
