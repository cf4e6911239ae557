-- ===== src/Txn.antt =====
-- crates/txn: transactions, snapshots and locks.
pub mod Xid
pub mod Snapshot
pub mod Transaction
pub mod Lock
pub mod Cycle
pub mod Manager
pub mod Tests
