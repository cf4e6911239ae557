-- ===== src/Wal.antt =====
-- crates/wal: the write-ahead log, from one record to the log and its recovery.
pub mod Record
pub mod Reader
pub mod Writer
pub mod Log
pub mod Recovery
pub mod Tests
