-- ===== src/Wal/Log.antt =====
-- What the bytes of a log hold: the writer (crates/wal/src/writer.rs) against the reader
-- (crates/wal/src/reader.rs).
pub mod Holds
pub mod Append
pub mod Torn
pub mod Reopen
