-- ===== src/Sql.antt =====
-- crates/sql: the values of a row and their bytes, the rows of the heap, and the keys of an index.

pub mod Value
pub mod Dates
pub mod Json
pub mod Bytes
pub mod Codec
pub mod Like
pub mod Order
pub mod Operators
pub mod SetOps
pub mod Join
