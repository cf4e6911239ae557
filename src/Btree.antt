-- ===== src/Btree.antt =====
-- crates/btree: the index, its page file, its meta page and its nodes.
pub mod Node
pub mod Codec
pub mod Meta
pub mod Split
pub mod State
pub mod Tree
