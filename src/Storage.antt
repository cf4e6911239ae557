-- ===== src/Storage.antt =====
-- crates/storage: the on-disk structures, from the page up.
pub mod Page
pub mod Tuple
pub mod Heap
pub mod Buffer
pub mod Tests
