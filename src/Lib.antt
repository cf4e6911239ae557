-- ===== src/Lib.antt =====
-- Verification library of icedb, a relational database in Rust: its storage layer, its write-ahead
-- log, its transactions, its index, and the rows, values and operators of its SQL layer.
--
-- The parts and how they interact. A table is a heap file (crates/storage/src/heap.rs): a sequence
-- of slotted pages of 8 kB (page.rs), each of which holds encoded tuples (tuple.rs) under item
-- pointers. A buffer pool (buffer.rs) caches pages of a heap file in frames. The log
-- (crates/wal/src) is a row of segment files of records; its writer appends and rotates, its reader
-- goes through the records after a start. The transaction manager (crates/txn/src/manager.rs) gives
-- out ids and snapshots, decides which tuple versions a snapshot sees (snapshot.rs, visibility.rs),
-- holds write locks (lock.rs), looks for dependency cycles of Serializable transactions, writes the
-- end of each transaction to the log and rebuilds its sets from it after a crash. The index
-- (crates/btree/src) is a B+ tree of pages, each a node with sorted entries, and logs the pages that it
-- writes. The SQL layer (crates/sql/src) stores rows as a null bitmap and bytes (codec.rs, value.rs),
-- evaluates expressions over them (executor.rs), and makes an index key of each value.
--
-- Which file models what:
--   Base              the shared names: numbers, lists, bytes, maps, results and their lemmas
--   Storage.Page      storage/src/page.rs: the page as its list of bytes, one function per method
--   Storage.Tuple     storage/src/tuple.rs and tid.rs: `encode`, `decode` and the header
--   Storage.Heap      storage/src/heap.rs: the file as the list of its pages
--   Storage.Buffer    storage/src/buffer.rs: frames, descriptors, clock hand and page table
--   Wal.Record        wal/src/record.rs, lsn.rs, error.rs: one record as bytes, and its CRC
--   Wal.Reader        wal/src/reader.rs: the segments that are left, from the position on
--   Wal.Writer        wal/src/writer.rs: append, rotation, and `open` on earlier segments
--   Wal.Recovery      wal/src/recovery.rs: page images written back to a heap file
--   Txn.Xid           txn/src/xid.rs: the counter as its value
--   Txn.Snapshot      txn/src/snapshot.rs and visibility.rs
--   Txn.Transaction   txn/src/transaction.rs and error.rs
--   Txn.Lock          txn/src/lock.rs: the held locks and who waits for whom
--   Txn.Cycle         `has_cycle` and `dfs` of txn/src/manager.rs
--   Txn.Manager       the rest of txn/src/manager.rs, with the recovery in its child Recovery
--                     and the operations on tuples in its children Tuples and Scan
--   Btree.Node        btree/src/node.rs: search and insertion in a leaf
--   Btree.Codec       btree/src/node.rs: a node and its page
--   Btree.Split       btree/src/node.rs and tree.rs: children of internal nodes, and the splits
--   Btree.Meta        btree/src/meta.rs: the record on page 0
--   Btree.State       the state of an index: its pages, its log and its id
--   Btree.Tree        btree/src/tree.rs and file.rs: pages and nodes read and written; search,
--                     `open`, `insert`, `delete` and `range_scan` in Search, Update and Range
--   Sql.Value         sql/src/value.rs and catalog/src/types.rs: values and types
--   Sql.Bytes         sql/src/value.rs: the stored bytes of values
--   Sql.Json          sql/src/value.rs: the items of arrays as JSON
--   Sql.Dates         sql/src/value.rs: `format_date` and `format_timestamp`
--   Sql.Codec         sql/src/codec.rs: rows as bytes with a null bitmap
--   Sql.Order         sql/src/value.rs and codec.rs: comparison of values, and the keys of an index
--   Sql.Operators     sql/src/executor.rs: `eval_binary_op`
--   Sql.Like          sql/src/executor.rs: `like_match_impl`
--   Sql.Join          sql/src/executor.rs: the nested loops of `exec_join` and `exec_nested_loop_join`
--   Sql.SetOps        sql/src/executor.rs: `exec_set_op`, `deduplicate_rows` and `exec_limit`
-- The modules below each of these hold its invariants and proofs, named for what they are about;
-- Tests holds examples at concrete inputs. Paths are below crates/.
--
-- How the code is read. A method with `&mut self` or with locks is a function from the state to a
-- result and the next state, and runs as one step; Txn.Manager.Races cuts `begin` and `commit` where
-- their locks end. A `Result` is an `Outcome`: a value, an error or a panic (an index out of range,
-- a failed assertion), so that a call that comes to a value has not panicked. Bytes are
-- numbers below 256, and a machine integer keeps its wrap-around as `% 2 ^ w`. A hash map is an
-- association list and a hash set a list; no order of theirs is used in a result.
--
-- Fuel. `Txn.Cycle.dfs` has one unit for every node with edges and two more (Txn.Cycle.Total is about
-- that bound). The loop over the log takes one unit for each record and one for its end. The
-- scan of a segment has one unit for each of its bytes, since a record takes at least one. The sweep
-- of the clock, the search of a heap file and the flush have the rounds of their `for` loops. The
-- binary search in a leaf has a round for each entry and one more. A descent in the index has a round
-- for each page of the file, the scan of its leaves one more.
--
-- Not modelled: errors of the operating system (reads, writes and syncs of files succeed), starts of
-- the WAL reader behind the first record and so a recovery from a checkpoint (wal/src/checkpoint.rs
-- and the control file of recovery.rs), the catalog, the SQL parser, planner and optimizer, plans, most
-- of the executor, casts and dates, authentication, the network and the programs around them. Of the
-- joins, the hash join and the columns of USING are left out, and the value of the condition on a
-- row, `eval_expr`, is an argument. Floats, UTF-8, the reading of dates
-- and what serde_json prints and reads are parameters of the SQL modules; the display of values in the
-- operators and in the keys is one too.
pub mod Base
pub mod Storage
pub mod Wal
pub mod Txn
pub mod Btree
pub mod Sql
