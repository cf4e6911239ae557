-- ===== src/Txn/Manager/Tuples/Tests.antt =====
-- Examples of operations on tuples: the theorems about them at concrete inputs.
use icedb.Storage.Heap
use icedb.Storage.Tuple
use icedb.Txn.Manager
use icedb.Base.{
  nat_key, [], ◌∷◌, some, true, false, inl, ok, refl, arith, ◌≡◌, lookup, replicate, ℕ, contains,
  to_le, ◌<◌, length, ◌^◌, List,
}
use icedb.Storage.Tuple.RoundTrip.{IsWellFormed}
use icedb.Storage.Heap.Pages.{IsSound}
use icedb.Txn.Manager.Tuples.{delete_tuple, undo_delete, with_xmax}
use icedb.Storage.Tuple.{encode_into, Tuple, Tid, pad_to}
use icedb.Txn.Snapshot.{Snapshot, xid_is_visible, is_tuple_visible}
use icedb.Txn.Manager.{Manager, current_snapshot}
use icedb.Txn.Manager.Tuples.Soft.{
  MayDelete, IsSoftDeleted, committed_delete_lost, delete_tuple-IsSoftDeleted,
  undo_delete-delete_tuple,
}
use icedb.Storage.Heap.{HeapFile}
use icedb.Wal.Writer.{open_fresh}
use icedb.Txn.Lock.Laws.{holder_of}
use icedb.Storage.Heap.Insert.{IsInserted, insert_tuple-IsInserted}
use icedb.Txn.Manager.Scan.Reads.{found_at}
use icedb.Txn.Manager.Scan.{scan_visible_tuples}
use icedb.Txn.Manager.Scan.Visible.{scan_visible_tuples-found, ReadsAs}

-- A row that 3 inserted, and one that 5 has deleted since.
abbrev row_of_3 : Tuple
row_of_3 = record {
  header = record {
    t_xmin = 3;
    t_xmax = 0;
    t_cid = 0;
    t_ctid_page = 0;
    t_ctid_slot = 0;
    t_infomask = 0;
    t_hoff = 24;
    t_bits = 0;
  };
  payload = 65 ∷ 66 ∷ [];
}

abbrev row_gone : Tuple
row_gone = with_xmax row_of_3 5

row-IsWellFormed : (x : ℕ) → x < 2 ^ 32 → IsWellFormed (with_xmax row_of_3 x).header
row-IsWellFormed x below = record {
  xmin = omega arith;
  xmax = below;
  cid = omega arith;
  ctid_page = omega arith;
  ctid_slot = omega arith;
  infomask = omega arith;
  hoff = omega arith;
  behind = omega arith;
}

row-length : (x : ℕ) → length (Tuple.encode (with_xmax row_of_3 x)) ≡ 26
unfolding Tuple.encode pad_to encode_into to_le replicate
row-length x = refl

-- The file after the row was inserted into an empty one.
stored :
    (x : ℕ)
    → x < 2 ^ 32
    → (tid : Tid) × (h : HeapFile) × (Heap.insert_tuple
          (record { pages = [] })
          (with_xmax row_of_3 x)
        ≡ (ok tid, h))
      × IsInserted (record { pages = [] }) h (with_xmax row_of_3 x) tid
stored x below =
    insert_tuple-IsInserted (with_xmax row_of_3 x) (record { few = omega arith; stamped = tt })
      (omega arith) (row-IsWellFormed x below) (omega (arith, row-length x))

abbrev fresh_row :
    (tid : Tid) × (h : HeapFile) × (Heap.insert_tuple (record { pages = [] }) row_of_3
      ≡ (ok tid, h))
    × IsInserted (record { pages = [] }) h row_of_3 tid
fresh_row = stored 0 (omega arith)

abbrev gone_row :
    (tid : Tid) × (h : HeapFile) × (Heap.insert_tuple (record { pages = [] }) row_gone
      ≡ (ok tid, h))
    × IsInserted (record { pages = [] }) h row_gone tid
gone_row = stored 5 (omega arith)

abbrev manager : Manager
manager = Manager.new 8 (open_fresh 4096)

fresh_row-MayDelete : MayDelete manager 7 fresh_row.1 fresh_row.0 row_of_3
unfolding Manager.new lookup
fresh_row-MayDelete = record {
  idle = record { nobody_waits = λ x. refl; unique = tt };
  free = inl refl;
  sound = fresh_row.3.sound;
  found = fresh_row.3.stored;
  well = row-IsWellFormed 0 (omega arith);
  in_range = omega arith;
}

gone_row-MayDelete : MayDelete manager 7 gone_row.1 gone_row.0 row_gone
unfolding Manager.new lookup
gone_row-MayDelete = record {
  idle = record { nobody_waits = λ x. refl; unique = tt };
  free = inl refl;
  sound = gone_row.3.sound;
  found = gone_row.3.stored;
  well = row-IsWellFormed 5 (omega arith);
  in_range = omega arith;
}

delete_tuple-IsSoftDeleted_example :
    (m' : Manager) × (h' : HeapFile) × (delete_tuple 1 manager 7 fresh_row.1 fresh_row.0
      ≡ some (ok tt, (m', h')))
    × IsSoftDeleted manager m' 7 fresh_row.1 h' fresh_row.0 row_of_3
delete_tuple-IsSoftDeleted_example =
    delete_tuple-IsSoftDeleted 0 manager 7 fresh_row.1 fresh_row.0 row_of_3 fresh_row-MayDelete

undo_delete-delete_tuple_example :
    (m1 m2 : Manager) × (h1 h2 : HeapFile) × (delete_tuple 1 manager 7 fresh_row.1 fresh_row.0
      ≡ some (ok tt, (m1, h1)))
    × (undo_delete m1 7 h1 fresh_row.0 ≡ (ok tt, (m2, h2)))
    × IsSound h2
    × (Heap.get_tuple h2 fresh_row.0 ≡ ok row_of_3)
    × (holder_of m2.locks fresh_row.0 ≡ some 7)
undo_delete-delete_tuple_example =
    undo_delete-delete_tuple 0 manager 7 fresh_row.1 fresh_row.0 row_of_3 fresh_row-MayDelete refl

-- A snapshot that both transactions ended before.
abbrev later : Snapshot
later = record { xmin = 6; xmax = 9; in_progress = 7 ∷ [] }

committed_delete_lost_example :
    (m' : Manager) × (h' : HeapFile) × (t' : Tuple) × (delete_tuple 1 manager 7 gone_row.1
        gone_row.0
      ≡ some (ok tt, (m', h')))
    × (Heap.get_tuple h' gone_row.0 ≡ ok t')
    × (is_tuple_visible row_gone.header later (3 ∷ 5 ∷ []) ≡ false)
    × (is_tuple_visible t'.header later (3 ∷ 5 ∷ []) ≡ true)
unfolding contains xid_is_visible
committed_delete_lost_example =
    committed_delete_lost 0 manager 7 gone_row.1 gone_row.0 row_gone gone_row-MayDelete
      (omega arith) (omega arith) later (3 ∷ 5 ∷ []) refl refl refl refl refl

scan_visible_tuples-found_example :
    (found : List (Tid × Tuple)) × (m' : Manager) × (scan_visible_tuples manager 7 gone_row.1
      ≡ (ok found, m'))
    × ((tid : Tid)
        → ReadsAs 7
            (current_snapshot manager 7)
            manager.committed
            (Heap.get_tuple gone_row.1 tid)
            (found_at tid.page_no tid.slot found))
scan_visible_tuples-found_example = scan_visible_tuples-found manager 7 gone_row.1 gone_row.3.sound
