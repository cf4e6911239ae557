-- ===== src/Txn/Manager/Tuples.antt =====
-- The operations on tuples of crates/txn/src/manager.rs, on the heap file that they are given. Each
-- writes an image of the changed page to the log before the page. The lock table's search has `fuel`
-- rounds; `none` means that they ran out.
pub mod Rewrite
pub mod Soft
pub mod Tests
use icedb.Storage.Tuple
use icedb.Storage.Heap
use icedb.Wal.Writer
use icedb.Base.{
  nat_key, ◌∷◌, none, some, ok, err, ◌>>=◌, ◌>>◌, ◌+◌, insert, ℕ, Outcome, List, Option, lookup,
  map_err, if◌then◌else◌, guard, leb, not, length, ◌==◌, require, splice, zero, suc, [], true,
  false, inl, inr, refl, arith, ◌≡◌, Map,
}
use icedb.Wal.Writer.{Writer, Entry}
use icedb.Txn.Manager.{Manager}
use icedb.Storage.Tuple.{Tuple, new_header, TupleHeader, Tid}
use icedb.Storage.Heap.{read_page, attempt, find_and_prepare_insert, HeapFile}
use icedb.Wal.Record.{page_image}
use icedb.Txn.Xid.{invalid_xid}
use icedb.Storage.Page.{Page, PageError, read_item, insufficient_space, page_size}
use icedb.Txn.Transaction.{TxnError, heap_error, is_serializable, storage_page_error, Transaction}
use icedb.Txn.Lock.{LockState, acquire_write_lock}

-- `write_tuple_to_page`, the range check of the slice included.
unfoldable pub write_tuple_to_page : Page → ℕ → Tuple → Outcome PageError Page
write_tuple_to_page page slot tuple = do
  item ← read_item page.bytes slot
  let encoded = Tuple.encode tuple
  guard (leb (length encoded) item.lp_len) (insufficient_space (length encoded) item.lp_len)
  require (leb (item.lp_off + length encoded) page_size)
  ok (record { bytes = splice page.bytes item.lp_off encoded })

abbrev pub page_image_entry : ℕ → ℕ → Page → Entry
page_image_entry xid page_no page = record {
  xid = xid;
  record_type = page_image;
  page_no = page_no;
  payload = page.bytes;
}

-- The image of the page goes to the log, then the page to the file.
abbrev pub log_and_write : Manager → HeapFile → ℕ → ℕ → Page → Manager × HeapFile
log_and_write m heap xid page_no page = (
  record m { wal = Writer.append m.wal (page_image_entry xid page_no page) },
  Heap.write_page heap page_no page,
)

-- SSI: a Serializable transaction remembers what it wrote.
unfoldable pub tracked : Map ℕ Transaction → ℕ → Tid → Map ℕ Transaction
tracked active xid tid = elim (lookup xid active) [
  | none ↦ active
  | some txn ↦
      if is_serializable txn.isolation
      then insert xid (record txn { write_set = (tid.page_no, tid.slot) ∷ txn.write_set }) active
      else active
]

abbrev pub track_write : Manager → ℕ → Tid → Manager
track_write m xid tid = record m { active = tracked m.active xid tid }

abbrev pub inserted_header : ℕ → TupleHeader
inserted_header xid = record new_header { t_xmin = xid; t_xmax = invalid_xid }

unfoldable pub insert_tuple :
    Manager → ℕ → HeapFile → List ℕ → Outcome TxnError Tid × (Manager × HeapFile)
insert_tuple m xid heap payload =
    let tuple : Tuple = record { header = inserted_header xid; payload = payload } in
    let (r, heap1) = find_and_prepare_insert heap (Tuple.encode tuple) in
    attempt (map_err heap_error r) (m, heap1)
      λ place.
        let tid : Tid = record { page_no = place.0; slot = place.2 } in
        let (m1, heap2) = log_and_write m heap1 xid place.0 place.1 in
        (ok tid, (track_write m1 xid tid, heap2))

-- The tuple and its page, both read anew, and the page with another header of the tuple.
unfoldable pub rewrite_tuple : HeapFile → Tid → Tuple → Outcome TxnError Page
rewrite_tuple heap tid tuple = do
  page ← map_err heap_error (read_page heap tid.page_no)
  map_err storage_page_error (write_tuple_to_page page tid.slot tuple)

abbrev pub with_xmax : Tuple → ℕ → Tuple
with_xmax t xid = record t { header = record t.header { t_xmax = xid } }

-- `delete_tuple` behind the lock.
unfoldable pub soft_delete :
    Manager → ℕ → HeapFile → Tid → Outcome TxnError (Unit {0}) × (Manager × HeapFile)
soft_delete m xid heap tid =
    attempt (map_err heap_error (Heap.get_tuple heap tid)) (m, heap)
      λ tuple.
        attempt (rewrite_tuple heap tid (with_xmax tuple xid)) (m, heap)
          λ page.
            let (m1, heap1) = log_and_write m heap xid tid.page_no page in
            (ok tt, (track_write m1 xid tid, heap1))

abbrev pub after_lock :
    Manager
    → ℕ
    → HeapFile
    → Tid
    → Option (Outcome TxnError (Unit {0}) × LockState)
    → Option (Outcome TxnError (Unit {0}) × (Manager × HeapFile))
after_lock m xid heap tid none = none
after_lock m xid heap tid (some (ok done, locks)) =
    some (soft_delete (record m { locks = locks }) xid heap tid)
after_lock m xid heap tid (some (err e, locks)) = some (err e, (record m { locks = locks }, heap))
after_lock m xid heap tid (some (Outcome.panic, locks)) =
    some (Outcome.panic, (record m { locks = locks }, heap))

unfoldable pub delete_tuple :
    ℕ → Manager → ℕ → HeapFile → Tid → Option (Outcome TxnError (Unit {0}) × (Manager × HeapFile))
delete_tuple fuel m xid heap tid =
    after_lock m xid heap tid (acquire_write_lock fuel m.locks xid tid)

unfoldable pub undo_insert :
    Manager → ℕ → HeapFile → Tid → Outcome TxnError (Unit {0}) × (Manager × HeapFile)
undo_insert m xid heap tid =
    attempt (map_err heap_error (Heap.get_tuple heap tid)) (m, heap)
      λ tuple.
        if not (tuple.header.t_xmin == xid)
        then (ok tt, (m, heap))
        else (attempt (rewrite_tuple heap tid (with_xmax tuple xid)) (m, heap)
            λ page. (ok tt, log_and_write m heap xid tid.page_no page))

unfoldable pub undo_delete :
    Manager → ℕ → HeapFile → Tid → Outcome TxnError (Unit {0}) × (Manager × HeapFile)
undo_delete m xid heap tid =
    attempt (map_err heap_error (Heap.get_tuple heap tid)) (m, heap)
      λ tuple.
        if not (tuple.header.t_xmax == xid)
        then (ok tt, (m, heap))
        else (attempt (rewrite_tuple heap tid (with_xmax tuple invalid_xid)) (m, heap)
            λ page. (ok tt, log_and_write m heap xid tid.page_no page))

abbrev pub after_delete :
    ℕ
    → List ℕ
    → Option (Outcome TxnError (Unit {0}) × (Manager × HeapFile))
    → Option (Outcome TxnError Tid × (Manager × HeapFile))
after_delete xid payload none = none
after_delete xid payload (some (ok done, (m, heap))) = some (insert_tuple m xid heap payload)
after_delete xid payload (some (err e, (m, heap))) = some (err e, (m, heap))
after_delete xid payload (some (Outcome.panic, (m, heap))) = some (Outcome.panic, (m, heap))

unfoldable pub update_tuple :
    ℕ → Manager → ℕ → HeapFile → Tid → List ℕ → Option (Outcome TxnError Tid × (Manager × HeapFile))
update_tuple fuel m xid heap tid payload =
    after_delete xid payload (delete_tuple fuel m xid heap tid)
