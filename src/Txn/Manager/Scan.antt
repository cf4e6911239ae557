-- ===== src/Txn/Manager/Scan.antt =====
-- `scan_visible_tuples` and `committed_set` of crates/txn/src/manager.rs. The scan runs as one step,
-- with the committed set as it is at its start.
pub mod Reads
pub mod Rule
pub mod Visible
use icedb.Storage.Page
use icedb.Storage.Heap
use icedb.Storage.Tuple
use icedb.Base.{
  nat_key, zero, suc, [], ◌∷◌, none, some, true, false, inl, inr, ok, err, refl, arith, ◌>>=◌, ◌>>◌,
  ◌≡◌, ◌+◌, insert, Map, ℕ, List, Outcome, Option, lookup, if◌then◌else◌, Bool, map_err, ltb,
  length, ◌==◌, ◌++◌, not,
}
use icedb.Txn.Transaction.{Transaction, TxnError, is_serializable, heap_error}
use icedb.Storage.Heap.{read_page, attempt, HeapFile, num_pages}
use icedb.Storage.Tuple.{Tuple, decode_from, Tid, TupleError, TupleHeader, tuple_header_size}
use icedb.Storage.Page.{Page, num_slots}
use icedb.Txn.Manager.{Manager, current_snapshot}
use icedb.Txn.Snapshot.{Snapshot, is_tuple_visible}

-- A transaction sees what it inserted and has not deleted, and else what its snapshot shows.
unfoldable pub is_visible_to : ℕ → Snapshot → List ℕ → TupleHeader → Bool
is_visible_to xid snapshot committed header =
    if header.t_xmin == xid
    then not (header.t_xmax == xid)
    else if header.t_xmax == xid
    then false
    else is_tuple_visible header snapshot committed

abbrev pub tuple_or_skip : Outcome TupleError Tuple → Option Tuple
tuple_or_skip (ok t) = some t
tuple_or_skip _ = none

-- The body of the loop behind `get_tuple`; what does not decode is skipped.
unfoldable pub scan_bytes : ℕ → Snapshot → List ℕ → List ℕ → Option Tuple
scan_bytes xid snapshot committed bytes =
    if ltb (length bytes) tuple_header_size then none else elim (decode_from bytes) [
      | ok header ↦
          if is_visible_to xid snapshot committed header
          then tuple_or_skip (Tuple.decode bytes)
          else none
      | _ ↦ none
    ]

-- A dead slot, or one out of range, is skipped.
unfoldable pub scan_slot : ℕ → Snapshot → List ℕ → Page → ℕ → Outcome TxnError (Option Tuple)
scan_slot xid snapshot committed page slot = elim (Page.get_tuple page slot) [
  | ok bytes ↦ ok (scan_bytes xid snapshot committed bytes)
  | err e ↦ ok none
  | Outcome.panic ↦ Outcome.panic
]

abbrev pub push_found : Tid → Option Tuple → List (Tid × Tuple) → List (Tid × Tuple)
push_found tid none rest = rest
push_found tid (some t) rest = (tid, t) ∷ rest

-- The loop `for slot in 0..num_slots`, from `slot` on.
unfoldable pub scan_slots :
    ℕ → ℕ → Snapshot → List ℕ → Page → ℕ → ℕ → Outcome TxnError (List (Tid × Tuple))
scan_slots zero xid snapshot committed page page_no slot = ok []
scan_slots (suc rounds) xid snapshot committed page page_no slot =
    let later = scan_slots rounds xid snapshot committed page page_no (slot + 1) in
    scan_slot xid snapshot committed page slot >>= λ found.
    later >>= λ rest. ok (push_found (record { page_no = page_no; slot = slot }) found rest)

-- The loop `for page_no in 0..num_pages`, from `page_no` on.
unfoldable pub scan_pages :
    ℕ → ℕ → Snapshot → List ℕ → HeapFile → ℕ → Outcome TxnError (List (Tid × Tuple))
scan_pages zero xid snapshot committed heap page_no = ok []
scan_pages (suc rounds) xid snapshot committed heap page_no =
    let later = scan_pages rounds xid snapshot committed heap (page_no + 1) in
    map_err heap_error (read_page heap page_no) >>= λ page.
    scan_slots (num_slots page) xid snapshot committed page page_no 0 >>= λ here.
    later >>= λ rest. ok (here ++ rest)

unfoldable pub tids_of : List (Tid × Tuple) → List (ℕ × ℕ)
tids_of [] = []
tids_of ((tid, t) ∷ found) = (tid.page_no, tid.slot) ∷ tids_of found

-- SSI: a Serializable transaction remembers what it read.
unfoldable pub track_reads : Map ℕ Transaction → ℕ → List (Tid × Tuple) → Map ℕ Transaction
track_reads active xid found = elim (lookup xid active) [
  | none ↦ active
  | some txn ↦
      if is_serializable txn.isolation
      then insert xid (record txn { read_set = tids_of found ++ txn.read_set }) active
      else active
]

unfoldable pub scan_visible_tuples :
    Manager → ℕ → HeapFile → Outcome TxnError (List (Tid × Tuple)) × Manager
scan_visible_tuples m xid heap =
    let snapshot = current_snapshot m xid in
    attempt (scan_pages (num_pages heap) xid snapshot m.committed heap 0) m
      λ found. (ok found, record m { active = track_reads m.active xid found })

unfoldable pub committed_set : Manager → List ℕ
committed_set m = m.committed
