-- ===== src/Txn/Manager/Tuples/Soft.antt =====
-- Soft deletion of a tuple, and its undoing at a rollback to a savepoint.
use icedb.Storage.Heap
use icedb.Wal.Writer
use icedb.Base.{
  nat_key, suc, none, some, inl, inr, ok, refl, arith, ◌≡◌, ℕ, ◌<◌, ◌^◌, ◌⊎◌, true, false, ◌==◌,
  ◌≢◌, List, contains, ap, sym, ◌∙◌,
}
use icedb.Storage.Tuple.RoundTrip.{IsWellFormed}
use icedb.Storage.Heap.Pages.{IsSound}
use icedb.Txn.Manager.Tuples.{
  delete_tuple, log_and_write, soft_delete, with_xmax, page_image_entry, track_write, undo_delete,
}
use icedb.Storage.Heap.{write_page, HeapFile}
use icedb.Storage.Tuple.{Tuple, Tid}
use icedb.Txn.Manager.{Manager}
use icedb.Txn.Lock.Laws.{acquire_write_lock_total, IsIdle, holder_of}
use icedb.Storage.Page.{Page}
use icedb.Txn.Manager.Tuples.Rewrite.{rewrite_tuple-IsRewritten, IsRewritten}
use icedb.Txn.Lock.{LockState}
use icedb.Txn.Snapshot.{is_tuple_visible, Snapshot, xid_is_visible}
use icedb.Txn.Xid.{invalid_xid}

-- The manager can lock the tuple for `xid`, and the tuple is there with a well-formed header.
pub record MayDelete (m : Manager) (xid : ℕ) (h : HeapFile) (tid : Tid) (t : Tuple) : Type 0 where
  pub idle : IsIdle m.locks
  pub free : (holder_of m.locks tid ≡ none) ⊎ (holder_of m.locks tid ≡ some xid)
  pub sound : IsSound h
  pub found : Heap.get_tuple h tid ≡ ok t
  pub well : IsWellFormed t.header
  pub in_range : xid < 2 ^ 32

with_xmax-IsWellFormed :
    (t : Tuple) (x : ℕ) → IsWellFormed t.header → x < 2 ^ 32 → IsWellFormed (with_xmax t x).header
with_xmax-IsWellFormed t x w below = record {
  xmin = w.xmin;
  xmax = below;
  cid = w.cid;
  ctid_page = w.ctid_page;
  ctid_slot = w.ctid_slot;
  infomask = w.infomask;
  hoff = w.hoff;
  behind = w.behind;
}

-- What a soft deletion leaves: the tuple with `t_xmax` set, every tuple apart from it as before, the lock
-- with the transaction, and the image of the new page as the last record of the log.
pub record IsSoftDeleted (m m' : Manager) (xid : ℕ) (h h' : HeapFile) (tid : Tid) (t : Tuple)
    : Type 0 where
  pub page : Page
  pub rewritten : IsRewritten h h' tid (with_xmax t xid)
  pub locked : holder_of m'.locks tid ≡ some xid
  pub written : h' ≡ write_page h tid.page_no page
  pub logged : m'.wal ≡ Writer.append m.wal (page_image_entry xid tid.page_no page)

abbrev deleter : Manager → LockState → HeapFile → ℕ → Tid → Page → Manager
deleter m locks h xid tid page =
    track_write (log_and_write (record m { locks = locks }) h xid tid.page_no page).0 xid tid

-- On a sound file, with a free lock and a tuple with a well-formed header, `delete_tuple` of the manager
-- succeeds with one round of fuel: the tuple still reads, with `t_xmax` set, every tuple apart from it reads
-- as before, the transaction has the lock, and the image of the page that is written is in the log.
pub delete_tuple-IsSoftDeleted :
    (fuel : ℕ) (m : Manager) (xid : ℕ) (h : HeapFile) (tid : Tid) (t : Tuple)
    → MayDelete m xid h tid t
    → (m' : Manager) × (h' : HeapFile) × (delete_tuple (suc fuel) m xid h tid
        ≡ some (ok tt, (m', h')))
      × IsSoftDeleted m m' xid h h' tid t
unfolding delete_tuple soft_delete
delete_tuple-IsSoftDeleted fuel m xid h tid t may =
    elim (acquire_write_lock_total fuel m.locks xid tid may.idle) [
      | inr (holder, s', e, idle, other, ne, same) ↦ absurd (ground (arith, other, ne, may.free))
      | inl (s', e, idle, was, now) ↦
          let (page, done, rewritten) =
            rewrite_tuple-IsRewritten may.sound tid t (with_xmax t xid) may.found
              (with_xmax-IsWellFormed t xid may.well may.in_range) refl refl in
          (
            deleter m s' h xid tid page,
            write_page h tid.page_no page,
            rw (e, may.found, done) refl,
            record {
              page = page;
              rewritten = rewritten;
              locked = ground (arith, now tid);
              written = refl;
              logged = refl;
            },
          )
    ]

-- What `undo_delete` leaves, and what it does to the lock table and the log.
pub record IsRestored (m m' : Manager) (xid : ℕ) (h h' : HeapFile) (tid : Tid) (t : Tuple)
    : Type 0 where
  pub page : Page
  pub rewritten : IsRewritten h h' tid (with_xmax t invalid_xid)
  pub written : h' ≡ write_page h tid.page_no page
  pub state : m' ≡ (log_and_write m h xid tid.page_no page).0

undo_delete-IsRestored :
    (m : Manager) (xid : ℕ) (h : HeapFile) (tid : Tid) (t : Tuple)
    → IsSound h
    → Heap.get_tuple h tid ≡ ok t
    → IsWellFormed t.header
    → t.header.t_xmax ≡ xid
    → (m' : Manager) × (h' : HeapFile) × (undo_delete m xid h tid ≡ (ok tt, (m', h')))
      × IsRestored m m' xid h h' tid t
unfolding undo_delete
undo_delete-IsRestored m xid h tid t v found well mine =
    let (page, done, rewritten) =
      rewrite_tuple-IsRewritten v tid t (with_xmax t invalid_xid) found
        (with_xmax-IsWellFormed t invalid_xid well (omega arith)) refl refl in
    let same : (t.header.t_xmax == xid) ≡ true = ground (arith, mine) in
    (
      (log_and_write m h xid tid.page_no page).0,
      (log_and_write m h xid tid.page_no page).1,
      rw (found, same, done) refl,
      record { page = page; rewritten = rewritten; written = refl; state = refl },
    )

-- A tuple that nobody deleted, soft-deleted by a transaction and restored by its rollback to a savepoint,
-- reads as it did at first, and the file is sound. The lock stays with the transaction.
pub undo_delete-delete_tuple :
    (fuel : ℕ) (m : Manager) (xid : ℕ) (h : HeapFile) (tid : Tid) (t : Tuple)
    → MayDelete m xid h tid t
    → t.header.t_xmax ≡ invalid_xid
    → (m1 m2 : Manager) × (h1 h2 : HeapFile) × (delete_tuple (suc fuel) m xid h tid
        ≡ some (ok tt, (m1, h1)))
      × (undo_delete m1 xid h1 tid ≡ (ok tt, (m2, h2)))
      × IsSound h2
      × (Heap.get_tuple h2 tid ≡ ok t)
      × (holder_of m2.locks tid ≡ some xid)
undo_delete-delete_tuple fuel m xid h tid t may unset =
    let (m1, h1, done, s) = delete_tuple-IsSoftDeleted fuel m xid h tid t may in
    let (m2, h2, undone, r) =
      undo_delete-IsRestored m1 xid h1 tid (with_xmax t xid) s.rewritten.sound s.rewritten.stored
        (with_xmax-IsWellFormed t xid may.well may.in_range) refl in
    (
      m1,
      m2,
      h1,
      h2,
      done,
      undone,
      r.rewritten.sound,
      r.rewritten.stored
          ∙ ap ok (λ i. record t { header = record t.header { t_xmax = sym unset i } }),
      ap (λ (n : Manager). holder_of n.locks tid) r.state ∙ s.locked,
    )

-- A tuple whose deletion has committed, and is visible as a deletion, is not protected: a second
-- transaction that may lock it deletes it once more, and for every snapshot and committed set that
-- see the insertion and the first deletion but not the second transaction, the tuple that no one
-- could see is visible again.
pub committed_delete_lost :
    (fuel : ℕ) (m : Manager) (xid : ℕ) (h : HeapFile) (tid : Tid) (t : Tuple)
    → MayDelete m xid h tid t
    → xid ≢ invalid_xid
    → t.header.t_xmax ≢ invalid_xid
    → (s : Snapshot) (committed : List ℕ) → contains committed t.header.t_xmin ≡ true
    → xid_is_visible s t.header.t_xmin ≡ true
    → contains committed t.header.t_xmax ≡ true
    → xid_is_visible s t.header.t_xmax ≡ true
    → contains committed xid ≡ false
    → (m' : Manager) × (h' : HeapFile) × (t' : Tuple) × (delete_tuple (suc fuel) m xid h tid
        ≡ some (ok tt, (m', h')))
      × (Heap.get_tuple h' tid ≡ ok t')
      × (is_tuple_visible t.header s committed ≡ false)
      × (is_tuple_visible t'.header s committed ≡ true)
unfolding is_tuple_visible
committed_delete_lost fuel m xid h tid t may proper gone s committed a b c d e =
    let (m', h', done, r) = delete_tuple-IsSoftDeleted fuel m xid h tid t may in
    (
      m',
      h',
      with_xmax t xid,
      done,
      r.rewritten.stored,
      ground (arith, a, b, c, d, gone),
      ground (arith, a, b, e, proper),
    )
