-- ===== src/Wal/Recovery/Tests.antt =====
-- Examples of a recovery: the theorem about it at a concrete log.
use icedb.Storage.Page
use icedb.Base.{
  nat_key, [], ◌∷◌, some, ok, arith, ◌≡◌, List, ℕ, length-replicate, replicate, get_elem?,
}
use icedb.Wal.Log.Append.{EntryFits}
use icedb.Wal.Record.RoundTrip.{IsWellFormed, length-encode}
use icedb.Wal.Record.{commit, WalRecord, page_image}
use icedb.Storage.Page.{Page, update_checksum, page_size}
use icedb.Storage.Heap.{HeapFile}
use icedb.Wal.Recovery.{recover}
use icedb.Wal.Writer.{Entry, files, append_all, open_fresh}
use icedb.Wal.Log.Torn.{torn_write}
use icedb.Wal.Recovery.Redo.{after_images, recover-torn_write, ImageFits}

-- Two images of page 1, which the file does not have yet, and a commit.
abbrev image : ℕ → Entry
image byte = record {
  xid = 3;
  record_type = page_image;
  page_no = 1;
  payload = replicate page_size byte;
}

abbrev log_entries : List Entry
log_entries =
    image 7 ∷ image 8 ∷ record { xid = 3; record_type = commit; page_no = 0; payload = [] } ∷ []

image-EntryFits : (byte : ℕ) → EntryFits (image byte)
image-EntryFits byte = record {
  xid = omega arith;
  page_no = omega arith;
  total = omega (arith, length-replicate {A = ℕ} page_size byte);
}

image-ImageFits : (byte : ℕ) → ImageFits (image byte)
image-ImageFits byte e = (length-replicate page_size byte, omega arith)

commit-EntryFits : EntryFits (record { xid = 3; record_type = commit; page_no = 0; payload = [] })
commit-EntryFits = record { xid = omega arith; page_no = omega arith; total = omega arith }

abbrev one_page : HeapFile
one_page = record { pages = update_checksum Page.new ∷ [] }

-- The record that the crash cuts.
abbrev cut_record : WalRecord
cut_record = record {
  lsn = 4;
  prev_lsn = 3;
  xid = 5;
  record_type = commit;
  page_no = 0;
  payload = [];
}

cut_record-IsWellFormed : IsWellFormed cut_record
cut_record-IsWellFormed = record {
  lsn = omega arith;
  prev_lsn = omega arith;
  xid = omega arith;
  page_no = omega arith;
  total = omega arith;
}

recover-torn_write_example :
    (h' : HeapFile) × (recover 4
        (files (torn_write (append_all (open_fresh 40) log_entries) 9 cut_record))
        one_page
      ≡ (some (ok 3), h'))
    × ((q : ℕ) (p : Page)
        → after_images q log_entries (get_elem? one_page.pages q) ≡ some p
        → get_elem? h'.pages q ≡ some p)
recover-torn_write_example =
    recover-torn_write 40 log_entries 9 cut_record one_page (omega arith)
      (image-EntryFits 7, (image-EntryFits 8, (commit-EntryFits, tt)))
      (image-ImageFits 7, (image-ImageFits 8, ((λ e. absurd (ground arith)), tt)))
      cut_record-IsWellFormed (omega (arith, length-encode cut_record)) (omega arith)
