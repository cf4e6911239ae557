-- ===== src/Wal/Recovery.antt =====
-- crates/wal/src/recovery.rs without a checkpoint: the page images of the whole log are written to
-- the heap file. The records are read first and then applied, which comes to the same, since a
-- failing read ends the loop and nothing reads the file in between.
pub mod Redo
pub mod Tests
use icedb.Storage.Page
use icedb.Storage.Heap
use icedb.Base.{
  nat_key, zero, suc, [], ◌∷◌, none, some, true, false, inl, inr, ok, err, refl, arith, ◌>>=◌, ◌>>◌,
  ◌≡◌, ◌+◌, ℕ, List, if◌then◌else◌, ◌-◌, Option, Bool, ltb, Outcome, guard, length, ◌==◌, ◌%◌, ◌^◌,
}
use icedb.Storage.Heap.{allocate_page, num_pages, write_page, HeapFile}
use icedb.Wal.Record.{
  RecordType, WalRecord, page_image, WalError, invalid_lsn, corrupt_record, page_image_length,
}
use icedb.Wal.Reader.{ReadEnd, read_all, failed, end_of_log, panicked, out_of_fuel}
use icedb.Storage.Page.{page_size}

-- The loop `while heap.num_pages() < required`, in the rounds that it needs.
unfoldable pub extend : ℕ → ℕ → HeapFile → HeapFile
extend zero required h = h
extend (suc rounds) required h =
    let rest = extend rounds required (allocate_page h).1 in
    if ltb (num_pages h) required then rest else h

unfoldable pub ensure_pages : ℕ → HeapFile → HeapFile
ensure_pages required h = extend (required - num_pages h) required h

abbrev pub is_page_image : RecordType → Bool
is_page_image page_image = true
is_page_image _ = false

-- The `match` on the record's type.
unfoldable pub redo_record : HeapFile → WalRecord → Outcome WalError HeapFile
redo_record h r =
    if is_page_image r.record_type
    then guard (length r.payload == page_size)
        (corrupt_record r.lsn (page_image_length (length r.payload)))
      >> ok (
          write_page (ensure_pages ((r.page_no + 1) % 2 ^ 32) h) r.page_no
            (record { bytes = r.payload }))
    else ok h

abbrev pub last_outcome : ReadEnd → ℕ → Option (Outcome WalError ℕ)
last_outcome end_of_log last_lsn = some (ok last_lsn)
last_outcome (failed e) last_lsn = some (err e)
last_outcome panicked last_lsn = some Outcome.panic
last_outcome out_of_fuel last_lsn = none

-- The records that were read, how the reading ended, and the last LSN so far.
unfoldable pub redo_all :
    List WalRecord → ReadEnd → HeapFile → ℕ → Option (Outcome WalError ℕ) × HeapFile
redo_all [] end h last_lsn = (last_outcome end last_lsn, h)
redo_all (r ∷ rs) end h last_lsn = elim (redo_record h r) [
  | ok h' ↦ redo_all rs end h' r.lsn
  | err e ↦ (some (err e), h)
  | Outcome.panic ↦ (some Outcome.panic, h)
]

-- `none` means that the fuel of the loop over the log ran out.
unfoldable pub recover : ℕ → List (List ℕ) → HeapFile → Option (Outcome WalError ℕ) × HeapFile
recover fuel log h = let (records, end) = read_all fuel log in redo_all records end h invalid_lsn
