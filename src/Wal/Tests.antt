-- ===== src/Wal/Tests.antt =====
-- Examples of records and logs: the theorems about them at concrete inputs.
use icedb.Wal.Log.Reopen.{reopened, reopen-lsns}
use icedb.Base.{
  All, List, length, ◌+◌, ◌≡◌, replicate, arith, length-replicate, ℕ, ◌∷◌, [], to_le, ◌<◌,
}
use icedb.Wal.Writer.{
  Entry, append_all, open_fresh, files, append, rotate_segment_if_needed, next_record_of,
}
use icedb.Wal.Record.{WalRecord, page_image, insert, commit, encode, encode_body}
use icedb.Wal.Reader.{read_all, end_of_log}
use icedb.Wal.Log.Torn.{
  torn_write, append_after_crash, read_all-torn_write, append_after_crash_lost,
}
use icedb.Wal.Log.Append.{EntryFits, numbered, read_all-append_all}
use icedb.Wal.Record.RoundTrip.{IsWellFormed, length-encode}

-- An insert of three bytes, the commit behind it, and a record that a crash cuts short.
abbrev entries : List Entry
entries =
    record { xid = 3; record_type = insert; page_no = 0; payload = 1 ∷ 2 ∷ 3 ∷ [] }
    ∷ record { xid = 3; record_type = commit; page_no = 0; payload = [] }
    ∷ []

entries-fit : All EntryFits entries
entries-fit = (
  record { xid = omega arith; page_no = omega arith; total = omega arith },
  (record { xid = omega arith; page_no = omega arith; total = omega arith }, tt),
)

abbrev cut_record : WalRecord
cut_record = record {
  lsn = 3;
  prev_lsn = 2;
  xid = 4;
  record_type = page_image;
  page_no = 1;
  payload = replicate 64 7;
}

length-cut : length cut_record.payload ≡ 64
length-cut = length-replicate {A = ℕ} 64 7

cut_record-IsWellFormed : IsWellFormed cut_record
cut_record-IsWellFormed = record {
  lsn = omega arith;
  prev_lsn = omega arith;
  xid = omega arith;
  page_no = omega arith;
  total = omega (arith, length-cut);
}

-- Segments of 40 bytes, so that the second entry starts a new one.
read_all-append_all_example :
    read_all (length entries + 1) (files (append_all (open_fresh 40) entries))
    ≡ (numbered 0 entries, end_of_log)
read_all-append_all_example = read_all-append_all 40 entries (omega arith) entries-fit

read_all-torn_write_example :
    read_all
      (length entries + 1)
      (files (torn_write (append_all (open_fresh 40) entries) 50 cut_record))
    ≡ (numbered 0 entries, end_of_log)
read_all-torn_write_example =
    read_all-torn_write 40 entries 50 cut_record (omega arith) entries-fit cut_record-IsWellFormed
      (omega (arith, length-encode cut_record, length-cut))

reopen-lsns_example :
    ((reopened (append_all (open_fresh 40) entries)).current_lsn ≡ length entries)
    × ((append_all (open_fresh 40) entries).current_lsn ≡ length entries)
    × ((reopened (append_all (open_fresh 40) entries)).prev_lsn + 1 ≡ length entries)
    × ((append_all (open_fresh 40) entries).prev_lsn ≡ length entries)
reopen-lsns_example = reopen-lsns 40 entries (omega arith) (omega arith) entries-fit

-- The entry that the next session appends behind the cut record.
abbrev late_entry : Entry
late_entry = record { xid = 5; record_type = commit; page_no = 0; payload = [] }

-- In one segment of a kilobyte the log and the first 50 bytes of the record take 127 bytes.
short_file :
    length (torn_write (append_all (open_fresh 1000) entries) 50 cut_record).current_file < 1000
unfolding replicate torn_write append_all open_fresh append rotate_segment_if_needed encode
    encode_body to_le next_record_of
short_file = omega arith

append_after_crash_lost_example :
    read_all (length entries + 1) (
      files (
        append_after_crash
          (torn_write (append_all (open_fresh 1000) entries) 50 cut_record)
          late_entry))
    ≡ (numbered 0 entries, end_of_log)
append_after_crash_lost_example =
    append_after_crash_lost 1000 entries 50 cut_record late_entry (omega arith) entries-fit
      cut_record-IsWellFormed (omega arith) (omega (arith, length-encode cut_record, length-cut))
      short_file
