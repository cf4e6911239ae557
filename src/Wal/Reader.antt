-- ===== src/Wal/Reader.antt =====
-- crates/wal/src/reader.rs, reading from the start of the log (`start_lsn` = 0): the bytes of the
-- segments in order. A reader is what is left of the segment that it reads, and the later segments.
-- After an error no caller reads on, so the position behind an error is not kept.
use icedb.Base.{
  ℕ, zero, suc, Option, none, some, List, [], ◌∷◌, length, take, drop, slice, from_le, ltb,
  if◌then◌else◌, Outcome, ok, err, ◌>>=◌,
}
use icedb.Wal.Record.{WalRecord, WalError, corrupt_record, total_len_too_small, invalid_lsn, decode}

-- `read_one_record_with_crc`: `none` is the end of the file, also in the middle of a record.
unfoldable pub read_one_record : List ℕ → Outcome WalError (Option WalRecord × List ℕ)
read_one_record bytes =
    if ltb (length bytes) 4
    then ok (none, [])
    else let total_len = from_le (slice bytes 0 4) in
      if ltb total_len 4
      then err (corrupt_record invalid_lsn (total_len_too_small total_len))
      else if ltb (length bytes) total_len
      then ok (none, [])
      else decode (take total_len bytes) >>= λ r. ok (some r, drop total_len bytes)

-- The record, or the next one in the segments that follow.
abbrev pub found_or :
    Outcome WalError (Option WalRecord × List (List ℕ))
    → List (List ℕ)
    → Option WalRecord × List ℕ
    → Outcome WalError (Option WalRecord × List (List ℕ))
found_or later segments (none, rest) = later
found_or later segments (some r, rest) = ok (some r, rest ∷ segments)

-- `next_record`: at the end of a segment the loop goes on with the next one.
unfoldable pub next_record : List (List ℕ) → Outcome WalError (Option WalRecord × List (List ℕ))
next_record [] = ok (none, [])
next_record (segment ∷ segments) =
    let later = next_record segments in read_one_record segment >>= found_or later segments

-- How a loop over `next_record` ends.
pub data ReadEnd : Type 0 where
  end_of_log : ReadEnd
  failed : WalError → ReadEnd
  panicked : ReadEnd
  out_of_fuel : ReadEnd

-- The loop `while let Some(record) = reader.next_record()?`, one unit of fuel for each record and
-- one for the end: the records, and how it ended.
unfoldable pub read_all : ℕ → List (List ℕ) → List WalRecord × ReadEnd
read_all zero reader = ([], out_of_fuel)
read_all (suc fuel) reader = elim (next_record reader) [
  | ok (none, reader') ↦ ([], end_of_log)
  | ok (some r, reader') ↦ (r ∷ (read_all fuel reader').0, (read_all fuel reader').1)
  | err e ↦ ([], failed e)
  | Outcome.panic ↦ ([], panicked)
]
