-- ===== src/Wal/Writer.antt =====
-- crates/wal/src/writer.rs. The log directory is the list of the segments' bytes, the last of which
-- is open at its end; writes and syncs succeed. LSNs wrap as `u64` values.
use icedb.Base.{
  ℕ, zero, suc, ◌+◌, ◌*◌, ◌%◌, ◌^◌, Option, none, some, List, [], ◌∷◌, ◌++◌, length, take, drop,
  slice, from_le, ltb, leb, if◌then◌else◌, Outcome, ok, err,
}
use icedb.Wal.Record.{WalRecord, RecordType, WalError, unexpected_eof, invalid_lsn, encode, decode}

-- 16 MiB
abbrev pub default_segment_size : ℕ
default_segment_size = 16 * 1024 * 1024

-- `Inner`. `closed` are the segments before the current one, oldest first.
pub record Writer : Type 0 where
  pub closed : List (List ℕ)
  pub current_file : List ℕ
  pub current_lsn : ℕ
  pub prev_lsn : ℕ
  pub current_segment : ℕ
  pub segment_size : ℕ

-- The bytes of all segments, in order.
unfoldable pub files : Writer → List (List ℕ)
files w = w.closed ++ (w.current_file ∷ [])

unfoldable pub rotate_segment_if_needed : Writer → Writer
rotate_segment_if_needed w =
    if leb w.segment_size (length w.current_file)
    then record w {
      closed = w.closed ++ (w.current_file ∷ []);
      current_file = [];
      current_segment = w.current_segment + 1;
    }
    else w

-- The arguments of one call of `append`.
pub record Entry : Type 0 where
  pub xid : ℕ
  pub record_type : RecordType
  pub page_no : ℕ
  pub payload : List ℕ

-- The record that `append_inner` writes behind the LSN `lsn`.
unfoldable pub next_record_of : ℕ → ℕ → Entry → WalRecord
next_record_of lsn prev_lsn e = record {
  lsn = (lsn + 1) % 2 ^ 64;
  prev_lsn = prev_lsn;
  xid = e.xid;
  record_type = e.record_type;
  page_no = e.page_no;
  payload = e.payload;
}

-- `append_inner`; the LSN that it returns is the new `current_lsn`.
unfoldable pub append : Writer → Entry → Writer
append w0 e =
    let w = rotate_segment_if_needed w0 in
    let r = next_record_of w.current_lsn w.prev_lsn e in
    record w {
      current_file = w.current_file ++ encode r;
      current_lsn = (w.current_lsn + 1) % 2 ^ 64;
      prev_lsn = (w.current_lsn + 1) % 2 ^ 64;
    }

unfoldable pub append_all : Writer → List Entry → Writer
append_all w [] = w
append_all w (e ∷ es) = append_all (append w e) es

-- `read_next_record_from`: unlike the reader, it takes a record that does not decode for the end.
unfoldable pub read_next_record_from : List ℕ → Outcome WalError (Option (WalRecord × List ℕ))
read_next_record_from bytes =
    if ltb (length bytes) 4
    then ok none
    else let total_len = from_le (slice bytes 0 4) in
      if ltb total_len 4
      then ok none
      else if ltb (length bytes) total_len
      then err unexpected_eof
      else elim (decode (take total_len bytes)) [
        | ok r ↦ ok (some (r, drop total_len bytes))
        | _ ↦ ok none
      ]

-- The loop over one segment, from the highest and the second-highest LSN so far.
unfoldable pub scan_segment : ℕ → List ℕ → ℕ × ℕ → ℕ × ℕ
scan_segment zero bytes lsns = lsns
scan_segment (suc fuel) bytes lsns = elim (read_next_record_from bytes) [
  | ok (some (r, rest)) ↦ scan_segment fuel rest (r.lsn, lsns.0)
  | _ ↦ lsns
]

-- The loop over the segments; a record takes a byte at least, so the fuel is enough.
unfoldable pub scan_segments : List (List ℕ) → ℕ × ℕ → ℕ × ℕ
scan_segments [] lsns = lsns
scan_segments (segment ∷ segments) lsns =
    scan_segments segments (scan_segment (suc (length segment)) segment lsns)

-- `WalWriter::open` on a directory without segments.
unfoldable pub open_fresh : ℕ → Writer
open_fresh segment_size = record {
  closed = [];
  current_file = [];
  current_lsn = invalid_lsn;
  prev_lsn = invalid_lsn;
  current_segment = 1;
  segment_size = segment_size;
}

-- `WalWriter::open` on a directory with the segments `closed` and, last, `current`, which is
-- written on from its end.
unfoldable pub reopen : List (List ℕ) → List ℕ → ℕ → ℕ → Writer
reopen closed current current_segment segment_size =
    let lsns = scan_segments (closed ++ (current ∷ [])) (invalid_lsn, invalid_lsn) in
    record {
      closed = closed;
      current_file = current;
      current_lsn = lsns.0;
      prev_lsn = lsns.1;
      current_segment = current_segment;
      segment_size = segment_size;
    }
