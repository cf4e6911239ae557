-- ===== src/Wal/Log/Torn.antt =====
-- A write that a crash cuts short, and what a later session appends behind it.
use icedb.Base.{
  ℕ, suc, ◌+◌, ◌^◌, ◌≤◌, ◌<◌, ◌≡◌, refl, sym, ap, ◌∙◌, List, [], ◌∷◌, ◌++◌, append_assoc,
  append-nil, arith, length, length-append, length-take, take, slice, from_le, All, nat_key,
}
use native.Mathlib.Decide.{dec_lt}
use icedb.Wal.Record.{WalRecord, encode, fixed_header_len, crc_len}
use icedb.Wal.Record.RoundTrip.{IsWellFormed, length-encode, total_len-encode}
use icedb.Wal.Reader.{read_one_record, read_all, end_of_log}
use icedb.Wal.Writer.{
  Writer, Entry, files, rotate_segment_if_needed, next_record_of, append, append_all, open_fresh,
  reopen,
}
use icedb.Wal.Log.Holds.{IsEnd, Holds, read_all-Holds}
use icedb.Wal.Log.Append.{
  EntryFits, numbered, length-numbered, segment_size-append_all, log-IsAt, tail-Holds,
  rotate-Written,
}

-- The crash leaves the first `n` bytes of the record `r` at the end of the segment that `append_inner`
-- writes it to, which is a new one where the current one is full.
unfoldable pub torn_write : Writer → ℕ → WalRecord → Writer
torn_write w n r =
    let v = rotate_segment_if_needed w in
    record v { current_file = v.current_file ++ take n (encode r) }

-- A prefix of at least four bytes shows the record's length.
take_four :
    (n : ℕ) (bytes more : List ℕ)
    → 4 ≤ n
    → 4 ≤ length bytes
    → slice (take n bytes ++ more) 0 4 ≡ slice bytes 0 4
unfolding slice
take_four (suc (suc (suc (suc n)))) (a ∷ b ∷ c ∷ d ∷ bytes) more h k = refl
take_four n bytes more h k = absurd (omega arith)

prefix_total :
    (n : ℕ) (r : WalRecord) (more : List ℕ)
    → IsWellFormed r
    → 4 ≤ n
    → from_le (slice (take n (encode r) ++ more) 0 4) ≡ length (encode r)
prefix_total n r more w h =
    ap from_le (take_four n (encode r) more h (omega (arith, length-encode r)))
    ∙ ap (λ b. from_le (slice b 0 4)) (sym (append-nil (encode r)))
    ∙ total_len-encode r [] w
    ∙ sym (length-encode r)

-- A prefix of a record, with more bytes behind it that do not make up its length.
torn-IsEnd :
    (n : ℕ) (r : WalRecord) (more : List ℕ)
    → IsWellFormed r
    → 4 ≤ n
    → n + length more < length (encode r)
    → IsEnd (take n (encode r) ++ more)
unfolding read_one_record
torn-IsEnd n r more w h short = ground (
  arith,
  prefix_total n r more w h,
  length-append (take n (encode r)) more,
  length-take n (encode r),
)

prefix-IsEnd :
    (n : ℕ) (r : WalRecord) → IsWellFormed r → n < length (encode r) → IsEnd (take n (encode r))
unfolding read_one_record
prefix-IsEnd n r w short = elim (dec_lt n 4) [
  | yes few ↦ ground (arith, length-take n (encode r))
  | no many ↦ rw append-nil at (torn-IsEnd n r [] w (omega arith) (omega arith))
]

-- When a crash cuts the write of a record short, at whatever byte, reading the log returns every
-- entry appended before it, in order, and then the end of the log: no part of the record is taken
-- for a record, and the cut is no error.
pub read_all-torn_write :
    (size : ℕ) (es : List Entry) (n : ℕ) (r : WalRecord)
    → length es < 2 ^ 64
    → All EntryFits es
    → IsWellFormed r
    → n < length (encode r)
    → read_all (length es + 1) (files (torn_write (append_all (open_fresh size) es) n r))
      ≡ (numbered 0 es, end_of_log)
unfolding files torn_write
read_all-torn_write size es n r room fit w short =
    read_all-Holds
      (tail-Holds (take n (encode r)) (rotate-Written (log-IsAt size es room fit).written)
        (prefix-IsEnd n r w short))
      (length es + 1) (omega (arith, length-numbered 0 es))

-- The log directory after the crash is opened again, and one entry is appended.
unfoldable pub append_after_crash : Writer → Entry → Writer
append_after_crash w e = append (reopen w.closed w.current_file w.current_segment w.segment_size) e

append_room :
    (w : Writer) (e : Entry)
    → length w.current_file < w.segment_size
    → files (append w e)
      ≡ w.closed ++ ((w.current_file ++ encode (next_record_of w.current_lsn w.prev_lsn e)) ∷ [])
unfolding files append rotate_segment_if_needed
append_room w e room = ground arith

-- After a crash inside the write of a record, `WalWriter::open` appends behind the cut record. If
-- the cut left the record's length field whole, the file is still shorter than a segment, and the
-- bytes of the next entry do not make up for what is missing, then that entry, though it was written
-- and synced, is never read back.
pub append_after_crash_lost :
    (size : ℕ) (es : List Entry) (n : ℕ) (r : WalRecord) (e : Entry)
    → length es < 2 ^ 64
    → All EntryFits es
    → IsWellFormed r
    → 4 ≤ n
    → n + (fixed_header_len + length e.payload + crc_len) < length (encode r)
    → length (torn_write (append_all (open_fresh size) es) n r).current_file < size
    → read_all
        (length es + 1)
        (files (append_after_crash (torn_write (append_all (open_fresh size) es) n r) e))
      ≡ (numbered 0 es, end_of_log)
unfolding append_after_crash torn_write reopen open_fresh
append_after_crash_lost size es n r e room fit w h short no_rotation =
    read_all-Holds lost (length es + 1) (omega (arith, length-numbered 0 es))
  where
    log : Writer
    log = rotate_segment_if_needed (append_all (open_fresh size) es)

    log_size : log.segment_size ≡ size
    log_size =
        unfold rotate_segment_if_needed in
        ground (arith, segment_size-append_all es (open_fresh size))

    again : Writer
    again =
        reopen log.closed (log.current_file ++ take n (encode r)) log.current_segment
          log.segment_size

    new : WalRecord
    new = next_record_of again.current_lsn again.prev_lsn e

    new_length : length new.payload ≡ length e.payload
    new_length = unfold next_record_of in refl

    lost :
        Holds
          (files (append_after_crash (torn_write (append_all (open_fresh size) es) n r) e))
          (numbered 0 es)
    lost =
        rw (append_room again e (omega (arith, no_rotation, log_size)), append_assoc)
          (tail-Holds (take n (encode r) ++ encode new)
            (rotate-Written (log-IsAt size es room fit).written)
            (torn-IsEnd n r (encode new) w h (omega (arith, short, length-encode new, new_length))))
