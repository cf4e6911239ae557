-- ===== src/Wal/Log/Reopen.antt =====
-- What `WalWriter::open` finds in the segments of an earlier session.
use icedb.Base.{
  ℕ, zero, suc, ◌+◌, ◌-◌, ◌^◌, ◌<◌, ◌≡◌, ap, ◌∙◌, some, List, [], ◌∷◌, ◌++◌, map, append-nil, arith,
  length, length-append, take, take-append, drop-append, All, ok,
}
use mathlib.Core.List.{foldl, foldl-append}
use icedb.Wal.Record.{WalRecord, encode, decode, invalid_lsn}
use icedb.Wal.Record.RoundTrip.{IsWellFormed, length-encode, total_len-encode, decode-encode}
use icedb.Wal.Writer.{
  Writer, Entry, read_next_record_from, scan_segment, scan_segments, append_all, open_fresh, reopen,
}
use icedb.Wal.Log.Holds.{encodings}
use icedb.Wal.Log.Append.{EntryFits, numbered, concat, Written, log-IsAt}

read_next-encode :
    (r : WalRecord) (rest : List ℕ)
    → IsWellFormed r
    → read_next_record_from (encode r ++ rest) ≡ ok (some (r, rest))
unfolding read_next_record_from
read_next-encode r rest w = ground (
  arith,
  total_len-encode r rest w,
  length-append (encode r) rest,
  length-encode r,
  whole,
  drop-append (encode r) rest,
)
  where
    whole : decode (take (length (encode r)) (encode r ++ rest)) ≡ ok r
    whole = rw take-append (rw append-nil at (decode-encode r [] w))

-- One round of the scan.
abbrev bump : ℕ × ℕ → WalRecord → ℕ × ℕ
bump lsns r = (r.lsn, lsns.0)

scan_segment-encodings :
    (rs : List WalRecord) (fuel : ℕ) (lsns : ℕ × ℕ)
    → All IsWellFormed rs
    → length (encodings rs) < fuel
    → scan_segment fuel (encodings rs) lsns ≡ foldl bump lsns rs
unfolding scan_segment
scan_segment-encodings rs zero lsns w h = absurd (omega arith)
scan_segment-encodings [] (suc fuel) lsns w h = unfold read_next_record_from in ground arith
scan_segment-encodings (r ∷ rs) (suc fuel) lsns w h =
    rw (read_next-encode r (encodings rs) w.0, scan_segment)
      (scan_segment-encodings rs fuel (r.lsn, lsns.0) w.1
        (omega (arith, length-append (encode r) (encodings rs), length-encode r)))

scan_segments-chunks :
    (cs : List (List WalRecord)) (last : List WalRecord) (lsns : ℕ × ℕ)
    → All (All IsWellFormed) cs
    → All IsWellFormed last
    → scan_segments (map encodings cs ++ (encodings last ∷ [])) lsns
      ≡ foldl bump lsns (concat cs ++ last)
unfolding scan_segments
scan_segments-chunks [] last lsns w wl =
    scan_segment-encodings last (suc (length (encodings last))) lsns wl (omega arith)
scan_segments-chunks (c ∷ cs) last lsns w wl =
    ap (scan_segments (map encodings cs ++ (encodings last ∷ [])))
      (scan_segment-encodings c (suc (length (encodings c))) lsns w.0 (omega arith))
    ∙ scan_segments-chunks cs last (foldl bump lsns c) w.1 wl
    ∙ simp foldl-append

fold-numbered :
    (es : List Entry) (n : ℕ)
    → foldl bump (n, n - 1) (numbered n es) ≡ (n + length es, n + length es - 1)
fold-numbered [] n = ground arith
fold-numbered (e ∷ es) n =
    ap (λ (k : ℕ). foldl bump (n + 1, k) (numbered (n + 1) es)) (omega arith)
    ∙ fold-numbered es (n + 1)
    ∙ ground arith

scan-Written :
    {w : Writer} {rs : List WalRecord}
    → Written w rs
    → scan_segments (w.closed ++ (w.current_file ∷ [])) (invalid_lsn, invalid_lsn)
      ≡ foldl bump (invalid_lsn, invalid_lsn) rs
scan-Written v =
    rw (v.closed, v.current, v.whole)
      (scan_segments-chunks v.chunks v.last (invalid_lsn, invalid_lsn) v.chunks_fit v.last_fit)

-- The writer that `WalWriter::open` makes of the directory that `w` leaves.
unfoldable pub reopened : Writer → Writer
reopened w = reopen w.closed w.current_file w.current_segment w.segment_size

-- Opening a cleanly written log again restores the LSN counter, so numbering goes on where it
-- stopped; but `prev_lsn` becomes the LSN before the last one, where the session that wrote the
-- log, had it gone on, would use the last one. This holds for every log with at least one entry.
pub reopen-lsns :
    (size : ℕ) (es : List Entry)
    → 0 < length es
    → length es < 2 ^ 64
    → All EntryFits es
    → ((reopened (append_all (open_fresh size) es)).current_lsn ≡ length es)
      × ((append_all (open_fresh size) es).current_lsn ≡ length es)
      × ((reopened (append_all (open_fresh size) es)).prev_lsn + 1 ≡ length es)
      × ((append_all (open_fresh size) es).prev_lsn ≡ length es)
unfolding reopened reopen
reopen-lsns size es some_entry room fit =
    let at = log-IsAt size es room fit in
    let found = scan-Written at.written ∙ fold-numbered es 0 in
    (ground (arith, found), at.lsn, ground (arith, found), at.prev)
