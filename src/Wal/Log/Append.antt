-- ===== src/Wal/Log/Append.antt =====
-- Appending entries to a new log, with any number of segment rotations.
use icedb.Base.{
  ℕ, suc, ◌+◌, ◌^◌, ◌<◌, ◌≡◌, refl, sym, ap, ◌∙◌, subst, inl, inr, List, [], ◌∷◌, ◌++◌, map,
  append_assoc, append-nil, arith, length, All, All-append, leb, Bool-cases, nat_key,
}
use mathlib.Core.List.{map-append}
use icedb.Wal.Record.{WalRecord, fixed_header_len, crc_len}
use icedb.Wal.Record.RoundTrip.{IsWellFormed}
use icedb.Wal.Reader.{read_all, end_of_log}
use icedb.Wal.Writer.{
  Writer, Entry, files, rotate_segment_if_needed, next_record_of, append, append_all, open_fresh,
}
use icedb.Wal.Log.Holds.{
  encodings, Holds, done, skip, IsEnd, read_all-Holds, Holds-encodings, nil-IsEnd,
}

abbrev pub concat : List (List WalRecord) → List WalRecord
concat [] = []
concat (c ∷ cs) = c ++ concat cs

encodings-append : (rs qs : List WalRecord) → encodings (rs ++ qs) ≡ encodings rs ++ encodings qs
encodings-append [] qs = refl
encodings-append (r ∷ rs) qs = rw (encodings-append rs qs, append_assoc)

concat-append : (cs ds : List (List WalRecord)) → concat (cs ++ ds) ≡ concat cs ++ concat ds
concat-append [] ds = refl
concat-append (c ∷ cs) ds = rw (concat-append cs ds, append_assoc)

-- The log holds the records `rs`: whole records in each closed segment and in the current one.
pub record Written (w : Writer) (rs : List WalRecord) : Type 0 where
  pub chunks : List (List WalRecord)
  pub last : List WalRecord
  pub closed : w.closed ≡ map encodings chunks
  pub current : w.current_file ≡ encodings last
  pub whole : rs ≡ concat chunks ++ last
  pub chunks_fit : All (All IsWellFormed) chunks
  pub last_fit : All IsWellFormed last

chunks-Holds :
    (cs : List (List WalRecord)) {segments : List (List ℕ)} {qs : List WalRecord}
    → All (All IsWellFormed) cs
    → Holds segments qs
    → Holds (map encodings cs ++ segments) (concat cs ++ qs)
chunks-Holds [] w h = h
chunks-Holds (c ∷ cs) {segments} {qs} w h =
    subst (λ (b : List ℕ). Holds (b ∷ (map encodings cs ++ segments)) ((c ++ concat cs) ++ qs))
      (append-nil (encodings c))
      (subst (Holds ((encodings c ++ []) ∷ (map encodings cs ++ segments)))
        (sym (append_assoc c (concat cs) qs))
        (Holds-encodings c [] w.0 (skip [] nil-IsEnd (chunks-Holds cs w.1 h))))

-- The bytes `tail` behind the log, if the reader takes them for its end.
pub tail-Holds :
    {w : Writer} {rs : List WalRecord} (tail : List ℕ)
    → Written w rs
    → IsEnd tail
    → Holds (w.closed ++ ((w.current_file ++ tail) ∷ [])) rs
tail-Holds {w} {rs} tail v e =
    rw (v.closed, v.current, v.whole)
      (chunks-Holds v.chunks v.chunks_fit (
        subst (Holds ((encodings v.last ++ tail) ∷ [])) (append-nil v.last)
          (Holds-encodings v.last tail v.last_fit (skip tail e done))))

pub rotate-Written :
    {w : Writer} {rs : List WalRecord} → Written w rs → Written (rotate_segment_if_needed w) rs
unfolding rotate_segment_if_needed
rotate-Written {w} {rs} v = elim (Bool-cases (leb w.segment_size (length w.current_file))) [
  | inl full ↦ rw full (record {
    chunks = v.chunks ++ (v.last ∷ []);
    last = [];
    closed = rw (v.closed, v.current, map-append);
    current = refl;
    whole = v.whole ∙ rw (concat-append v.chunks (v.last ∷ []), append-nil, append-nil);
    chunks_fit = All-append (All IsWellFormed) v.chunks (v.last ∷ []) v.chunks_fit (v.last_fit, tt);
    last_fit = tt;
  })
  | inr room ↦ rw room v
]

rotate-lsns :
    (w : Writer)
    → ((rotate_segment_if_needed w).current_lsn ≡ w.current_lsn)
      × ((rotate_segment_if_needed w).prev_lsn ≡ w.prev_lsn)
unfolding rotate_segment_if_needed
rotate-lsns w = ground arith

append-Written :
    {w : Writer} {rs : List WalRecord} (e : Entry)
    → Written w rs
    → IsWellFormed (next_record_of w.current_lsn w.prev_lsn e)
    → Written (append w e) (rs ++ (next_record_of w.current_lsn w.prev_lsn e ∷ []))
unfolding append
append-Written {w} {rs} e v fit =
    let v' = rotate-Written v in
    let r = next_record_of w.current_lsn w.prev_lsn e in
    record {
      chunks = v'.chunks;
      last = v'.last ++ (r ∷ []);
      closed = v'.closed;
      current = rw ((rotate-lsns w).0, (rotate-lsns w).1, v'.current, encodings-append, append-nil);
      whole = rw (v'.whole, append_assoc);
      chunks_fit = v'.chunks_fit;
      last_fit = All-append IsWellFormed v'.last (r ∷ []) v'.last_fit (fit, tt);
    }

-- The fields of an entry fit their widths.
pub record EntryFits (e : Entry) : Type 0 where
  pub xid : e.xid < 2 ^ 32
  pub page_no : e.page_no < 2 ^ 32
  pub total : fixed_header_len + length e.payload + crc_len < 2 ^ 32

-- The records that entries become: numbered one by one, each with its predecessor's number.
abbrev pub numbered : ℕ → List Entry → List WalRecord
numbered n [] = []
numbered n (e ∷ es) =
    record {
      lsn = n + 1;
      prev_lsn = n;
      xid = e.xid;
      record_type = e.record_type;
      page_no = e.page_no;
      payload = e.payload;
    }
    ∷ numbered (n + 1) es

pub length-numbered : (n : ℕ) (es : List Entry) → length (numbered n es) ≡ length es
length-numbered n [] = refl
length-numbered n (e ∷ es) = ap suc (length-numbered (n + 1) es)

-- A log whose last record has the number `n`.
pub record IsAt (w : Writer) (rs : List WalRecord) (n : ℕ) : Type 0 where
  pub written : Written w rs
  pub lsn : w.current_lsn ≡ n
  pub prev : w.prev_lsn ≡ n

append-IsAt :
    {w : Writer} {rs : List WalRecord} {n : ℕ} (e : Entry)
    → IsAt w rs n
    → n + 1 < 2 ^ 64
    → EntryFits e
    → IsAt (append w e) (rs ++ numbered n (e ∷ [])) (n + 1)
append-IsAt {w} {rs} {n} e v room fit = record {
  written =
      subst (λ (q : WalRecord). Written (append w e) (rs ++ (q ∷ []))) same
        (append-Written e v.written well);
  lsn = unfold append in omega (arith, (rotate-lsns w).0, v.lsn);
  prev = unfold append in omega (arith, (rotate-lsns w).0, v.lsn);
}
  where
    same : next_record_of w.current_lsn w.prev_lsn e ≡ record {
      lsn = n + 1;
      prev_lsn = n;
      xid = e.xid;
      record_type = e.record_type;
      page_no = e.page_no;
      payload = e.payload;
    }
    same = unfold next_record_of in ground (arith, v.lsn, v.prev, room)

    well : IsWellFormed (next_record_of w.current_lsn w.prev_lsn e)
    well = unfold next_record_of in omega (arith, v.lsn, v.prev, fit)

IsAt-cast :
    {w : Writer} {rs qs : List WalRecord} {n m : ℕ} → n ≡ m → rs ≡ qs → IsAt w rs n → IsAt w qs m
IsAt-cast {w} {rs} {qs} {n} {m} e f v =
    subst (λ (l : List WalRecord). IsAt w l m) f (subst (IsAt w rs) e v)

append_all-IsAt :
    (es : List Entry) {w : Writer} {rs : List WalRecord} {n : ℕ}
    → IsAt w rs n
    → n + length es < 2 ^ 64
    → All EntryFits es
    → IsAt (append_all w es) (rs ++ numbered n es) (n + length es)
unfolding append_all
append_all-IsAt [] {w} {rs} {n} v room fit = IsAt-cast (omega arith) (sym (append-nil rs)) v
append_all-IsAt (e ∷ es) {w} {rs} {n} v room fit =
    IsAt-cast (omega arith) (append_assoc rs (numbered n (e ∷ [])) (numbered (n + 1) es))
      (append_all-IsAt es (append-IsAt e v (omega arith) fit.0) (omega arith) fit.1)

pub segment_size-append_all :
    (es : List Entry) (w : Writer) → (append_all w es).segment_size ≡ w.segment_size
unfolding append_all append rotate_segment_if_needed
segment_size-append_all [] w = refl
segment_size-append_all (e ∷ es) w = segment_size-append_all es (append w e) ∙ ground arith

pub log-IsAt :
    (size : ℕ) (es : List Entry)
    → length es < 2 ^ 64
    → All EntryFits es
    → IsAt (append_all (open_fresh size) es) (numbered 0 es) (length es)
unfolding open_fresh
log-IsAt size es room fit =
    IsAt-cast (omega arith) refl (append_all-IsAt es fresh (omega arith) fit)
  where
    fresh : IsAt (open_fresh size) [] 0
    fresh = record {
      written = record {
        chunks = [];
        last = [];
        closed = refl;
        current = refl;
        whole = refl;
        chunks_fit = tt;
        last_fit = tt;
      };
      lsn = refl;
      prev = refl;
    }

-- Reading a log from its start returns every entry that was appended to it, in order, with the
-- LSNs 1, 2, 3, … and each record's `prev_lsn` one below its own, and then the end of the log,
-- however often the writer rotated to a new segment.
pub read_all-append_all :
    (size : ℕ) (es : List Entry)
    → length es < 2 ^ 64
    → All EntryFits es
    → read_all (length es + 1) (files (append_all (open_fresh size) es))
      ≡ (numbered 0 es, end_of_log)
unfolding files
read_all-append_all size es room fit =
    read_all-Holds whole (length es + 1) (omega (arith, length-numbered 0 es))
  where
    whole : Holds (files (append_all (open_fresh size) es)) (numbered 0 es)
    whole = rw append-nil at (tail-Holds [] (log-IsAt size es room fit).written nil-IsEnd)
