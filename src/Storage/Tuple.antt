-- ===== src/Storage/Tuple.antt =====
-- crates/storage/src/tuple.rs, tid.rs and the tuple errors of error.rs: the header that stands in
-- front of each stored row, and the bytes of a tuple. A `u8` read by index is in range wherever the
-- code reads it, so the default of `get_or` is never used.
pub mod RoundTrip
use icedb.Base.{
  ℕ, ◌-◌, List, [], ◌∷◌, ◌++◌, length, get_or, drop, replicate, slice, to_le, from_le, leb, Outcome,
  ok, ◌>>=◌, ◌>>◌, guard,
}

-- `TID`
pub record Tid : Type 0 where
  pub page_no : ℕ
  pub slot : ℕ

pub data TupleError : Type 0 where
  too_short : ℕ → ℕ → TupleError

abbrev pub heap_xmax_invalid : ℕ
heap_xmax_invalid = 0x0800

abbrev pub tuple_header_size : ℕ
tuple_header_size = 22

abbrev pub tuple_hoff : ℕ
tuple_hoff = 24

pub record TupleHeader : Type 0 where
  pub t_xmin : ℕ
  pub t_xmax : ℕ
  pub t_cid : ℕ
  pub t_ctid_page : ℕ
  pub t_ctid_slot : ℕ
  pub t_infomask : ℕ
  pub t_hoff : ℕ
  pub t_bits : ℕ

unfoldable pub new_header : TupleHeader
new_header = record {
  t_xmin = 0;
  t_xmax = 0;
  t_cid = 0;
  t_ctid_page = 0;
  t_ctid_slot = 0;
  t_infomask = heap_xmax_invalid;
  t_hoff = tuple_hoff;
  t_bits = 0;
}

unfoldable pub encode_into : TupleHeader → List ℕ → List ℕ
encode_into h buf =
    buf
    ++ (to_le 4 h.t_xmin
        ++ (to_le 4 h.t_xmax
            ++ (to_le 4 h.t_cid
                ++ (to_le 4 h.t_ctid_page
                    ++ (to_le 2 h.t_ctid_slot
                        ++ (to_le 2 h.t_infomask ++ (h.t_hoff ∷ h.t_bits ∷ [])))))))

-- The fields that `decode_from` reads, each at its offset.
unfoldable pub header_at : List ℕ → TupleHeader
header_at bytes = record {
  t_xmin = from_le (slice bytes 0 4);
  t_xmax = from_le (slice bytes 4 4);
  t_cid = from_le (slice bytes 8 4);
  t_ctid_page = from_le (slice bytes 12 4);
  t_ctid_slot = from_le (slice bytes 16 2);
  t_infomask = from_le (slice bytes 18 2);
  t_hoff = get_or bytes 20 0;
  t_bits = get_or bytes 21 0;
}

unfoldable pub decode_from : List ℕ → Outcome TupleError TupleHeader
decode_from bytes = do
  guard (leb tuple_header_size (length bytes)) (too_short (length bytes) tuple_header_size)
  ok (header_at bytes)

pub record Tuple : Type 0 where
  pub header : TupleHeader
  pub payload : List ℕ

-- `Tuple::new`
unfoldable pub new_tuple : List ℕ → Tuple
new_tuple bytes = record { header = new_header; payload = bytes }

-- The loop pushes zeroes until the buffer has `t_hoff` bytes.
unfoldable pub pad_to : ℕ → List ℕ → List ℕ
pad_to hoff buf = buf ++ replicate (hoff - length buf) 0

unfoldable pub encode : Tuple → List ℕ
encode t = pad_to t.header.t_hoff (encode_into t.header []) ++ t.payload

unfoldable pub decode : List ℕ → Outcome TupleError Tuple
decode bytes = do
  header ← decode_from bytes
  guard (leb header.t_hoff (length bytes)) (too_short (length bytes) header.t_hoff)
  ok (record { header = header; payload = drop header.t_hoff bytes })
