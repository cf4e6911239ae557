-- ===== src/Storage/Tuple/RoundTrip.antt =====
-- A tuple decodes to itself.
use native.Mathlib.Decide.{dec_lt}
use icedb.Base.{
  ◌⊎◌, inl, inr, length-drop, ℕ, ◌+◌, ◌-◌, ◌^◌, ◌≤◌, ◌<◌, ◌≡◌, refl, sym, ap, ◌∙◌, List, [], ◌++◌,
  append_assoc, arith, length, replicate, length-append, length-replicate, drop, drop-append, slice,
  to_le, from_le-to_le, ok, err,
}
use icedb.Storage.Tuple.{
  TupleHeader, Tuple, too_short, tuple_header_size, encode_into, header_at, decode_from, pad_to,
  encode, decode,
}

-- The fields fit their widths, and the row starts behind the header.
pub record IsWellFormed (h : TupleHeader) : Type 0 where
  pub xmin : h.t_xmin < 2 ^ 32
  pub xmax : h.t_xmax < 2 ^ 32
  pub cid : h.t_cid < 2 ^ 32
  pub ctid_page : h.t_ctid_page < 2 ^ 32
  pub ctid_slot : h.t_ctid_slot < 2 ^ 16
  pub infomask : h.t_infomask < 2 ^ 16
  pub hoff : h.t_hoff < 256
  pub behind : tuple_header_size ≤ h.t_hoff

pub length-encode_into : (h : TupleHeader) → length (encode_into h []) ≡ tuple_header_size
unfolding encode_into to_le
length-encode_into h = refl

header_at-encode_into :
    (h : TupleHeader) (rest : List ℕ) → IsWellFormed h → header_at (encode_into h [] ++ rest) ≡ h
unfolding encode_into header_at slice to_le
header_at-encode_into h rest w = λ i. record {
  t_xmin = from_le-to_le 4 h.t_xmin w.xmin i;
  t_xmax = from_le-to_le 4 h.t_xmax w.xmax i;
  t_cid = from_le-to_le 4 h.t_cid w.cid i;
  t_ctid_page = from_le-to_le 4 h.t_ctid_page w.ctid_page i;
  t_ctid_slot = from_le-to_le 2 h.t_ctid_slot w.ctid_slot i;
  t_infomask = from_le-to_le 2 h.t_infomask w.infomask i;
  t_hoff = h.t_hoff;
  t_bits = h.t_bits;
}

pub decode_from-encode_into :
    (h : TupleHeader) (rest : List ℕ)
    → IsWellFormed h
    → decode_from (encode_into h [] ++ rest) ≡ ok h
unfolding decode_from
decode_from-encode_into h rest w = ground (
  arith,
  header_at-encode_into h rest w,
  length-encode_into h,
  length-append (encode_into h []) rest,
)

pub length-pad_to : (hoff : ℕ) (buf : List ℕ) → length buf ≤ hoff → length (pad_to hoff buf) ≡ hoff
unfolding pad_to
length-pad_to hoff buf h = omega (
  arith,
  length-append buf (replicate (hoff - length buf) 0),
  length-replicate {A = ℕ} (hoff - length buf) 0,
)

-- An encoded tuple is as long as its header's `t_hoff` and its row together.
pub length-encode :
    (t : Tuple) → IsWellFormed t.header → length (encode t) ≡ t.header.t_hoff + length t.payload
unfolding encode
length-encode t w = omega (
  arith,
  length-append (pad_to t.header.t_hoff (encode_into t.header [])) t.payload,
  length-pad_to t.header.t_hoff (encode_into t.header []),
  length-encode_into t.header,
  w.behind,
)

header-encode : (t : Tuple) → IsWellFormed t.header → decode_from (encode t) ≡ ok t.header
unfolding encode pad_to
header-encode t w = rw append_assoc (decode_from-encode_into t.header _ w)

payload-encode : (t : Tuple) → IsWellFormed t.header → drop t.header.t_hoff (encode t) ≡ t.payload
unfolding encode
payload-encode t w =
    ap (λ (n : ℕ). drop n (pad_to t.header.t_hoff (encode_into t.header []) ++ t.payload))
      (sym (
        length-pad_to t.header.t_hoff (encode_into t.header [])
          (omega (arith, length-encode_into t.header, w.behind))))
    ∙ drop-append (pad_to t.header.t_hoff (encode_into t.header [])) t.payload

-- `Tuple::decode` reads back the header and the row of the tuple that `Tuple::encode` wrote, when
-- the header's fields fit their widths and `t_hoff` is not below the header's 22 bytes.
pub tuple_decode-encode : (t : Tuple) → IsWellFormed t.header → decode (encode t) ≡ ok t
unfolding decode
tuple_decode-encode t w = ground (arith, header-encode t w, payload-encode t w, length-encode t w)

-- A buffer that is shorter than the header, or than the `t_hoff` of the header in it, is an error
-- that names both sizes; any other buffer decodes to what follows its header.
pub tuple_decode_total :
    (bytes : List ℕ)
    → ((length bytes < tuple_header_size)
        × (decode bytes ≡ err (too_short (length bytes) tuple_header_size)))
      ⊎ (((h : TupleHeader) × (decode_from bytes ≡ ok h)
            × (length bytes < h.t_hoff)
            × (decode bytes ≡ err (too_short (length bytes) h.t_hoff)))
          ⊎ ((t : Tuple) × (decode bytes ≡ ok t)
              × (length t.payload + t.header.t_hoff ≡ length bytes)))
unfolding decode decode_from
tuple_decode_total bytes = elim (dec_lt (length bytes) tuple_header_size) [
  | yes short ↦ inl (short, ground arith)
  | no long ↦ elim (dec_lt (length bytes) (header_at bytes).t_hoff) [
    | yes h ↦ inr (inl (header_at bytes, ground arith, h, ground arith))
    | no h ↦ inr (
        inr (
          record { header = header_at bytes; payload = drop (header_at bytes).t_hoff bytes },
          ground arith,
          omega (arith, length-drop (header_at bytes).t_hoff bytes),
        ))
  ]
]
