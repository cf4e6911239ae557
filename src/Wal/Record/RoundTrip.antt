-- ===== src/Wal/Record/RoundTrip.antt =====
-- A record decodes to itself, whatever follows it.
use icedb.Base.{
  ℕ, ◌+◌, ◌^◌, ◌<◌, ◌≡◌, refl, List, ◌++◌, append_assoc, arith, length, length-append, take,
  take-append, drop-append, slice, get_or, to_le, from_le, length-to_le, from_le-to_le, ok,
}
use icedb.Wal.Record.{
  WalRecord, RecordType, insert, type_byte, try_from, fixed_header_len, crc_len, crc32, encode_body,
  encode, decode,
}

-- The fields fit their widths, and so does the length of the whole record.
pub record IsWellFormed (r : WalRecord) : Type 0 where
  pub lsn : r.lsn < 2 ^ 64
  pub prev_lsn : r.prev_lsn < 2 ^ 64
  pub xid : r.xid < 2 ^ 32
  pub page_no : r.page_no < 2 ^ 32
  pub total : fixed_header_len + length r.payload + crc_len < 2 ^ 32

pub try_from-type_byte : (t : RecordType) → try_from (type_byte t) ≡ ok t
unfolding try_from type_byte
try_from-type_byte insert = refl
try_from-type_byte _ = refl

pub length-encode_body :
    (r : WalRecord) → length (encode_body r) ≡ fixed_header_len + length r.payload
unfolding encode_body to_le
length-encode_body r = omega arith

pub length-encode :
    (r : WalRecord) → length (encode r) ≡ fixed_header_len + length r.payload + crc_len
unfolding encode
length-encode r = omega (
  arith,
  length-append (encode_body r) (to_le 4 (crc32 (encode_body r))),
  length-encode_body r,
  length-to_le 4 (crc32 (encode_body r)),
)

crc32_small : (bytes : List ℕ) → crc32 bytes < 2 ^ 32
unfolding crc32
crc32_small bytes = omega arith

module _ (r : WalRecord) (rest : List ℕ) (w : IsWellFormed r) where
  abbrev bytes : List ℕ
  bytes = encode r ++ rest

  pub total_len-encode : from_le (slice bytes 0 4) ≡ fixed_header_len + length r.payload + crc_len
  unfolding encode encode_body slice to_le
  total_len-encode = from_le-to_le 4 _ w.total

  lsn-encode : from_le (slice bytes 4 8) ≡ r.lsn
  unfolding encode encode_body slice to_le
  lsn-encode = from_le-to_le 8 _ w.lsn

  prev_lsn-encode : from_le (slice bytes 12 8) ≡ r.prev_lsn
  unfolding encode encode_body slice to_le
  prev_lsn-encode = from_le-to_le 8 _ w.prev_lsn

  xid-encode : from_le (slice bytes 20 4) ≡ r.xid
  unfolding encode encode_body slice to_le
  xid-encode = from_le-to_le 4 _ w.xid

  type-encode : get_or bytes 24 0 ≡ type_byte r.record_type
  unfolding encode encode_body slice to_le
  type-encode = refl

  page_no-encode : from_le (slice bytes 25 4) ≡ r.page_no
  unfolding encode encode_body slice to_le
  page_no-encode = from_le-to_le 4 _ w.page_no

  data_len-encode : from_le (slice bytes 29 4) ≡ length r.payload
  unfolding encode encode_body slice to_le
  data_len-encode = from_le-to_le 4 _ (omega (arith, w.total))

  payload-encode : slice bytes fixed_header_len (length r.payload) ≡ r.payload
  unfolding encode encode_body slice to_le
  payload-encode = rw append_assoc (take-append r.payload _)

  body-encode : take (fixed_header_len + length r.payload) bytes ≡ encode_body r
  unfolding encode
  body-encode = rw (append_assoc, ← length-encode_body r) (take-append (encode_body r) _)

  crc-encode : from_le (slice bytes (fixed_header_len + length r.payload) 4) ≡ crc32 (encode_body r)
  unfolding encode slice to_le
  crc-encode =
      rw (append_assoc, ← length-encode_body r, drop-append (encode_body r))
        (from_le-to_le 4 _ (crc32_small (encode_body r)))

  -- `WalRecord::decode` reads back the record that `encode` wrote, checksum included, and does not
  -- look at what follows it, when the fields fit their widths.
  pub decode-encode : decode (encode r ++ rest) ≡ ok r
  unfolding decode
  decode-encode = ground (
    arith,
    total_len-encode,
    lsn-encode,
    prev_lsn-encode,
    xid-encode,
    type-encode,
    try_from-type_byte r.record_type,
    page_no-encode,
    data_len-encode,
    payload-encode,
    body-encode,
    crc-encode,
    length-encode r,
    length-append (encode r) rest,
    w.total,
  )
