-- ===== src/Wal/Record.antt =====
-- crates/wal/src/record.rs, lsn.rs and the errors of error.rs: one log record and its bytes. The
-- text of an error is a constructor of `Reason` with the numbers that the message shows.
pub mod RoundTrip
use Prim.Native.Nat.{bit_and, bit_xor}
use icedb.Base.{
  ℕ, zero, suc, ◌+◌, ◌-◌, ◌/◌, ◌^◌, ◌%◌, List, [], ◌∷◌, ◌++◌, length, take, get_or, slice, to_le,
  from_le, leb, ◌==◌, if◌then◌else◌, Outcome, ok, err, ◌>>=◌, ◌>>◌, guard,
}

-- `invalid_lsn` is 0.
abbrev pub invalid_lsn : ℕ
invalid_lsn = 0

-- One round of the inner loop of `crc32`.
unfoldable pub crc_bit : ℕ → ℕ
crc_bit crc = if bit_and crc 1 == 0 then crc / 2 else bit_xor (crc / 2) 0xEDB8_8320

unfoldable pub crc_bits : ℕ → ℕ → ℕ
crc_bits zero crc = crc
crc_bits (suc rounds) crc = crc_bits rounds (crc_bit crc)

unfoldable pub crc_loop : List ℕ → ℕ → ℕ
crc_loop [] crc = crc
crc_loop (byte ∷ bytes) crc = crc_loop bytes (crc_bits 8 (bit_xor crc byte))

-- `!crc` on 32 bits.
unfoldable pub crc32 : List ℕ → ℕ
unfolding crc_bit crc_bits crc_loop
crc32 bytes = 0xFFFF_FFFF - crc_loop bytes 0xFFFF_FFFF

pub data RecordType : Type 0 where
  insert delete update commit abort checkpoint page_image : RecordType

-- `record_type as u8`
unfoldable pub type_byte : RecordType → ℕ
type_byte insert = 1
type_byte delete = 2
type_byte update = 3
type_byte commit = 4
type_byte abort = 5
type_byte checkpoint = 6
type_byte page_image = 7

pub data Reason : Type 0 where
  slice_too_short : ℕ → Reason
  total_len_too_small : ℕ → Reason
  shorter_than_total_len : ℕ → ℕ → Reason
  crc_mismatch : ℕ → ℕ → Reason
  data_len_overflows : ℕ → Reason
  -- `page_image_length` is the recovery's, the others are the decoder's.
  page_image_length : ℕ → Reason

pub data WalError : Type 0 where
  corrupt_record : ℕ → Reason → WalError
  invalid_record_type : ℕ → WalError
  -- `UnexpectedEof` of a read that the caller does not treat as the end of the log
  unexpected_eof : WalError

unfoldable pub try_from : ℕ → Outcome WalError RecordType
try_from v =
    if v == 1
    then ok insert
    else if v == 2
    then ok delete
    else if v == 3
    then ok update
    else if v == 4
    then ok commit
    else if v == 5
    then ok abort
    else if v == 6
    then ok checkpoint
    else if v == 7
    then ok page_image
    else err (invalid_record_type v)

pub record WalRecord : Type 0 where
  pub lsn : ℕ
  pub prev_lsn : ℕ
  pub xid : ℕ
  pub record_type : RecordType
  pub page_no : ℕ
  pub payload : List ℕ

abbrev pub fixed_header_len : ℕ
fixed_header_len = 33

abbrev pub crc_len : ℕ
crc_len = 4

-- The part of the encoding that the CRC covers.
unfoldable pub encode_body : WalRecord → List ℕ
encode_body r =
    to_le 4 (fixed_header_len + length r.payload + crc_len)
    ++ (to_le 8 r.lsn
        ++ (to_le 8 r.prev_lsn
            ++ (to_le 4 r.xid
                ++ (type_byte r.record_type
                    ∷ (to_le 4 r.page_no ++ (to_le 4 (length r.payload) ++ r.payload))))))

unfoldable pub encode : WalRecord → List ℕ
encode r = encode_body r ++ to_le 4 (crc32 (encode_body r))

unfoldable pub decode : List ℕ → Outcome WalError WalRecord
decode bytes = do
  guard (leb (fixed_header_len + crc_len) (length bytes))
      (corrupt_record invalid_lsn (slice_too_short (length bytes)))
  let total_len = from_le (slice bytes 0 4)
  guard (leb (fixed_header_len + crc_len) total_len)
      (corrupt_record invalid_lsn (total_len_too_small total_len))
  guard (leb total_len (length bytes))
      (corrupt_record invalid_lsn (shorter_than_total_len (length bytes) total_len))
  let crc_offset = total_len - crc_len
  let stored_crc = from_le (slice bytes crc_offset 4)
  let computed_crc = crc32 (take crc_offset bytes)
  let lsn = from_le (slice bytes 4 8)
  guard (stored_crc == computed_crc) (corrupt_record lsn (crc_mismatch stored_crc computed_crc))
  record_type ← try_from (get_or bytes 24 0)
  let data_len = from_le (slice bytes 29 4)
  guard (leb (fixed_header_len + data_len) crc_offset)
      (corrupt_record lsn (data_len_overflows data_len))
  ok (record {
    lsn = lsn;
    prev_lsn = from_le (slice bytes 12 8);
    xid = from_le (slice bytes 20 4);
    record_type = record_type;
    page_no = from_le (slice bytes 25 4);
    payload = slice bytes fixed_header_len data_len;
  })
