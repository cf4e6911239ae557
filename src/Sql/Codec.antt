-- ===== src/Sql/Codec.antt =====
-- crates/sql/src/codec.rs, `encode_row` and `decode_row`: a row as the bytes and the null bitmap of a
-- heap tuple. A row is the list of its values; the bytes from `offset` on stand for data and offset.

pub mod Fields
pub mod Bitmap
pub mod RoundTrip
pub mod Tests
use icedb.Sql.Value.{DataType, Value, SqlError}
use icedb.Sql.Bytes.{TextFormats, to_bytes, from_bytes}
use icedb.Base.{
  nat_key, [], ◌∷◌, none, some, true, false, ok, err, ◌>>=◌, ◌+◌, Option, List, ℕ, Bool, ltb,
  if◌then◌else◌, Outcome, ◌&&◌, from_le, length, ◌++◌, ◌^◌, take, ◌/◌, ◌%◌, drop, ◌==◌, zero, suc,
  inl, inr, refl, arith, ◌>>◌, ◌≡◌,
}

pub record Column : Type 0 where
  pub name : List ℕ
  pub data_type : DataType

abbrev pub is_null : Value → Bool
is_null Value.null = true
is_null v = false

-- The bitmap's bit for the column at `i`. Each bit is set at most once, so `|=` adds it.
abbrev pub null_bit : ℕ → Value → ℕ
null_bit i v = if is_null v && ltb i 32 then 2 ^ i else 0

unfoldable pub bitmap_from : ℕ → List Value → ℕ
bitmap_from i [] = 0
bitmap_from i (v ∷ vs) = null_bit i v + bitmap_from (i + 1) vs

-- `i < 32 && (null_bitmap >> i) & 1 == 1`
abbrev pub marked_null : ℕ → ℕ → Bool
marked_null bitmap i = ltb i 32 && (bitmap / 2 ^ i % 2 == 1)

-- The size of a type's values, or none where a length stands in front.
unfoldable pub width : DataType → Option ℕ
width DataType.boolean = some 1
width DataType.int4 = some 4
width DataType.int8 = some 8
width DataType.float8 = some 8
width DataType.date = some 4
width DataType.timestamp = some 8
width DataType.timestamp_tz = some 8
width d = none

module _ (formats : TextFormats) where
  unfoldable pub row_bytes : List Value → List ℕ
  row_bytes [] = []
  row_bytes (v ∷ vs) =
      let rest = row_bytes vs in if is_null v then rest else to_bytes formats v ++ rest

  unfoldable pub encode_row : List Value → List ℕ × ℕ
  encode_row values = (row_bytes values, bitmap_from 0 values)

  -- The value of `n` bytes in front, and the bytes behind it. Too few bytes mean a column that is
  -- younger than the tuple.
  unfoldable pub decode_fixed : DataType → ℕ → List ℕ → Outcome SqlError (Value × List ℕ)
  decode_fixed d n bytes =
      if ltb (length bytes) n
      then ok (Value.null, bytes)
      else (from_bytes formats (take n bytes) d >>= λ v. ok (v, drop n bytes))

  unfoldable pub decode_sized : DataType → List ℕ → Outcome SqlError (Value × List ℕ)
  decode_sized d bytes =
      let len = from_le (take 4 bytes) in
      if ltb (length bytes) 4
      then ok (Value.null, bytes)
      else if ltb (length bytes) (4 + len)
      then err SqlError.execution
      else (from_bytes formats (take (4 + len) bytes) d >>= λ v. ok (v, drop (4 + len) bytes))

  abbrev pub decode_by : Option ℕ → DataType → List ℕ → Outcome SqlError (Value × List ℕ)
  decode_by none d bytes = decode_sized d bytes
  decode_by (some n) d bytes = decode_fixed d n bytes

  unfoldable pub decode_column : DataType → List ℕ → Outcome SqlError (Value × List ℕ)
  decode_column d bytes = decode_by (width d) d bytes

  unfoldable pub decode_columns : ℕ → ℕ → List Column → List ℕ → Outcome SqlError (List Value)
  decode_columns bitmap i [] bytes = ok []
  decode_columns bitmap i (c ∷ cs) bytes = elim (marked_null bitmap i) [
    | true ↦ decode_columns bitmap (i + 1) cs bytes >>= λ vs. ok (Value.null ∷ vs)
    | false ↦ decode_column c.data_type bytes >>= λ p.
        (decode_columns bitmap (i + 1) cs p.1 >>= λ vs. ok (p.0 ∷ vs))
  ]

  unfoldable pub decode_row : List ℕ → ℕ → List Column → Outcome SqlError (List Value)
  decode_row bytes bitmap columns = decode_columns bitmap 0 columns bytes
