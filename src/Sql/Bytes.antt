-- ===== src/Sql/Bytes.antt =====
-- `to_bytes` and `from_bytes` of crates/sql/src/value.rs. UTF-8 and what serde_json prints and reads are
-- parameters.
use icedb.Sql.Value.{Value, DataType, SqlError, bool_byte, type_error}
use icedb.Sql.Json.{Json, JsonFormats, values_to_json, json_to_values}
use icedb.Base.{
  nat_key, [], ◌∷◌, some, ok, err, ◌>>=◌, ◌>>◌, ◌+◌, ℕ, Bool, Option, List, Outcome, to_le, guard,
  length, leb, ◌%◌, not, ◌^◌, from_le, ◌++◌, get_or, take, drop, ◌==◌,
}

-- `str::from_utf8` as a test, and the formats of serde_json.
pub record TextFormats : Type 0 where
  pub is_utf8 : List ℕ → Bool
  pub documents : JsonFormats

-- The length as `u32`, and the bytes.
unfoldable pub with_length : List ℕ → List ℕ
with_length s = to_le 4 (length s % 2 ^ 32) ++ s

-- A fixed-size value is read if there are enough bytes.
unfoldable pub read_word : ℕ → List ℕ → (ℕ → Value) → Outcome SqlError Value
read_word n buf make = guard (leb n (length buf)) type_error >> ok (make (from_le (take n buf)))

-- The bytes behind a length, which are checked to be there.
unfoldable pub read_length : List ℕ → Outcome SqlError (List ℕ)
read_length buf = do
  guard (leb 4 (length buf)) type_error
  let len = from_le (take 4 buf)
  guard (leb (4 + len) (length buf)) type_error
  ok (take len (drop 4 buf))

module _ (formats : TextFormats) where
  open formats use {is_utf8, documents}

  unfoldable pub to_bytes : Value → List ℕ
  to_bytes Value.null = []
  to_bytes (Value.bool b) = bool_byte b ∷ []
  to_bytes (Value.int4 v) = to_le 4 v
  to_bytes (Value.int8 v) = to_le 8 v
  to_bytes (Value.float8 v) = to_le 8 v
  to_bytes (Value.text s) = with_length s
  to_bytes (Value.numeric s) = with_length s
  to_bytes (Value.uuid s) = with_length s
  to_bytes (Value.bytes b) = with_length b
  to_bytes (Value.date v) = to_le 4 v
  to_bytes (Value.timestamp v) = to_le 8 v
  to_bytes (Value.array vs) =
      with_length (documents.json_text (Json.array (values_to_json documents vs)))
  to_bytes (Value.json s) = with_length s

  unfoldable pub read_text : List ℕ → (List ℕ → Value) → Outcome SqlError Value
  read_text buf make = do s ← read_length buf; guard (is_utf8 s) type_error; ok (make s)

  -- The items of a document that is an array; another document is an error.
  abbrev pub array_of : DataType → Option Json → Outcome SqlError Value
  array_of inner (some (Json.array items)) = ok (Value.array (json_to_values documents items inner))
  array_of inner _ = err type_error

  unfoldable pub read_array : DataType → List ℕ → Outcome SqlError Value
  read_array inner buf = do
    s ← read_length buf
    guard (is_utf8 s) type_error
    array_of inner (documents.parse_json s)

  unfoldable pub from_bytes : List ℕ → DataType → Outcome SqlError Value
  from_bytes buf DataType.boolean =
      guard (leb 1 (length buf)) type_error >> ok (Value.bool (not (get_or buf 0 0 == 0)))
  from_bytes buf DataType.int4 = read_word 4 buf Value.int4
  from_bytes buf DataType.int8 = read_word 8 buf Value.int8
  from_bytes buf DataType.float8 = read_word 8 buf Value.float8
  from_bytes buf DataType.text = read_text buf Value.text
  from_bytes buf (DataType.var_char n) = read_text buf Value.text
  from_bytes buf DataType.bytea = do b ← read_length buf; ok (Value.bytes b)
  from_bytes buf DataType.date = read_word 4 buf Value.date
  from_bytes buf DataType.timestamp = read_word 8 buf Value.timestamp
  from_bytes buf DataType.timestamp_tz = read_word 8 buf Value.timestamp
  from_bytes buf DataType.numeric = read_text buf Value.numeric
  from_bytes buf DataType.uuid = read_text buf Value.uuid
  from_bytes buf (DataType.array inner) = read_array inner buf
  from_bytes buf DataType.json = read_text buf Value.json
  from_bytes buf DataType.jsonb = read_text buf Value.json
