-- ===== src/Sql/Codec/Tests.antt =====
-- Rows of crates/sql/src/codec.rs, and the inputs of the theorems about them.
use icedb.Sql.Value.{Value, DataType, Values}
use icedb.Sql.Bytes.{TextFormats, to_bytes, with_length}
use icedb.Sql.Codec.{Column, encode_row, decode_row, row_bytes, bitmap_from}
use icedb.Sql.Codec.Fields.{HasType}
use icedb.Sql.Codec.RoundTrip.{decode_row-encode_row, late_null_lost, late_null_moves, IsRow}
use icedb.Base.{
  nat_key, zero, suc, [], ◌∷◌, some, true, inl, inr, ok, refl, arith, ◌≡◌, ◌+◌, ◌++◌, ℕ, List,
  replicate, length, to_le, none, Option, if◌then◌else◌, ◌==◌,
}
use icedb.Sql.Codec.Bitmap.{NullsFit}
use icedb.Sql.Json.{Json, JsonFormats, Jsons, value_to_json_value, json_value_to_value}
use icedb.Sql.Json.Items.{AreItems, IsItem}

-- Documents: an array of one text, and any other as an empty object.
abbrev json_text : Json → List ℕ
json_text (Json.array (Jsons.item (Json.string s) Jsons.no_items)) = b'[' ∷ s
json_text j = b'{' ∷ []

abbrev parse_json : List ℕ → Option Json
parse_json [] = none
parse_json (c ∷ s) =
    if c == b'['
    then some (Json.array (Jsons.item (Json.string s) Jsons.no_items))
    else some (Json.object s)

abbrev json_formats : JsonFormats
json_formats = record {
  json_text = json_text;
  parse_json = parse_json;
  is_finite = λ f. true;
  as_f64 = λ n. 0;
}

abbrev formats : TextFormats
formats = record { is_utf8 = λ s. true; documents = json_formats }

abbrev column : ℕ → DataType → Column
column c d = record { name = c ∷ []; data_type = d }

abbrev columns : List Column
columns =
    column b'a' DataType.int4
    ∷ column b'b' DataType.text
    ∷ column b'c' DataType.int8
    ∷ column b'e' (DataType.array DataType.text)
    ∷ []

abbrev added : List Column
added = column b'd' DataType.boolean ∷ []

abbrev greetings : Values
greetings = Values.cons (Value.text (b'h' ∷ b'i' ∷ [])) Values.nil

abbrev row : List Value
row = Value.int4 7 ∷ Value.text (b'h' ∷ b'i' ∷ []) ∷ Value.null ∷ Value.array greetings ∷ []

greetings-AreItems : AreItems DataType.text greetings
greetings-AreItems =
    AreItems.item DataType.text (Value.text (b'h' ∷ b'i' ∷ [])) Values.nil
      (IsItem.text (b'h' ∷ b'i' ∷ [])) (AreItems.no_items DataType.text)

greetings-HasType : HasType formats (DataType.array DataType.text) (Value.array greetings)
unfolding value_to_json_value
greetings-HasType =
    HasType.array DataType.text greetings (omega arith, refl, refl) greetings-AreItems

-- The items of an array of NUMERIC come back as texts.
numeric_items :
    json_value_to_value json_formats
      (value_to_json_value json_formats (Value.numeric (b'7' ∷ [])))
      DataType.numeric
    ≡ Value.text (b'7' ∷ [])
unfolding value_to_json_value json_value_to_value
numeric_items = refl

encoded :
    encode_row formats row
    ≡ (7 ∷ 0 ∷ 0 ∷ 0 ∷ 2 ∷ 0 ∷ 0 ∷ 0 ∷ b'h' ∷ b'i' ∷ 3 ∷ 0 ∷ 0 ∷ 0 ∷ b'[' ∷ b'h' ∷ b'i' ∷ [], 4)
unfolding encode_row row_bytes to_bytes with_length to_le bitmap_from value_to_json_value
encoded = refl

decode_row-encode_row_example :
    decode_row formats (encode_row formats row).0 (encode_row formats row).1 (columns ++ added)
    ≡ ok (row ++ replicate (length added) Value.null)
decode_row-encode_row_example =
    decode_row-encode_row formats columns added row
      ((λ e. cc), ((λ e. cc), ((λ e. omega arith), ((λ e. cc), tt))))
      (
        inr (HasType.int4 7 (omega arith)),
        (
          inr (HasType.text (b'h' ∷ b'i' ∷ []) (omega arith) refl),
          (inl refl, (inr greetings-HasType, tt)),
        ),
      )

abbrev number : Column
number = column b'n' DataType.int4

abbrev ones : ℕ → List Value
ones zero = []
ones (suc n) = Value.int4 1 ∷ ones n

abbrev numbers : ℕ → List Column
numbers zero = []
numbers (suc n) = number ∷ numbers n

ones-IsRow : (n : ℕ) → IsRow formats (numbers n) (ones n)
ones-IsRow zero = tt
ones-IsRow (suc n) = (inr (HasType.int4 1 (omega arith)), ones-IsRow n)

ones-NullsFit : (i n : ℕ) → NullsFit i (ones n)
ones-NullsFit i zero = tt
ones-NullsFit i (suc n) = ((λ e. cc), ones-NullsFit (i + 1) n)

late_null_lost_example :
    encode_row formats (ones 32 ++ (Value.null ∷ Value.int4 9 ∷ []))
    ≡ encode_row formats (ones 32 ++ (Value.int4 9 ∷ []))
late_null_lost_example = late_null_lost formats (ones 32) (Value.int4 9 ∷ []) (omega arith)

late_null_moves_example :
    decode_row formats
      (encode_row formats (ones 32 ++ (Value.null ∷ Value.int4 9 ∷ []))).0
      (encode_row formats (ones 32 ++ (Value.null ∷ Value.int4 9 ∷ []))).1
      (numbers 32 ++ (number ∷ number ∷ []))
    ≡ ok (ones 32 ++ (Value.int4 9 ∷ Value.null ∷ []))
late_null_moves_example =
    late_null_moves formats (numbers 32) number number (ones 32) (Value.int4 9) (omega arith)
      (ones-NullsFit 0 32) (ones-IsRow 32) (HasType.int4 9 (omega arith))
