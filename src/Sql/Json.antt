-- ===== src/Sql/Json.antt =====
-- `value_to_json_value` and `json_value_to_value` of crates/sql/src/value.rs: the items of an array as
-- JSON. `serde_json::Value` is a data type; its text, and its numbers that are no integers, are
-- parameters.
pub mod Items
use icedb.Sql.Value.{Value, Values, DataType}
use icedb.Sql.Dates.{format_date, format_timestamp}
use icedb.Base.{
  ℕ, ℤ, Bool, List, [], ◌∷◌, Option, none, some, word64, signed32, signed64, ◌%◌, ◌^◌, ◌/◌, ◌+◌,
  ltb, if◌then◌else◌, nat_key, zero, suc, true, false, inl, inr, ok, err, refl, arith, ◌>>=◌, ◌>>◌,
  ◌≡◌,
}

-- `serde_json::Number`
pub data JsonNumber : Type 0 where
  integer : ℤ → JsonNumber
  float : ℕ → JsonNumber

-- An object is the text that serde_json prints of it.
mutual
  pub data Json : Type 0 where
    null : Json
    bool : Bool → Json
    number : JsonNumber → Json
    string : List ℕ → Json
    array : Jsons → Json
    object : List ℕ → Json

  pub data Jsons : Type 0 where
    no_items : Jsons
    item : Json → Jsons → Jsons

-- `to_string` and `from_str` of serde_json; `f64::is_finite`, and `as_f64` of a number.
pub record JsonFormats : Type 0 where
  pub json_text : Json → List ℕ
  pub parse_json : List ℕ → Option Json
  pub is_finite : ℕ → Bool
  pub as_f64 : JsonNumber → ℕ

abbrev hex_digit : ℕ → ℕ
hex_digit n = if ltb n 10 then 48 + n else 87 + n

unfoldable pub hex_encode : List ℕ → List ℕ
hex_encode [] = []
hex_encode (b ∷ bytes) = hex_digit (b / 16) ∷ hex_digit (b % 16) ∷ hex_encode bytes

-- `from_str(s).unwrap_or(String(s))`
abbrev document_or : List ℕ → Option Json → Json
document_or s none = Json.string s
document_or s (some j) = j

abbrev word_or_zero : Option ℕ → ℕ
word_or_zero none = 0
word_or_zero (some w) = w

-- `as_i64().unwrap_or(0)`, as its bits.
abbrev pub as_i64 : JsonNumber → ℕ
as_i64 (JsonNumber.integer z) = word_or_zero (word64 z)
as_i64 (JsonNumber.float f) = 0

module _ (formats : JsonFormats) where
  open formats use {json_text, parse_json, is_finite, as_f64}

  unfoldable mutual
    pub value_to_json_value : Value → Json
    value_to_json_value Value.null = Json.null
    value_to_json_value (Value.bool b) = Json.bool b
    value_to_json_value (Value.int4 v) = Json.number (JsonNumber.integer (signed32 v))
    value_to_json_value (Value.int8 v) = Json.number (JsonNumber.integer (signed64 v))
    value_to_json_value (Value.float8 f) =
        if is_finite f then Json.number (JsonNumber.float f) else Json.null
    value_to_json_value (Value.text s) = Json.string s
    value_to_json_value (Value.numeric s) = Json.string s
    value_to_json_value (Value.uuid s) = Json.string s
    value_to_json_value (Value.json s) = document_or s (parse_json s)
    value_to_json_value (Value.array vs) = Json.array (values_to_json vs)
    value_to_json_value (Value.bytes b) = Json.string (hex_encode b)
    value_to_json_value (Value.date d) = Json.string (format_date d)
    value_to_json_value (Value.timestamp t) = Json.string (format_timestamp t)

    pub values_to_json : Values → Jsons
    values_to_json Values.nil = Jsons.no_items
    values_to_json (Values.cons v vs) = Jsons.item (value_to_json_value v) (values_to_json vs)

  -- The cast of an `i64` to `i32` keeps the low bits.
  abbrev pub number_to_value : JsonNumber → DataType → Value
  number_to_value n DataType.int4 = Value.int4 (as_i64 n % 2 ^ 32)
  number_to_value n DataType.int8 = Value.int8 (as_i64 n)
  number_to_value n DataType.float8 = Value.float8 (as_f64 n)
  number_to_value n d = Value.text (json_text (Json.number n))

  unfoldable mutual
    -- Each branch of the source is `Ok`.
    pub json_value_to_value : Json → DataType → Value
    json_value_to_value Json.null d = Value.null
    json_value_to_value (Json.bool b) d = Value.bool b
    json_value_to_value (Json.number n) d = number_to_value n d
    json_value_to_value (Json.string s) d = Value.text s
    json_value_to_value (Json.array items) (DataType.array inner) =
        Value.array (json_to_values items inner)
    json_value_to_value (Json.array items) d = Value.json (json_text (Json.array items))
    json_value_to_value (Json.object s) d = Value.json s

    pub json_to_values : Jsons → DataType → Values
    json_to_values Jsons.no_items d = Values.nil
    json_to_values (Jsons.item j items) d =
        Values.cons (json_value_to_value j d) (json_to_values items d)
