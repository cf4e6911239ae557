-- ===== src/Sql/Value.antt =====
-- The values of crates/sql/src/value.rs, with `DataType` of crates/catalog/src/types.rs and the errors of
-- error.rs that occur here, without their messages. An `i32` or `i64` is its bit pattern, an `f64` its
-- IEEE bits, a text its bytes.
use icedb.Base.{ℕ, Bool, true, false, List, nat_key}

pub data DataType : Type 0 where
  boolean int4 int8 float8 text : DataType
  var_char : ℕ → DataType
  bytea date timestamp timestamp_tz numeric uuid : DataType
  array : DataType → DataType
  json jsonb : DataType

mutual
  pub data Value : Type 0 where
    null : Value
    bool : Bool → Value
    int4 int8 float8 : ℕ → Value
    text bytes : List ℕ → Value
    date timestamp : ℕ → Value
    numeric uuid : List ℕ → Value
    array : Values → Value
    json : List ℕ → Value

  pub data Values : Type 0 where
    nil : Values
    cons : Value → Values → Values

pub data SqlError : Type 0 where
  type_error execution division_by_zero numeric_overflow : SqlError

abbrev pub bool_byte : Bool → ℕ
bool_byte true = 1
bool_byte false = 0
