-- ===== src/Sql/Operators.antt =====
-- crates/sql/src/executor.rs, `eval_binary_op` and `checked_numeric_op`. The arithmetic of floats,
-- the printing of values, JSON documents and the parsing of dates are parameters.
pub mod Logic
pub mod Integers
pub mod Tests
use icedb.Btree.Node.{Ordering, less, equal, greater}
use icedb.Sql.Value.{Value, Values, nil, cons, SqlError}
use icedb.Sql.Order.{Floats, partial_cmp, values_equal, is_equal}
use icedb.Base.{
  nat_key, zero, suc, [], ◌∷◌, none, some, true, false, inl, inr, ok, err, refl, arith, ◌>>=◌, ◌>>◌,
  ◌≡◌, ◌+◌, ℤ, ℕ, Outcome, List, Bool, Option, ◌+ℤ◌, ◌||◌, ◌&&◌, ◌==◌, signed32, ◌/ℤ◌, word32, not,
  ◌-ℤ◌, if◌then◌else◌, word64, signed64, panic, ◌++◌, ◌%ℤ◌, ◌*ℤ◌,
}

pub data BinaryOp : Type 0 where
  eq not_eq lt le gt ge and or add sub mul div concat modulo json_get json_get_text : BinaryOp

-- Dates and timestamps read from a text, the text of a value, and `serde_json`: what a document has at
-- a key or an index, printed (a string without its quotes for the second), none for null.
pub record Texts : Type 0 where
  pub parse_date : List ℕ → Option ℕ
  pub parse_timestamp : List ℕ → Option ℕ
  pub display : Value → List ℕ
  pub json_at : List ℕ → Value → Option (List ℕ)
  pub json_text_at : List ℕ → Value → Option (List ℕ)

-- `f64` arithmetic by operator, and a float as the text of a numeric.
pub record Arithmetic : Type 0 where
  pub float_op : BinaryOp → ℕ → ℕ → ℕ
  pub is_zero : ℕ → Bool
  pub format_numeric : ℕ → List ℕ

-- The early returns for NULL.
unfoldable pub null_result : BinaryOp → Value → Value → Option Value
null_result BinaryOp.and Value.null (Value.bool false) = some (Value.bool false)
null_result BinaryOp.and Value.null b = some Value.null
null_result BinaryOp.and (Value.bool false) Value.null = some (Value.bool false)
null_result BinaryOp.and a Value.null = some Value.null
null_result BinaryOp.or Value.null (Value.bool true) = some (Value.bool true)
null_result BinaryOp.or Value.null b = some Value.null
null_result BinaryOp.or (Value.bool true) Value.null = some (Value.bool true)
null_result BinaryOp.or a Value.null = some Value.null
null_result op Value.null b = some Value.null
null_result op a Value.null = some Value.null
null_result op a b = none

abbrev pub or_else : Option ℕ → (ℕ → Value) → Value → Value
or_else none make v = v
or_else (some n) make v = make n

abbrev pub json_source : Value → Option (List ℕ)
json_source (Value.json s) = some s
json_source (Value.text s) = some s
json_source v = none

abbrev pub get_json : (List ℕ → Value → Option (List ℕ)) → (List ℕ → Value) → Value → Value → Value
get_json at make a b = elim (json_source a) [
  | none ↦ Value.null
  | some s ↦ elim (at s b) [ none ↦ Value.null | some found ↦ make found ]
]

abbrev pub is_less : Option Ordering → Bool
is_less (some less) = true
is_less o = false

abbrev pub is_greater : Option Ordering → Bool
is_greater (some greater) = true
is_greater o = false

abbrev pub checked : (ℕ → Value) → Option ℕ → Outcome SqlError Value
checked make none = err SqlError.numeric_overflow
checked make (some n) = ok (make n)

-- What `checked_add`, `checked_sub`, `checked_mul` and `checked_div` compute before the range check;
-- the divisor is not zero.
unfoldable pub integer_op : BinaryOp → ℤ → ℤ → ℤ
integer_op BinaryOp.add a b = a +ℤ b
integer_op BinaryOp.sub a b = a -ℤ b
integer_op BinaryOp.mul a b = a *ℤ b
integer_op op a b = a /ℤ b

-- `%` panics where the quotient is out of range, as for the least integer and -1.
abbrev pub remainder : (ℕ → Value) → (ℤ → Option ℕ) → ℤ → ℤ → Outcome SqlError Value
remainder make word a b = elim (word (a /ℤ b)) [
  | none ↦ panic
  | some quotient ↦ elim (word (a %ℤ b)) [ none ↦ panic | some r ↦ ok (make r) ]
]

abbrev pub is_zero_int : Value → Bool
is_zero_int (Value.int4 n) = n == 0
is_zero_int (Value.int8 n) = n == 0
is_zero_int v = false

unfoldable pub modulo_op : Value → Value → Outcome SqlError Value
modulo_op (Value.int4 a) (Value.int4 b) = remainder Value.int4 word32 (signed32 a) (signed32 b)
modulo_op (Value.int8 a) (Value.int8 b) = remainder Value.int8 word64 (signed64 a) (signed64 b)
modulo_op (Value.int4 a) (Value.int8 b) = remainder Value.int8 word64 (signed32 a) (signed64 b)
modulo_op (Value.int8 a) (Value.int4 b) = remainder Value.int8 word64 (signed64 a) (signed32 b)
modulo_op a b = err SqlError.execution

unfoldable pub logic_op : BinaryOp → Value → Value → Outcome SqlError Value
logic_op BinaryOp.and (Value.bool a) (Value.bool b) = ok (Value.bool (a && b))
logic_op BinaryOp.or (Value.bool a) (Value.bool b) = ok (Value.bool (a || b))
logic_op op a b = err SqlError.type_error

module _ (floats : Floats) (texts : Texts) (arithmetic : Arithmetic) where
  open floats use {float_cmp, of_int, parse}
  open texts use {parse_date, parse_timestamp, display, json_at, json_text_at}
  open arithmetic use {float_op, is_zero, format_numeric}

  -- A text beside a date, a timestamp or a UUID is read as one, if it can be.
  unfoldable pub coerce : Value → Value → Value × Value
  coerce (Value.date d) (Value.text s) =
      (Value.date d, or_else (parse_date s) Value.date (Value.text s))
  coerce (Value.text s) (Value.date d) =
      (or_else (parse_date s) Value.date (Value.text s), Value.date d)
  coerce (Value.timestamp d) (Value.text s) =
      (Value.timestamp d, or_else (parse_timestamp s) Value.timestamp (Value.text s))
  coerce (Value.text s) (Value.timestamp d) =
      (or_else (parse_timestamp s) Value.timestamp (Value.text s), Value.timestamp d)
  coerce (Value.uuid u) (Value.text s) = (Value.uuid u, Value.uuid s)
  coerce (Value.text s) (Value.uuid u) = (Value.uuid s, Value.uuid u)
  coerce a b = (a, b)

  unfoldable pub numeric_to_float : Value → Option ℕ
  numeric_to_float (Value.int4 i) = some (of_int (signed32 i))
  numeric_to_float (Value.int8 i) = some (of_int (signed64 i))
  numeric_to_float (Value.float8 f) = some f
  numeric_to_float (Value.numeric s) = parse s
  numeric_to_float v = none

  abbrev pub is_numeric : Value → Bool
  is_numeric (Value.numeric s) = true
  is_numeric v = false

  abbrev pub float_result : BinaryOp → Bool → Option ℕ → Option ℕ → Outcome SqlError Value
  float_result op numeric none y = err SqlError.type_error
  float_result op numeric (some x) none = err SqlError.type_error
  float_result op true (some x) (some y) = ok (Value.numeric (format_numeric (float_op op x y)))
  float_result op false (some x) (some y) = ok (Value.float8 (float_op op x y))

  unfoldable pub checked_numeric_op : BinaryOp → Value → Value → Outcome SqlError Value
  checked_numeric_op op (Value.int4 a) (Value.int4 b) =
      checked Value.int4 (word32 (integer_op op (signed32 a) (signed32 b)))
  checked_numeric_op op (Value.int8 a) (Value.int8 b) =
      checked Value.int8 (word64 (integer_op op (signed64 a) (signed64 b)))
  checked_numeric_op op (Value.int4 a) (Value.int8 b) =
      checked Value.int8 (word64 (integer_op op (signed32 a) (signed64 b)))
  checked_numeric_op op (Value.int8 a) (Value.int4 b) =
      checked Value.int8 (word64 (integer_op op (signed64 a) (signed32 b)))
  checked_numeric_op op a b =
      float_result op (is_numeric a || is_numeric b) (numeric_to_float a) (numeric_to_float b)

  abbrev pub divides_by_zero : Value → Bool
  divides_by_zero (Value.float8 f) = is_zero f
  divides_by_zero v = is_zero_int v

  -- The `match op`, for operands that are not NULL.
  unfoldable pub apply_op : BinaryOp → Value → Value → Outcome SqlError Value
  apply_op BinaryOp.eq a b =
      ok (Value.bool (values_equal floats a b || is_equal (partial_cmp floats a b)))
  apply_op BinaryOp.not_eq a b =
      ok (Value.bool (not (values_equal floats a b) && not (is_equal (partial_cmp floats a b))))
  apply_op BinaryOp.lt a b = ok (Value.bool (is_less (partial_cmp floats a b)))
  apply_op BinaryOp.le a b =
      ok (Value.bool (is_less (partial_cmp floats a b) || is_equal (partial_cmp floats a b)))
  apply_op BinaryOp.gt a b = ok (Value.bool (is_greater (partial_cmp floats a b)))
  apply_op BinaryOp.ge a b =
      ok (Value.bool (is_greater (partial_cmp floats a b) || is_equal (partial_cmp floats a b)))
  apply_op BinaryOp.and a b = logic_op BinaryOp.and a b
  apply_op BinaryOp.or a b = logic_op BinaryOp.or a b
  apply_op BinaryOp.add a b = checked_numeric_op BinaryOp.add a b
  apply_op BinaryOp.sub a b = checked_numeric_op BinaryOp.sub a b
  apply_op BinaryOp.mul a b = checked_numeric_op BinaryOp.mul a b
  apply_op BinaryOp.div a b =
      if divides_by_zero b
      then err SqlError.division_by_zero
      else checked_numeric_op BinaryOp.div a b
  apply_op BinaryOp.concat a b = ok (Value.text (display a ++ display b))
  apply_op BinaryOp.modulo a b =
      if is_zero_int b then err SqlError.division_by_zero else modulo_op a b
  apply_op BinaryOp.json_get a b = ok (get_json json_at Value.json a b)
  apply_op BinaryOp.json_get_text a b = ok (get_json json_text_at Value.text a b)

  abbrev pub eval_with : Option Value → BinaryOp → Value × Value → Outcome SqlError Value
  eval_with (some v) op operands = ok v
  eval_with none op operands = apply_op op operands.0 operands.1

  unfoldable pub eval_binary_op : Value → BinaryOp → Value → Outcome SqlError Value
  eval_binary_op left op right = eval_with (null_result op left right) op (coerce left right)
