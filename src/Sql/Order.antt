-- ===== src/Sql/Order.antt =====
-- crates/sql/src/value.rs, `==` and `partial_cmp` of two values, and `encode_sort_key` of
-- crates/sql/src/codec.rs, the keys of an index. Floats are parameters.
pub mod Words
pub mod Keys
pub mod Tests
use icedb.Btree.Node.{Ordering, less, equal, greater, key_lt, cmp}
use icedb.Sql.Value.{Value, Values, nil, cons, bool_byte}
use icedb.Base.{
  nat_key, zero, suc, [], ◌∷◌, none, some, true, false, inl, inr, ok, err, refl, arith, ◌>>=◌, ◌>>◌,
  ◌≡◌, ◌+◌, Bool, ℕ, ℤ, List, Option, if◌then◌else◌, ◌^◌, ◌/◌, signed32, ◌%◌, ltb, signed64, ltb_ℤ,
  ◌-◌, not, ◌==◌, ◌&&◌,
}

-- `f64`: `partial_cmp`, conversion from `i64` (as an integer), and `str::parse`.
pub record Floats : Type 0 where
  pub float_cmp : ℕ → ℕ → Option Ordering
  pub of_int : ℤ → ℕ
  pub parse : List ℕ → Option ℕ

abbrev pub compare_ℤ : ℤ → ℤ → Ordering
compare_ℤ a b = if ltb_ℤ a b then less else if ltb_ℤ b a then greater else equal

abbrev pub compare_bool : Bool → Bool → Ordering
compare_bool false false = equal
compare_bool false true = less
compare_bool true false = greater
compare_bool true true = equal

-- The next pair decides where this one is equal.
abbrev pub then_compare : Option Ordering → Option Ordering → Option Ordering
then_compare none later = none
then_compare (some less) later = some less
then_compare (some equal) later = later
then_compare (some greater) later = some greater

unfoldable pub same_bytes : List ℕ → List ℕ → Bool
same_bytes [] [] = true
same_bytes [] (b ∷ bs) = false
same_bytes (a ∷ more) [] = false
same_bytes (a ∷ more) (b ∷ bs) = a == b && same_bytes more bs

abbrev pub is_equal : Option Ordering → Bool
is_equal (some equal) = true
is_equal o = false

module _ (floats : Floats) where
  open floats use {float_cmp, of_int, parse}

  abbrev pub compare_numerics : List ℕ → List ℕ → Option ℕ → Option ℕ → Option Ordering
  compare_numerics a b (some x) (some y) = float_cmp x y
  compare_numerics a b (some x) none = some (cmp a b)
  compare_numerics a b none y = some (cmp a b)

  abbrev pub numeric_with : Option ℕ → ℕ → Option Ordering
  numeric_with none y = none
  numeric_with (some x) y = float_cmp x y

  abbrev pub with_numeric : ℕ → Option ℕ → Option Ordering
  with_numeric x none = none
  with_numeric x (some y) = float_cmp x y

  unfoldable mutual
    pub partial_cmp : Value → Value → Option Ordering
    partial_cmp Value.null Value.null = some equal
    partial_cmp Value.null b = some less
    partial_cmp a Value.null = some greater
    partial_cmp (Value.bool a) (Value.bool b) = some (compare_bool a b)
    partial_cmp (Value.int4 a) (Value.int4 b) = some (compare_ℤ (signed32 a) (signed32 b))
    partial_cmp (Value.int8 a) (Value.int8 b) = some (compare_ℤ (signed64 a) (signed64 b))
    partial_cmp (Value.float8 a) (Value.float8 b) = float_cmp a b
    partial_cmp (Value.int4 a) (Value.int8 b) = some (compare_ℤ (signed32 a) (signed64 b))
    partial_cmp (Value.int8 a) (Value.int4 b) = some (compare_ℤ (signed64 a) (signed32 b))
    partial_cmp (Value.int4 a) (Value.float8 b) = float_cmp (of_int (signed32 a)) b
    partial_cmp (Value.int8 a) (Value.float8 b) = float_cmp (of_int (signed64 a)) b
    partial_cmp (Value.float8 a) (Value.int4 b) = float_cmp a (of_int (signed32 b))
    partial_cmp (Value.float8 a) (Value.int8 b) = float_cmp a (of_int (signed64 b))
    partial_cmp (Value.text a) (Value.text b) = some (cmp a b)
    partial_cmp (Value.bytes a) (Value.bytes b) = some (cmp a b)
    partial_cmp (Value.date a) (Value.date b) = some (compare_ℤ (signed32 a) (signed32 b))
    partial_cmp (Value.timestamp a) (Value.timestamp b) = some (compare_ℤ (signed64 a) (signed64 b))
    partial_cmp (Value.numeric a) (Value.numeric b) = compare_numerics a b (parse a) (parse b)
    partial_cmp (Value.numeric a) (Value.int4 b) = numeric_with (parse a) (of_int (signed32 b))
    partial_cmp (Value.numeric a) (Value.int8 b) = numeric_with (parse a) (of_int (signed64 b))
    partial_cmp (Value.numeric a) (Value.float8 b) = numeric_with (parse a) b
    partial_cmp (Value.int4 a) (Value.numeric b) = with_numeric (of_int (signed32 a)) (parse b)
    partial_cmp (Value.int8 a) (Value.numeric b) = with_numeric (of_int (signed64 a)) (parse b)
    partial_cmp (Value.float8 a) (Value.numeric b) = with_numeric a (parse b)
    partial_cmp (Value.uuid a) (Value.uuid b) = some (cmp a b)
    partial_cmp (Value.array a) (Value.array b) = compare_items a b
    partial_cmp a b = none

    -- `Vec`'s comparison: item by item, then by length.
    pub compare_items : Values → Values → Option Ordering
    compare_items nil nil = some equal
    compare_items nil (cons b bs) = some less
    compare_items (cons a more) nil = some greater
    compare_items (cons a more) (cons b bs) = then_compare (partial_cmp a b) (compare_items more bs)

  -- The derived `==`.
  unfoldable mutual
    pub values_equal : Value → Value → Bool
    values_equal Value.null Value.null = true
    values_equal (Value.bool false) (Value.bool b) = not b
    values_equal (Value.bool true) (Value.bool b) = b
    values_equal (Value.int4 a) (Value.int4 b) = a == b
    values_equal (Value.int8 a) (Value.int8 b) = a == b
    values_equal (Value.float8 a) (Value.float8 b) = is_equal (float_cmp a b)
    values_equal (Value.text a) (Value.text b) = same_bytes a b
    values_equal (Value.bytes a) (Value.bytes b) = same_bytes a b
    values_equal (Value.date a) (Value.date b) = a == b
    values_equal (Value.timestamp a) (Value.timestamp b) = a == b
    values_equal (Value.numeric a) (Value.numeric b) = same_bytes a b
    values_equal (Value.uuid a) (Value.uuid b) = same_bytes a b
    values_equal (Value.array a) (Value.array b) = items_equal a b
    values_equal (Value.json a) (Value.json b) = same_bytes a b
    values_equal a b = false

    pub items_equal : Values → Values → Bool
    items_equal nil nil = true
    items_equal nil (cons b bs) = false
    items_equal (cons a more) nil = false
    items_equal (cons a more) (cons b bs) = values_equal a b && items_equal more bs

-- `to_be_bytes` of a number below 256 ^ n.
unfoldable pub to_be : ℕ → ℕ → List ℕ
to_be zero v = []
to_be (suc n) v = v / 256 ^ n ∷ to_be n (v % 256 ^ n)

-- The highest bit of a word flipped.
abbrev pub flip32 : ℕ → ℕ
flip32 w = (w + 2 ^ 31) % 2 ^ 32

abbrev pub flip64 : ℕ → ℕ
flip64 w = (w + 2 ^ 63) % 2 ^ 64

-- The bits of an `f64`: the sign flipped, or all bits of a negative number.
abbrev pub flip_float : ℕ → ℕ
flip_float bits = if ltb bits (2 ^ 63) then bits + 2 ^ 63 else 2 ^ 64 - 1 - bits

-- `display` is the text of an array, `Display` of value.rs.
unfoldable pub encode_sort_key : (Values → List ℕ) → Value → List ℕ
encode_sort_key display Value.null = 0 ∷ []
encode_sort_key display (Value.bool b) = 1 ∷ bool_byte b ∷ []
encode_sort_key display (Value.int4 v) = 2 ∷ to_be 4 (flip32 v)
encode_sort_key display (Value.int8 v) = 3 ∷ to_be 8 (flip64 v)
encode_sort_key display (Value.float8 v) = 4 ∷ to_be 8 (flip_float v)
encode_sort_key display (Value.text s) = 5 ∷ s
encode_sort_key display (Value.bytes b) = 6 ∷ b
encode_sort_key display (Value.date v) = 7 ∷ to_be 4 (flip32 v)
encode_sort_key display (Value.timestamp v) = 8 ∷ to_be 8 (flip64 v)
encode_sort_key display (Value.numeric s) = 9 ∷ s
encode_sort_key display (Value.uuid s) = 10 ∷ s
encode_sort_key display (Value.array vs) = 11 ∷ display vs
encode_sort_key display (Value.json s) = 12 ∷ s
