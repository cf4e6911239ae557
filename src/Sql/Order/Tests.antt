-- ===== src/Sql/Order/Tests.antt =====
-- Comparison and keys of crates/sql/src/value.rs and codec.rs on small values.
use icedb.Btree.Node.{cmp, less}
use icedb.Sql.Value.{Value, Values}
use icedb.Sql.Order.{Floats, partial_cmp, encode_sort_key, compare_ℤ, to_be}
use icedb.Sql.Order.Keys.{cmp-encode_sort_key, AreSortable}
use icedb.Base.{nat_key, [], ◌∷◌, none, some, refl, arith, ◌≡◌, pos, List, pos_part, ℕ}

-- Floats that are whole and not negative.
abbrev floats : Floats
floats = record {
  float_cmp = λ a b. some (compare_ℤ (pos a) (pos b));
  of_int = λ i. pos_part i;
  parse = λ s. none;
}

abbrev display : Values → List ℕ
display vs = []

-- -1 and 5
abbrev minus_one : Value
minus_one = Value.int4 0xffff_ffff

key_of_minus_one : encode_sort_key display minus_one ≡ 2 ∷ 127 ∷ 255 ∷ 255 ∷ 255 ∷ []
unfolding encode_sort_key to_be
key_of_minus_one = refl

minus_one_below : partial_cmp floats minus_one (Value.int8 5) ≡ some less
unfolding partial_cmp
minus_one_below = refl

cmp-encode_sort_key_example :
    partial_cmp floats minus_one (Value.int4 5)
    ≡ some (cmp (encode_sort_key display minus_one) (encode_sort_key display (Value.int4 5)))
cmp-encode_sort_key_example =
    cmp-encode_sort_key floats display minus_one (Value.int4 5)
      (AreSortable.int4 0xffff_ffff 5 (omega arith) (omega arith))
