-- ===== src/Sql/Operators/Tests.antt =====
-- Runs of `eval_binary_op` in crates/sql/src/executor.rs.
use icedb.Sql.Value.{Value, SqlError}
use icedb.Sql.Order.{Floats, compare_ℤ}
use icedb.Sql.Operators.{
  BinaryOp, Texts, Arithmetic, eval_binary_op, null_result, apply_op, coerce, checked_numeric_op,
  modulo_op, integer_op,
}
use icedb.Sql.Operators.Logic.{three_valued, truth, rank, eval}
use icedb.Sql.Operators.Integers.{int4_arithmetic, IsExact32, eval_int4}
use icedb.Base.{
  nat_key, [], none, some, false, ok, err, refl, ◌≡◌, ◌+◌, Option, Outcome, signed32, ◌==◌, pos,
  ◌+ℤ◌, ◌/ℤ◌, Bool, pos_part, min, word32, ◌-ℤ◌, panic, ◌*ℤ◌, ℕ, ◌⊎◌, ◌≢◌,
}
use Prim.Native.Nat.{max}

abbrev floats : Floats
floats = record {
  float_cmp = λ a b. some (compare_ℤ (pos a) (pos b));
  of_int = λ i. pos_part i;
  parse = λ s. none;
}

abbrev texts : Texts
texts = record {
  parse_date = λ s. none;
  parse_timestamp = λ s. none;
  display = λ v. [];
  json_at = λ s key. none;
  json_text_at = λ s key. none;
}

abbrev arithmetic : Arithmetic
arithmetic = record { float_op = λ op a b. a + b; is_zero = λ f. f == 0; format_numeric = λ f. [] }

abbrev run : Value → BinaryOp → Value → Outcome SqlError Value
run a op b = eval_binary_op floats texts arithmetic a op b

overflow : run (Value.int4 0x7fff_ffff) BinaryOp.add (Value.int4 1) ≡ err SqlError.numeric_overflow
unfolding eval_binary_op null_result apply_op coerce checked_numeric_op integer_op ◌+ℤ◌ word32
overflow = refl

-- The least `int4` modulo -1 panics.
least_modulo : run (Value.int4 0x8000_0000) BinaryOp.modulo (Value.int4 0xffff_ffff) ≡ panic
unfolding eval_binary_op null_result apply_op coerce modulo_op ◌/ℤ◌ word32
least_modulo = refl

three_valued_example :
    ((c : Option Bool) × (eval floats texts arithmetic
          (truth none)
          BinaryOp.and
          (truth (some false))
        ≡ ok (truth c))
      × (rank c ≡ min (rank none) (rank (some false))))
    × ((c : Option Bool) × (eval floats texts arithmetic
            (truth none)
            BinaryOp.or
            (truth (some false))
          ≡ ok (truth c))
        × (rank c ≡ max (rank none) (rank (some false))))
three_valued_example = three_valued floats texts arithmetic none (some false)

int4_arithmetic_example :
    IsExact32 (signed32 7 +ℤ signed32 3) (eval_int4 floats texts arithmetic 7 3 BinaryOp.add)
    × IsExact32 (signed32 7 -ℤ signed32 3) (eval_int4 floats texts arithmetic 7 3 BinaryOp.sub)
    × IsExact32 (signed32 7 *ℤ signed32 3) (eval_int4 floats texts arithmetic 7 3 BinaryOp.mul)
    × (((◌≡◌ {A = ℕ} 3 0)
          × (eval_int4 floats texts arithmetic 7 3 BinaryOp.div ≡ err SqlError.division_by_zero))
        ⊎ ((◌≢◌ {A = ℕ} 3 0)
            × IsExact32
                (signed32 7 /ℤ signed32 3)
                (eval_int4 floats texts arithmetic 7 3 BinaryOp.div)))
int4_arithmetic_example = int4_arithmetic floats texts arithmetic 7 3
