-- ===== src/Sql/Operators/Integers.antt =====
-- Integer arithmetic is exact or an error.
use icedb.Sql.Value.{Value, SqlError}
use icedb.Sql.Order.{Floats}
use icedb.Sql.Operators.{
  BinaryOp, Texts, Arithmetic, eval_binary_op, checked, null_result, apply_op, coerce,
  checked_numeric_op, integer_op,
}
use icedb.Base.{
  nat_key, false, inl, inr, ok, err, arith, ◌≡◌, ℕ, ℤ, Outcome, word32, word32-cases, Fits32, ap,
  signed32, ◌+ℤ◌, ◌⊎◌, ◌-ℤ◌, ◌*ℤ◌, ◌≢◌, ◌/ℤ◌, ◌==◌,
}
use native.Mathlib.Decide.{ℕ_discrete}

-- The result for an exact value: the word that stands for it, or an overflow error outside the range.
abbrev pub IsExact32 : ℤ → Outcome SqlError Value → Type 0
IsExact32 z r =
    (Fits32 z × ((w : ℕ) × (r ≡ ok (Value.int4 w)) × (signed32 w ≡ z)))
    ⊎ ((¬ Fits32 z) × (r ≡ err SqlError.numeric_overflow))

checked-IsExact32 : (z : ℤ) → IsExact32 z (checked Value.int4 (word32 z))
checked-IsExact32 z = elim (word32-cases z) [
  | inl (fits, (w, e, s)) ↦ inl (fits, (w, ap (checked Value.int4) e, s))
  | inr (outside, e) ↦ inr (outside, ap (checked Value.int4) e)
]

module _ (floats : Floats) (texts : Texts) (arithmetic : Arithmetic) (a b : ℕ) where
  abbrev pub eval_int4 : BinaryOp → Outcome SqlError Value
  eval_int4 op = eval_binary_op floats texts arithmetic (Value.int4 a) op (Value.int4 b)

  -- The sum, difference and product of two `int4` values are the exact integers, or an overflow error
  -- where these are out of range. So is the quotient, rounded towards zero; a divisor of zero is an
  -- error of its own.
  pub int4_arithmetic :
      IsExact32 (signed32 a +ℤ signed32 b) (eval_int4 BinaryOp.add)
      × IsExact32 (signed32 a -ℤ signed32 b) (eval_int4 BinaryOp.sub)
      × IsExact32 (signed32 a *ℤ signed32 b) (eval_int4 BinaryOp.mul)
      × (((b ≡ 0) × (eval_int4 BinaryOp.div ≡ err SqlError.division_by_zero))
          ⊎ ((b ≢ 0) × IsExact32 (signed32 a /ℤ signed32 b) (eval_int4 BinaryOp.div)))
  unfolding eval_binary_op null_result apply_op coerce checked_numeric_op integer_op
  int4_arithmetic = (
    checked-IsExact32 (signed32 a +ℤ signed32 b),
    checked-IsExact32 (signed32 a -ℤ signed32 b),
    checked-IsExact32 (signed32 a *ℤ signed32 b),
    elim (ℕ_discrete b 0) [
      | yes same ↦ inl (same, ground (arith, same))
      | no ne ↦
          let nonzero : (b == 0) ≡ false = ground (arith, ne) in
          inr (ne, rw nonzero (checked-IsExact32 (signed32 a /ℤ signed32 b)))
    ],
  )
