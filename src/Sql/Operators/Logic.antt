-- ===== src/Sql/Operators/Logic.antt =====
-- AND and OR with NULL.
use icedb.Sql.Value.{Value, SqlError}
use icedb.Sql.Order.{Floats}
use icedb.Sql.Operators.{
  BinaryOp, Texts, Arithmetic, eval_binary_op, null_result, apply_op, coerce, logic_op,
}
use icedb.Base.{nat_key, none, some, true, false, ok, refl, ◌≡◌, Outcome, Option, Bool, ℕ, min}
use Prim.Native.Nat.{max}

-- A truth value, or none for unknown.
abbrev pub truth : Option Bool → Value
truth none = Value.null
truth (some b) = Value.bool b

-- False is below unknown, and unknown below true.
abbrev pub rank : Option Bool → ℕ
rank (some false) = 0
rank none = 1
rank (some true) = 2

module _ (floats : Floats) (texts : Texts) (arithmetic : Arithmetic) where
  abbrev pub eval : Value → BinaryOp → Value → Outcome SqlError Value
  eval a op b = eval_binary_op floats texts arithmetic a op b

  -- AND of two truth values or NULL is the lower of the two, OR the higher, with NULL between false
  -- and true.
  pub three_valued :
      (a b : Option Bool)
      → ((c : Option Bool) × (eval (truth a) BinaryOp.and (truth b) ≡ ok (truth c))
          × (rank c ≡ min (rank a) (rank b)))
        × ((c : Option Bool) × (eval (truth a) BinaryOp.or (truth b) ≡ ok (truth c))
            × (rank c ≡ max (rank a) (rank b)))
  unfolding eval_binary_op null_result apply_op logic_op coerce
  three_valued none none = ((none, refl, refl), (none, refl, refl))
  three_valued none (some false) = ((some false, refl, refl), (none, refl, refl))
  three_valued none (some true) = ((none, refl, refl), (some true, refl, refl))
  three_valued (some false) none = ((some false, refl, refl), (none, refl, refl))
  three_valued (some false) (some false) = ((some false, refl, refl), (some false, refl, refl))
  three_valued (some false) (some true) = ((some false, refl, refl), (some true, refl, refl))
  three_valued (some true) none = ((none, refl, refl), (some true, refl, refl))
  three_valued (some true) (some false) = ((some false, refl, refl), (some true, refl, refl))
  three_valued (some true) (some true) = ((some true, refl, refl), (some true, refl, refl))
