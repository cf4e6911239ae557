-- ===== src/Sql/Join/Tests.antt =====
-- The joins of crates/sql/src/executor.rs on small rows.
use icedb.Sql.Join.{
  JoinType, Row, exec_join, schema_of, full_loop, left_loop, right_partners, mark_partners,
  row_matches, or_padded, merge_rows, left_pad_row, null_row, right_pad_row, pad_unmarked,
}
use icedb.Sql.Join.Pairs.{join_rows, exec_join-join_rows, beside}
use icedb.Sql.Join.Schema.{HasSchema, exec_join-HasSchema}
use icedb.Sql.Value.{Value, DataType, SqlError}
use icedb.Base.{nat_key, [], ◌∷◌, ok, refl, ◌≡◌, Outcome, List, All, ◌++◌, map, ℕ, ◌==◌, true, err}

-- ON a = b: an error where a row has no two numbers.
abbrev first_two : List Value → Outcome SqlError Value
first_two (Value.int4 a ∷ Value.int4 b ∷ vs) = ok (Value.bool (a == b))
first_two vs = err SqlError.execution

abbrev value_of : Outcome SqlError Value → Value
value_of (ok v) = v
value_of r = Value.null

abbrev eval : Row → Outcome SqlError Value
eval r = first_two r.values

abbrev value : Row → Value
value r = value_of (first_two r.values)

abbrev column : List ℕ → List (List ℕ × DataType)
column name = (name, DataType.int4) ∷ []

abbrev row : List ℕ → ℕ → Row
row name v = record { values = Value.int4 v ∷ []; schema = column name }

-- The columns a and b.
abbrev lefts : List Row
lefts = row (97 ∷ []) 1 ∷ row (97 ∷ []) 2 ∷ []

abbrev rights : List Row
rights = row (98 ∷ []) 2 ∷ row (98 ∷ []) 3 ∷ []

abbrev values_of : Outcome SqlError (List Row) → List (List Value)
values_of (ok rows) = map (λ (r : Row). r.values) rows
values_of other = []

full_values :
    values_of (exec_join eval JoinType.full lefts rights)
    ≡ (Value.int4 2 ∷ Value.int4 2 ∷ [])
      ∷ (Value.null ∷ Value.int4 3 ∷ [])
      ∷ (Value.int4 1 ∷ Value.null ∷ [])
      ∷ []
unfolding exec_join full_loop mark_partners row_matches or_padded merge_rows right_pad_row
    pad_unmarked null_row left_pad_row schema_of
full_values = refl

-- With no row on the right, LEFT JOIN gives rows without its columns.
empty_right : exec_join eval JoinType.left (row (97 ∷ []) 1 ∷ []) [] ≡ ok (row (97 ∷ []) 1 ∷ [])
unfolding exec_join left_loop right_partners or_padded left_pad_row merge_rows null_row schema_of
empty_right = refl

lefts-HasSchema : All (HasSchema (column (97 ∷ []))) lefts
unfolding HasSchema
lefts-HasSchema = ((refl, refl), ((refl, refl), tt))

rights-HasSchema : All (HasSchema (column (98 ∷ []))) rights
unfolding HasSchema
rights-HasSchema = ((refl, refl), ((refl, refl), tt))

first_schema : (schema_of lefts ≡ column (97 ∷ [])) × (schema_of rights ≡ column (98 ∷ []))
unfolding schema_of
first_schema = (refl, refl)

-- The rows with one number.
abbrev IsNumber : List (List ℕ × DataType) → Row → Type 0
IsNumber s r = (n : ℕ) × (r ≡ record { values = Value.int4 n ∷ []; schema = s })

eval-pairs :
    (s t : List (List ℕ × DataType)) (l r : Row)
    → IsNumber s l
    → IsNumber t r
    → eval (beside l r) ≡ ok (value (beside l r))
unfolding beside
eval-pairs s t l r (a, h) (b, k) = rw (h, k) refl

exec_join-join_rows_example :
    exec_join eval JoinType.full lefts rights ≡ ok (join_rows value JoinType.full lefts rights)
exec_join-join_rows_example =
    exec_join-join_rows eval value (IsNumber (column (97 ∷ []))) (IsNumber (column (98 ∷ [])))
      (eval-pairs (column (97 ∷ [])) (column (98 ∷ []))) JoinType.full lefts rights
      ((1, refl), ((2, refl), tt)) ((2, refl), ((3, refl), tt))

-- A condition of the schema alone: it has a value where both sides have the columns a and b.
abbrev both_columns : List (List ℕ × DataType) → Outcome SqlError Value
both_columns (c ∷ d ∷ cs) = ok (Value.bool true)
both_columns cs = err SqlError.execution

abbrev eval_columns : Row → Outcome SqlError Value
eval_columns r = both_columns r.schema

eval_columns-pairs :
    (l r : Row)
    → HasSchema (column (97 ∷ [])) l
    → HasSchema (column (98 ∷ [])) r
    → eval_columns (merge_rows l r) ≡ ok (Value.bool true)
unfolding HasSchema merge_rows
eval_columns-pairs l r (h, m) (k, n) = rw (h, k) refl

exec_join-HasSchema_example :
    (out : List Row) × (exec_join eval_columns JoinType.full lefts rights ≡ ok out)
    × All (HasSchema (column (97 ∷ []) ++ column (98 ∷ []))) out
exec_join-HasSchema_example =
    exec_join-HasSchema (column (97 ∷ [])) (column (98 ∷ [])) eval_columns (λ r. Value.bool true)
      eval_columns-pairs JoinType.full lefts rights lefts-HasSchema rights-HasSchema
      (first_schema.0) (first_schema.1)
