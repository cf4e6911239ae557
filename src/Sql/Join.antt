-- ===== src/Sql/Join.antt =====
-- crates/sql/src/executor.rs, the nested loops of `exec_join` and `exec_nested_loop_join`, for a join
-- ON a condition: `eval` is what `eval_expr` gives for it on a row. The columns of USING and the hash
-- join that `exec_join` chooses for some conditions are left out.
pub mod Loops
pub mod Pairs
pub mod Schema
pub mod Tests
use icedb.Sql.Value.{Value, DataType, SqlError}
use icedb.Base.{
  nat_key, zero, suc, [], ◌∷◌, none, some, true, false, inl, inr, ok, err, refl, arith, ◌>>=◌, ◌>>◌,
  ◌≡◌, ◌+◌, Bool, List, Outcome, ◌++◌, map, ℕ, if◌then◌else◌, ◌||◌,
}

pub data JoinType : Type 0 where
  inner left right full cross : JoinType

pub record Row : Type 0 where
  pub values : List Value
  pub schema : List (List ℕ × DataType)

unfoldable pub merge_rows : Row → Row → Row
merge_rows l r = record { values = l.values ++ r.values; schema = l.schema ++ r.schema }

-- The schema of the first row, where there is one.
unfoldable pub schema_of : List Row → List (List ℕ × DataType)
schema_of [] = []
schema_of (r ∷ rows) = r.schema

unfoldable pub null_row : List (List ℕ × DataType) → Row
null_row schema = record { values = map (λ column. Value.null) schema; schema = schema }

unfoldable pub left_pad_row : Row → List Row → Row
left_pad_row lr right_rows = merge_rows lr (null_row (schema_of right_rows))

unfoldable pub right_pad_row : List Row → Row → Row
right_pad_row left_rows rr = merge_rows (null_row (schema_of left_rows)) rr

abbrev pub is_true : Value → Bool
is_true (Value.bool b) = b
is_true v = false

-- The rows found for one row, or that row with NULLs where there are none.
unfoldable pub or_padded : List Row → Row → List Row
or_padded [] padded = padded ∷ []
or_padded (r ∷ rows) padded = r ∷ rows

-- The loop that pads the left rows with no flag.
unfoldable pub pad_unmarked : List (Row × Bool) → List Row → List Row
pad_unmarked [] rs = []
pad_unmarked ((lr, marked) ∷ ls) rs =
    let rest = pad_unmarked ls rs in if marked then rest else left_pad_row lr rs ∷ rest

module _ (eval : Row → Outcome SqlError Value) where
  unfoldable pub row_matches : Row → Row → Outcome SqlError Bool
  row_matches lr rr = do v ← eval (merge_rows lr rr); ok (is_true v)

  -- The inner loop of a left row.
  unfoldable pub right_partners : Row → List Row → Outcome SqlError (List Row)
  right_partners lr [] = ok []
  right_partners lr (rr ∷ rs) = do
    m ← row_matches lr rr
    rest ← right_partners lr rs
    ok (if m then merge_rows lr rr ∷ rest else rest)

  -- The inner loop of a right row.
  unfoldable pub left_partners : List Row → Row → Outcome SqlError (List Row)
  left_partners [] rr = ok []
  left_partners (lr ∷ ls) rr = do
    m ← row_matches lr rr
    rest ← left_partners ls rr
    ok (if m then merge_rows lr rr ∷ rest else rest)

  unfoldable pub inner_loop : List Row → List Row → Outcome SqlError (List Row)
  inner_loop [] rs = ok []
  inner_loop (lr ∷ ls) rs = do
    rows ← right_partners lr rs
    rest ← inner_loop ls rs
    ok (rows ++ rest)

  unfoldable pub left_loop : List Row → List Row → Outcome SqlError (List Row)
  left_loop [] rs = ok []
  left_loop (lr ∷ ls) rs = do
    rows ← right_partners lr rs
    rest ← left_loop ls rs
    ok (or_padded rows (left_pad_row lr rs) ++ rest)

  unfoldable pub right_loop : List Row → List Row → Outcome SqlError (List Row)
  right_loop ls [] = ok []
  right_loop ls (rr ∷ rs) = do
    rows ← left_partners ls rr
    rest ← right_loop ls rs
    ok (or_padded rows (right_pad_row ls rr) ++ rest)

  -- The inner loop of a full join: each left row stands with its flag in `left_matched`.
  unfoldable pub mark_partners :
      List (Row × Bool) → Row → Outcome SqlError (List Row × List (Row × Bool))
  mark_partners [] rr = ok ([], [])
  mark_partners ((lr, marked) ∷ ls) rr = do
    m ← row_matches lr rr
    rest ← mark_partners ls rr
    ok (if m then merge_rows lr rr ∷ rest.0 else rest.0, (lr, m || marked) ∷ rest.1)

  unfoldable pub full_loop :
      List Row → List (Row × Bool) → List Row → Outcome SqlError (List Row × List (Row × Bool))
  full_loop ls marks [] = ok ([], marks)
  full_loop ls marks (rr ∷ rs) = do
    found ← mark_partners marks rr
    rest ← full_loop ls (found.1) rs
    ok (or_padded (found.0) (right_pad_row ls rr) ++ rest.0, rest.1)

  unfoldable pub exec_join : JoinType → List Row → List Row → Outcome SqlError (List Row)
  exec_join JoinType.inner ls rs = inner_loop ls rs
  exec_join JoinType.cross ls rs = inner_loop ls rs
  exec_join JoinType.left ls rs = left_loop ls rs
  exec_join JoinType.right ls rs = right_loop ls rs
  exec_join JoinType.full ls rs = do
    found ← full_loop ls (map (λ lr. (lr, false)) ls) rs
    ok (found.0 ++ pad_unmarked (found.1) rs)

  unfoldable pub exec_nested_loop_join :
      JoinType → List Row → List Row → Outcome SqlError (List Row)
  exec_nested_loop_join JoinType.left ls rs = left_loop ls rs
  exec_nested_loop_join j ls rs = inner_loop ls rs
