-- ===== src/Sql/Join/Schema.antt =====
-- The schema of the rows that a join gives.
use icedb.Sql.Join.{
  JoinType, Row, merge_rows, schema_of, null_row, left_pad_row, right_pad_row, or_padded, exec_join,
}
use icedb.Sql.Join.Loops.{
  chosen, all_parts, on_right, on_left, alone, loop_rows, exec_join-loop_rows,
}
use icedb.Base.{
  nat_key, [], ◌∷◌, true, false, ok, refl, arith, ◌≡◌, Bool, List, All, ℕ, if◌then◌else◌, map,
  All-append, Outcome, length, ◌++◌, length-append, ap₂,
}
use icedb.Sql.Value.{DataType, Value, SqlError}

-- A row has the columns of a schema, and a value for each.
unfoldable pub HasSchema : List (List ℕ × DataType) → Row → Type 0
HasSchema s r = (r.schema ≡ s) × (length r.values ≡ length r.schema)

module _ (P : Row → Type 0) where
  either_branch : (b : Bool) (xs ys : List Row) → All P xs → All P ys → All P (if b then xs else ys)
  either_branch true xs ys h k = h
  either_branch false xs ys h k = k

  All-chosen : (f : Row → Bool) (xs : List Row) → All P xs → All P (chosen f xs)
  unfolding chosen
  All-chosen f [] h = tt
  All-chosen f (x ∷ xs) h =
      let rest = All-chosen f xs h.1 in
      either_branch (f x) (x ∷ chosen f xs) (chosen f xs) (h.0, rest) rest

  All-or_padded :
      (rows : List Row) (padded : Row) → All P rows → P padded → All P (or_padded rows padded)
  unfolding or_padded
  All-or_padded [] padded h k = (k, tt)
  All-or_padded (r ∷ rows) padded h k = h

module _ (P Q : Row → Type 0) where
  All-map :
      (g : Row → Row) (xs : List Row) → ((x : Row) → P x → Q (g x)) → All P xs → All Q (map g xs)
  All-map g [] step h = tt
  All-map g (x ∷ xs) step h = (step x h.0, All-map g xs step h.1)

  All-all_parts :
      (g : Row → List Row) (xs : List Row)
      → ((x : Row) → P x → All Q (g x))
      → All P xs
      → All Q (all_parts g xs)
  unfolding all_parts
  All-all_parts g [] step h = tt
  All-all_parts g (x ∷ xs) step h =
      All-append Q (g x) (all_parts g xs) (step x h.0) (All-all_parts g xs step h.1)

length-map_column :
    (s : List (List ℕ × DataType)) → length (map (λ column. Value.null) s) ≡ length s
length-map_column [] = refl
length-map_column (c ∷ s) = omega (arith, length-map_column s)

null_row-HasSchema : (s : List (List ℕ × DataType)) → HasSchema s (null_row s)
unfolding HasSchema null_row
null_row-HasSchema s = (refl, length-map_column s)

module _ (left_schema right_schema : List (List ℕ × DataType)) where
  merge_rows-HasSchema :
      (l r : Row)
      → HasSchema left_schema l
      → HasSchema right_schema r
      → HasSchema (left_schema ++ right_schema) (merge_rows l r)
  unfolding HasSchema merge_rows
  merge_rows-HasSchema l r h k =
      let vs = length-append l.values r.values in
      let ss = length-append l.schema r.schema in
      (ap₂ (λ a b. a ++ b) h.0 k.0, omega (arith, vs, ss, h.1, k.1))

  module _ (value : Row → Value) (ls rs : List Row) (lefts : All (HasSchema left_schema) ls)
      (rights : All (HasSchema right_schema) rs) (on_left_side : schema_of ls ≡ left_schema)
      (on_right_side : schema_of rs ≡ right_schema) where
    left_pad_row-HasSchema :
        (l : Row)
        → HasSchema left_schema l
        → HasSchema (left_schema ++ right_schema) (left_pad_row l rs)
    unfolding left_pad_row
    left_pad_row-HasSchema l h =
        rw (on_right_side)
          (merge_rows-HasSchema l (null_row right_schema) h (null_row-HasSchema right_schema))

    right_pad_row-HasSchema :
        (r : Row)
        → HasSchema right_schema r
        → HasSchema (left_schema ++ right_schema) (right_pad_row ls r)
    unfolding right_pad_row
    right_pad_row-HasSchema r h =
        rw (on_left_side)
          (merge_rows-HasSchema (null_row left_schema) r (null_row-HasSchema left_schema) h)

    on_right-HasSchema :
        (l : Row)
        → HasSchema left_schema l
        → All (HasSchema (left_schema ++ right_schema)) (on_right value rs l)
    unfolding on_right
    on_right-HasSchema l h =
        All-map (HasSchema right_schema) (HasSchema (left_schema ++ right_schema))
          (λ r. merge_rows l r) _ (λ r k. merge_rows-HasSchema l r h k)
          (All-chosen (HasSchema right_schema) _ rs rights)

    on_left-HasSchema :
        (r : Row)
        → HasSchema right_schema r
        → All (HasSchema (left_schema ++ right_schema)) (on_left value ls r)
    unfolding on_left
    on_left-HasSchema r k =
        All-map (HasSchema left_schema) (HasSchema (left_schema ++ right_schema))
          (λ l. merge_rows l r) _ (λ l h. merge_rows-HasSchema l r h k)
          (All-chosen (HasSchema left_schema) _ ls lefts)

    left_rows : All (HasSchema (left_schema ++ right_schema)) (loop_rows value JoinType.left ls rs)
    unfolding loop_rows
    left_rows =
        All-all_parts (HasSchema left_schema) (HasSchema (left_schema ++ right_schema)) _ ls
          (λ l h.
            All-or_padded (HasSchema (left_schema ++ right_schema)) _ _ (on_right-HasSchema l h)
              (left_pad_row-HasSchema l h))
          lefts

    right_rows :
        All (HasSchema (left_schema ++ right_schema)) (loop_rows value JoinType.right ls rs)
    unfolding loop_rows
    right_rows =
        All-all_parts (HasSchema right_schema) (HasSchema (left_schema ++ right_schema)) _ rs
          (λ r h.
            All-or_padded (HasSchema (left_schema ++ right_schema)) _ _ (on_left-HasSchema r h)
              (right_pad_row-HasSchema r h))
          rights

    loop_rows-HasSchema :
        (j : JoinType) → All (HasSchema (left_schema ++ right_schema)) (loop_rows value j ls rs)
    unfolding loop_rows alone
    loop_rows-HasSchema JoinType.inner =
        All-all_parts (HasSchema left_schema) (HasSchema (left_schema ++ right_schema)) _ ls
          on_right-HasSchema lefts
    loop_rows-HasSchema JoinType.cross =
        All-all_parts (HasSchema left_schema) (HasSchema (left_schema ++ right_schema)) _ ls
          on_right-HasSchema lefts
    loop_rows-HasSchema JoinType.left = left_rows
    loop_rows-HasSchema JoinType.right = right_rows
    loop_rows-HasSchema JoinType.full =
        All-append (HasSchema (left_schema ++ right_schema)) _ _ right_rows (
          All-map (HasSchema left_schema) (HasSchema (left_schema ++ right_schema))
            (λ l. left_pad_row l rs) _ left_pad_row-HasSchema
            (All-chosen (HasSchema left_schema) _ ls lefts))

  -- The rows of each side have that side's schema, with a value for each column, and the schema of its
  -- first row (empty without a row) is that schema; the condition has a value for each two such rows
  -- side by side. Then a nested-loop join succeeds, and its rows have the columns of both sides, with
  -- a value for each.
  pub exec_join-HasSchema :
      (eval : Row → Outcome SqlError Value) (value : Row → Value)
      → ((l r : Row)
          → HasSchema left_schema l
          → HasSchema right_schema r
          → eval (merge_rows l r) ≡ ok (value (merge_rows l r)))
      → (j : JoinType) (ls rs : List Row) → All (HasSchema left_schema) ls
      → All (HasSchema right_schema) rs
      → schema_of ls ≡ left_schema
      → schema_of rs ≡ right_schema
      → (out : List Row) × (exec_join eval j ls rs ≡ ok out)
        × All (HasSchema (left_schema ++ right_schema)) out
  exec_join-HasSchema eval value total j ls rs lefts rights left_first right_first = (
    loop_rows value j ls rs,
    exec_join-loop_rows eval value (HasSchema left_schema) (HasSchema right_schema) total j ls rs
        lefts rights,
    loop_rows-HasSchema value ls rs lefts rights left_first right_first j,
  )
