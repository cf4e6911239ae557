-- ===== src/Sql/Join/Pairs.antt =====
-- Joins as pairs of rows: an independent description of what `exec_join` gives.
use icedb.Sql.Join.{
  JoinType, Row, merge_rows, schema_of, null_row, left_pad_row, right_pad_row, or_padded, is_true,
  exec_join,
}
use icedb.Sql.Join.Loops.{
  chosen, some_of, all_parts, accepts, on_right, on_left, alone, loop_rows, exec_join-loop_rows,
}
use icedb.Sql.Value.{Value, DataType, SqlError}
use icedb.Base.{
  nat_key, [], ◌∷◌, inl, inr, ok, refl, ◌≡◌, Outcome, List, ◌++◌, replicate, Bool, map, ℕ, All,
  length, ap, ap₂, if◌then◌else◌, Bool-cases, ◌∙◌, not,
}

-- The values and the columns of two rows side by side.
unfoldable pub beside : Row → Row → Row
beside l r = record { values = l.values ++ r.values; schema = l.schema ++ r.schema }

-- A NULL for each column of the first row, where there is one.
unfoldable pub nulls_for : List Row → Row
nulls_for [] = record { values = []; schema = [] }
nulls_for (r ∷ rows) = record { values = replicate (length r.schema) Value.null; schema = r.schema }

module _ (value : Row → Value) where
  unfoldable pub pairs_with : Row → Row → Bool
  pairs_with l r = is_true (value (beside l r))

  unfoldable pub pairs_of_left : List Row → Row → List Row
  pairs_of_left rs l = map (λ r. beside l r) (chosen (λ r. pairs_with l r) rs)

  unfoldable pub pairs_of_right : List Row → Row → List Row
  pairs_of_right ls r = map (λ l. beside l r) (chosen (λ l. pairs_with l r) ls)

  unfoldable pub outer_left : List Row → Row → List Row
  outer_left rs l =
      if some_of (λ r. pairs_with l r) rs then pairs_of_left rs l else beside l (nulls_for rs) ∷ []

  unfoldable pub outer_right : List Row → Row → List Row
  outer_right ls r =
      if some_of (λ l. pairs_with l r) ls then pairs_of_right ls r else beside (nulls_for ls) r ∷ []

  unfoldable pub join_rows : JoinType → List Row → List Row → List Row
  join_rows JoinType.inner ls rs = all_parts (λ l. pairs_of_left rs l) ls
  join_rows JoinType.cross ls rs = all_parts (λ l. pairs_of_left rs l) ls
  join_rows JoinType.left ls rs = all_parts (λ l. outer_left rs l) ls
  join_rows JoinType.right ls rs = all_parts (λ r. outer_right ls r) rs
  join_rows JoinType.full ls rs =
      all_parts (λ r. outer_right ls r) rs
      ++ map (λ l. beside l (nulls_for rs))
          (chosen (λ l. not (some_of (λ r. pairs_with l r) rs)) ls)

all_parts-cong :
    (f g : Row → List Row) (xs : List Row)
    → ((x : Row) → f x ≡ g x)
    → all_parts f xs ≡ all_parts g xs
unfolding all_parts
all_parts-cong f g [] same = refl
all_parts-cong f g (x ∷ xs) same = ap₂ (λ a b. a ++ b) (same x) (all_parts-cong f g xs same)

map-cong : (f g : Row → Row) (xs : List Row) → ((x : Row) → f x ≡ g x) → map f xs ≡ map g xs
map-cong f g [] same = refl
map-cong f g (x ∷ xs) same = ap₂ (λ a b. a ∷ b) (same x) (map-cong f g xs same)

or_padded-chosen :
    (g : Row → Row) (f : Row → Bool) (xs : List Row) (padded : Row)
    → or_padded (map g (chosen f xs)) padded
      ≡ (if some_of f xs then map g (chosen f xs) else padded ∷ [])
unfolding or_padded chosen some_of
or_padded-chosen g f [] padded = refl
or_padded-chosen g f (x ∷ xs) padded = elim (Bool-cases (f x)) [
  | inl e ↦ rw e refl
  | inr e ↦ rw e (or_padded-chosen g f xs padded)
]

map-null :
    (s : List (List ℕ × DataType)) → map (λ column. Value.null) s ≡ replicate (length s) Value.null
unfolding replicate
map-null [] = refl
map-null (c ∷ s) = ap (λ vs. Value.null ∷ vs) (map-null s)

merge_rows-beside : (l r : Row) → merge_rows l r ≡ beside l r
unfolding merge_rows beside
merge_rows-beside l r = refl

null_row-nulls_for : (rows : List Row) → null_row (schema_of rows) ≡ nulls_for rows
unfolding null_row schema_of nulls_for
null_row-nulls_for [] = refl
null_row-nulls_for (r ∷ rs) = rw (map-null r.schema) refl

left_pad_row-beside : (l : Row) (rs : List Row) → left_pad_row l rs ≡ beside l (nulls_for rs)
unfolding left_pad_row
left_pad_row-beside l rs = rw null_row-nulls_for (merge_rows-beside l (nulls_for rs))

right_pad_row-beside : (ls : List Row) (r : Row) → right_pad_row ls r ≡ beside (nulls_for ls) r
unfolding right_pad_row
right_pad_row-beside ls r = rw null_row-nulls_for (merge_rows-beside (nulls_for ls) r)

module _ (value : Row → Value) where
  on_right-pairs_of_left :
      (rs : List Row) (l : Row) → on_right value rs l ≡ pairs_of_left value rs l
  unfolding on_right pairs_of_left accepts pairs_with merge_rows beside
  on_right-pairs_of_left rs l = refl

  padded-outer_left :
      (rs : List Row) (l : Row)
      → or_padded (on_right value rs l) (left_pad_row l rs) ≡ outer_left value rs l
  unfolding on_right pairs_of_left accepts pairs_with merge_rows beside outer_left
  padded-outer_left rs l =
      rw left_pad_row-beside (or_padded-chosen _ _ rs (beside l (nulls_for rs)))

  padded-outer_right :
      (ls : List Row) (r : Row)
      → or_padded (on_left value ls r) (right_pad_row ls r) ≡ outer_right value ls r
  unfolding on_left pairs_of_right accepts pairs_with merge_rows beside outer_right
  padded-outer_right ls r =
      rw right_pad_row-beside (or_padded-chosen _ _ ls (beside (nulls_for ls) r))

  loop_rows-join_rows :
      (j : JoinType) (ls rs : List Row) → loop_rows value j ls rs ≡ join_rows value j ls rs
  unfolding loop_rows join_rows
  loop_rows-join_rows JoinType.inner ls rs = all_parts-cong _ _ ls (on_right-pairs_of_left rs)
  loop_rows-join_rows JoinType.cross ls rs = all_parts-cong _ _ ls (on_right-pairs_of_left rs)
  loop_rows-join_rows JoinType.left ls rs = all_parts-cong _ _ ls (padded-outer_left rs)
  loop_rows-join_rows JoinType.right ls rs = all_parts-cong _ _ rs (padded-outer_right ls)
  loop_rows-join_rows JoinType.full ls rs =
      ap₂ (λ a b. a ++ b) (all_parts-cong _ _ rs (padded-outer_right ls))
        (unfold alone accepts pairs_with merge_rows beside in
          map-cong _ _ _ (λ l. left_pad_row-beside l rs))

-- The condition has a value for each pair of a row of the left kind and one of the right kind, and
-- the rows are of these kinds. Then a nested-loop join ON that condition succeeds, and gives the pairs for which the
-- condition is true, side by side. LEFT and FULL also give each left row that is in no pair, RIGHT
-- and FULL each such right row, beside a NULL for each column of the first row of the other side.
pub exec_join-join_rows :
    (eval : Row → Outcome SqlError Value) (value : Row → Value) (IsLeft IsRight : Row → Type 0)
    → ((l r : Row) → IsLeft l → IsRight r → eval (beside l r) ≡ ok (value (beside l r)))
    → (j : JoinType) (ls rs : List Row) → All IsLeft ls
    → All IsRight rs
    → exec_join eval j ls rs ≡ ok (join_rows value j ls rs)
exec_join-join_rows eval value IsLeft IsRight total j ls rs h k =
    exec_join-loop_rows eval value IsLeft IsRight
      (λ l r a b. unfold merge_rows beside in total l r a b) j ls rs h k
    ∙ ap ok (loop_rows-join_rows value j ls rs)
