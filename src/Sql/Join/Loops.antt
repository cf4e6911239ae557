-- ===== src/Sql/Join/Loops.antt =====
-- What the nested loops of `exec_join` give when the condition has a value for each pair of a left and
-- a right row, without their marks and errors.
use icedb.Sql.Join.{
  JoinType, Row, merge_rows, left_pad_row, right_pad_row, is_true, or_padded, row_matches,
  right_partners, left_partners, inner_loop, left_loop, right_loop, mark_partners, full_loop,
  pad_unmarked, exec_join,
}
use icedb.Base.{
  nat_key, [], ◌∷◌, false, ok, refl, arith, ◌≡◌, Outcome, List, Bool, if◌then◌else◌, ◌||◌, ◌++◌,
  map, not, ap, ◌∙◌, All,
}
use icedb.Sql.Value.{Value, SqlError}

module _ {ℓ} {A : Type ℓ} where
  unfoldable pub chosen : (A → Bool) → List A → List A
  chosen f [] = []
  chosen f (x ∷ xs) = let rest = chosen f xs in if f x then x ∷ rest else rest

  unfoldable pub some_of : (A → Bool) → List A → Bool
  some_of f [] = false
  some_of f (x ∷ xs) = f x || some_of f xs

module _ {ℓ κ} {A : Type ℓ} {B : Type κ} where
  -- The parts of the elements, one behind the other.
  unfoldable pub all_parts : (A → List B) → List A → List B
  all_parts f [] = []
  all_parts f (x ∷ xs) = f x ++ all_parts f xs

module _ (value : Row → Value) where
  unfoldable pub accepts : Row → Row → Bool
  accepts l r = is_true (value (merge_rows l r))

  unfoldable pub on_right : List Row → Row → List Row
  on_right rs l = map (λ r. merge_rows l r) (chosen (λ r. accepts l r) rs)

  unfoldable pub on_left : List Row → Row → List Row
  on_left ls r = map (λ l. merge_rows l r) (chosen (λ l. accepts l r) ls)

  -- The left rows that no right row is joined with.
  unfoldable pub alone : List Row → List Row → List Row
  alone ls rs = chosen (λ l. not (some_of (λ r. accepts l r) rs)) ls

  unfoldable marked_by : Row → List (Row × Bool) → List (Row × Bool)
  marked_by r [] = []
  marked_by r ((l, m) ∷ marks) = (l, accepts l r || m) ∷ marked_by r marks

  unfoldable marked_by_all : List Row → List (Row × Bool) → List (Row × Bool)
  marked_by_all [] marks = marks
  marked_by_all (r ∷ rs) marks = marked_by_all rs (marked_by r marks)

  unfoldable pub loop_rows : JoinType → List Row → List Row → List Row
  loop_rows JoinType.inner ls rs = all_parts (λ l. on_right rs l) ls
  loop_rows JoinType.cross ls rs = all_parts (λ l. on_right rs l) ls
  loop_rows JoinType.left ls rs = all_parts (λ l. or_padded (on_right rs l) (left_pad_row l rs)) ls
  loop_rows JoinType.right ls rs = all_parts (λ r. or_padded (on_left ls r) (right_pad_row ls r)) rs
  loop_rows JoinType.full ls rs =
      all_parts (λ r. or_padded (on_left ls r) (right_pad_row ls r)) rs
      ++ map (λ l. left_pad_row l rs) (alone ls rs)

unfoldable rows_of : List (Row × Bool) → List Row
rows_of [] = []
rows_of ((l, m) ∷ marks) = l ∷ rows_of marks

module _ (eval : Row → Outcome SqlError Value) (value : Row → Value) (IsLeft IsRight : Row → Type 0)
    (total : (l r : Row)
      → IsLeft l
      → IsRight r
      → eval (merge_rows l r) ≡ ok (value (merge_rows l r))) where
  row_matches-accepts :
      (l r : Row) → IsLeft l → IsRight r → row_matches eval l r ≡ ok (accepts value l r)
  unfolding row_matches accepts
  row_matches-accepts l r h k = rw (total l r h k) refl

  right_partners-on_right :
      (l : Row) (rs : List Row)
      → IsLeft l
      → All IsRight rs
      → right_partners eval l rs ≡ ok (on_right value rs l)
  unfolding right_partners on_right chosen
  right_partners-on_right l [] h k = refl
  right_partners-on_right l (r ∷ rs) h k =
      let here = row_matches-accepts l r h k.0 in
      let rest = right_partners-on_right l rs h k.1 in ground (arith, here, rest)

  left_partners-on_left :
      (ls : List Row) (r : Row)
      → All IsLeft ls
      → IsRight r
      → left_partners eval ls r ≡ ok (on_left value ls r)
  unfolding left_partners on_left chosen
  left_partners-on_left [] r h k = refl
  left_partners-on_left (l ∷ ls) r h k =
      let here = row_matches-accepts l r h.0 k in
      let rest = left_partners-on_left ls r h.1 k in ground (arith, here, rest)

  inner_loop-parts :
      (ls rs : List Row)
      → All IsLeft ls
      → All IsRight rs
      → inner_loop eval ls rs ≡ ok (all_parts (λ l. on_right value rs l) ls)
  unfolding inner_loop all_parts
  inner_loop-parts [] rs h k = refl
  inner_loop-parts (l ∷ ls) rs h k =
      rw (right_partners-on_right l rs h.0 k, inner_loop-parts ls rs h.1 k) refl

  left_loop-parts :
      (ls rs : List Row)
      → All IsLeft ls
      → All IsRight rs
      → left_loop eval ls rs
        ≡ ok (all_parts (λ l. or_padded (on_right value rs l) (left_pad_row l rs)) ls)
  unfolding left_loop all_parts
  left_loop-parts [] rs h k = refl
  left_loop-parts (l ∷ ls) rs h k =
      rw (right_partners-on_right l rs h.0 k, left_loop-parts ls rs h.1 k) refl

  right_loop-parts :
      (ls rs : List Row)
      → All IsLeft ls
      → All IsRight rs
      → right_loop eval ls rs
        ≡ ok (all_parts (λ r. or_padded (on_left value ls r) (right_pad_row ls r)) rs)
  unfolding right_loop all_parts
  right_loop-parts ls [] h k = refl
  right_loop-parts ls (r ∷ rs) h k =
      rw (left_partners-on_left ls r h k.0, right_loop-parts ls rs h k.1) refl

  mark_partners-marked_by :
      (marks : List (Row × Bool)) (r : Row)
      → All IsLeft (rows_of marks)
      → IsRight r
      → mark_partners eval marks r ≡ ok (on_left value (rows_of marks) r, marked_by value r marks)
  unfolding mark_partners on_left chosen marked_by rows_of
  mark_partners-marked_by [] r h k = refl
  mark_partners-marked_by ((l, m) ∷ marks) r h k =
      let here = row_matches-accepts l r h.0 k in
      let rest = mark_partners-marked_by marks r h.1 k in ground (arith, here, rest)

  rows_of-marked_by :
      (marks : List (Row × Bool)) (r : Row) → rows_of (marked_by value r marks) ≡ rows_of marks
  unfolding marked_by rows_of
  rows_of-marked_by [] r = refl
  rows_of-marked_by ((l, m) ∷ marks) r = ap (λ t. l ∷ t) (rows_of-marked_by marks r)

  full_loop-parts :
      (ls : List Row) (marks : List (Row × Bool)) (rs : List Row)
      → All IsLeft (rows_of marks)
      → All IsRight rs
      → full_loop eval ls marks rs
        ≡ ok (
          all_parts (λ r. or_padded (on_left value (rows_of marks) r) (right_pad_row ls r)) rs,
          marked_by_all value rs marks,
        )
  unfolding full_loop all_parts marked_by_all
  full_loop-parts ls marks [] h k = refl
  full_loop-parts ls marks (r ∷ rs) h k =
      let same = rows_of-marked_by marks r in
      let rest = full_loop-parts ls (marked_by value r marks) rs (rw same h) k.1 in
      rw (mark_partners-marked_by marks r h k.0, rest, same) refl

  marked_by_all-cons :
      (l : Row) (m : Bool) (marks : List (Row × Bool)) (rs : List Row)
      → marked_by_all value rs ((l, m) ∷ marks)
        ≡ (l, some_of (λ r. accepts value l r) rs || m) ∷ marked_by_all value rs marks
  unfolding marked_by_all marked_by some_of
  marked_by_all-cons l m marks [] = refl
  marked_by_all-cons l m marks (r ∷ rs) =
      let rest = marked_by_all-cons l (accepts value l r || m) (marked_by value r marks) rs in
      rest ∙ ground arith

  marked_by_all-nil : (rs : List Row) → marked_by_all value rs [] ≡ []
  unfolding marked_by_all marked_by
  marked_by_all-nil [] = refl
  marked_by_all-nil (r ∷ rs) = marked_by_all-nil rs

  pad_unmarked-alone :
      (ls rs right : List Row)
      → pad_unmarked (marked_by_all value rs (map (λ l. (l, false)) ls)) right
        ≡ map
            (λ l. left_pad_row l right)
            (chosen (λ l. not (some_of (λ r. accepts value l r) rs)) ls)
  unfolding pad_unmarked chosen
  pad_unmarked-alone [] rs right = rw (marked_by_all-nil rs) refl
  pad_unmarked-alone (l ∷ ls) rs right =
      let rest = pad_unmarked-alone ls rs right in
      rw (marked_by_all-cons l false (map (λ l. (l, false)) ls) rs) (ground (arith, rest))

  rows_of-unmarked : (ls : List Row) → rows_of (map (λ l. (l, false)) ls) ≡ ls
  unfolding rows_of
  rows_of-unmarked [] = refl
  rows_of-unmarked (l ∷ ls) = ap (λ t. l ∷ t) (rows_of-unmarked ls)

  pub exec_join-loop_rows :
      (j : JoinType) (ls rs : List Row)
      → All IsLeft ls
      → All IsRight rs
      → exec_join eval j ls rs ≡ ok (loop_rows value j ls rs)
  unfolding exec_join loop_rows alone
  exec_join-loop_rows JoinType.inner ls rs h k = inner_loop-parts ls rs h k
  exec_join-loop_rows JoinType.cross ls rs h k = inner_loop-parts ls rs h k
  exec_join-loop_rows JoinType.left ls rs h k = left_loop-parts ls rs h k
  exec_join-loop_rows JoinType.right ls rs h k = right_loop-parts ls rs h k
  exec_join-loop_rows JoinType.full ls rs h k =
      let own = rows_of-unmarked ls in
      let loop = full_loop-parts ls (map (λ l. (l, false)) ls) rs (rw own h) k in
      rw (loop, own, pad_unmarked-alone ls rs rs) refl
