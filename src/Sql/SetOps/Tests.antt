-- ===== src/Sql/SetOps/Tests.antt =====
-- The set operations and the limit of crates/sql/src/executor.rs on small rows: a row is a number.
use icedb.Sql.SetOps.{
  SetOperation, exec_set_op, deduplicate_rows, exec_limit, except_all, keep_new, intersect_all,
  contains_row, remove_row,
}
use icedb.Sql.SetOps.Distinct.{count-exec_set_op, copies}
use icedb.Sql.SetOps.Limit.{exec_limit-page}
use icedb.Base.{
  nat_key, [], ◌∷◌, none, some, true, false, refl, arith, ◌≡◌, ◌+◌, ◌==◌, ℕ, if◌then◌else◌, List,
  ◌↔◌, not, ◌^◌, ◌-◌, ◌&&◌, leb, min, length, take, drop, slice,
}
use icedb.Sql.SetOps.Counts.{count}

same_iff : (a b : ℕ) → (a == b ≡ true) ↔ (a ≡ b)
same_iff a b = (λ h. ground (arith, h), λ h. ground (arith, h))

abbrev left : List ℕ
left = 1 ∷ 2 ∷ 1 ∷ 3 ∷ 1 ∷ []

abbrev right : List ℕ
right = 1 ∷ 4 ∷ 1 ∷ []

intersect_all_rows : exec_set_op (λ a b. a == b) SetOperation.intersect true left right ≡ 1 ∷ 1 ∷ []
unfolding exec_set_op intersect_all contains_row remove_row
intersect_all_rows = refl

except_all_rows : exec_set_op (λ a b. a == b) SetOperation.except true left right ≡ 2 ∷ 3 ∷ 1 ∷ []
unfolding exec_set_op except_all contains_row remove_row
except_all_rows = refl

union_rows : exec_set_op (λ a b. a == b) SetOperation.union false left right ≡ 1 ∷ 2 ∷ 3 ∷ 4 ∷ []
unfolding exec_set_op deduplicate_rows keep_new contains_row
union_rows = refl

second_page : exec_limit left 2 2 ≡ some (1 ∷ 3 ∷ [])
unfolding exec_limit slice
second_page = refl

-- LIMIT 18446744073709551614 OFFSET 2
greatest_limit : exec_limit left 18446744073709551614 2 ≡ none
unfolding exec_limit
greatest_limit = refl

count-exec_set_op_example :
    count (λ a b. a == b) (exec_set_op (λ a b. a == b) SetOperation.except true left right) 1
    ≡ copies SetOperation.except true (count (λ a b. a == b) left 1) (count (λ a b. a == b) right 1)
count-exec_set_op_example =
    count-exec_set_op (λ a b. a == b) same_iff SetOperation.except true left right 1

exec_limit-page_example : exec_limit left 2 2 ≡ (
    if not (2 == 2 ^ 64 - 1) && leb (2 ^ 64) (min 2 (length left) + 2)
    then none
    else some (take 2 (drop 2 left)))
exec_limit-page_example = exec_limit-page left 2 2 (omega arith)
