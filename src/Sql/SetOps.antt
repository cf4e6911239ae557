-- ===== src/Sql/SetOps.antt =====
-- crates/sql/src/executor.rs, `exec_set_op`, `deduplicate_rows` and `exec_limit` on the rows that the two
-- inputs gave. A row is its values, which `same` compares (the `==` of `Vec<Value>`); the schema of the
-- first left row, which the code puts on the right rows, takes no part in this.
pub mod Counts
pub mod Distinct
pub mod Limit
pub mod Tests
use icedb.Base.{
  nat_key, zero, suc, [], ◌∷◌, none, some, true, false, inl, inr, ok, err, refl, arith, ◌>>=◌, ◌>>◌,
  ◌≡◌, ◌+◌, List, Bool, ℕ, if◌then◌else◌, ◌||◌, ◌++◌, min, length, ◌==◌, ◌^◌, ◌-◌, slice, Option,
  ltb,
}

pub data SetOperation : Type 0 where
  union intersect except : SetOperation

module _ {ℓ} {A : Type ℓ} (same : A → A → Bool) where
  -- `contains`
  unfoldable pub contains_row : List A → A → Bool
  contains_row [] r = false
  contains_row (x ∷ xs) r = same x r || contains_row xs r

  -- The loop: `seen` are the rows kept so far.
  unfoldable pub keep_new : List A → List A → List A
  keep_new seen [] = []
  keep_new seen (r ∷ rows) = elim (contains_row seen r) [
    | true ↦ keep_new seen rows
    | false ↦ r ∷ keep_new (seen ++ (r ∷ [])) rows
  ]

  unfoldable pub deduplicate_rows : List A → List A
  deduplicate_rows rows = keep_new [] rows

  -- `filter` by `contains`, or by its negation.
  unfoldable pub rows_in : Bool → List A → List A → List A
  rows_in wanted right [] = []
  rows_in wanted right (r ∷ rows) =
      let rest = rows_in wanted right rows in
      if contains_row right r
      then (if wanted then r ∷ rest else rest)
      else (if wanted then rest else r ∷ rest)

  -- `remove` at the first position of a row.
  unfoldable pub remove_row : List A → A → List A
  remove_row [] r = []
  remove_row (x ∷ xs) r = let rest = remove_row xs r in if same x r then xs else x ∷ rest

  -- INTERSECT ALL keeps a row for each copy that it takes out of the pool, EXCEPT ALL the others.
  unfoldable pub intersect_all : List A → List A → List A
  intersect_all pool [] = []
  intersect_all pool (r ∷ rows) = elim (contains_row pool r) [
    | true ↦ r ∷ intersect_all (remove_row pool r) rows
    | false ↦ intersect_all pool rows
  ]

  unfoldable pub except_all : List A → List A → List A
  except_all pool [] = []
  except_all pool (r ∷ rows) = elim (contains_row pool r) [
    | true ↦ except_all (remove_row pool r) rows
    | false ↦ r ∷ except_all pool rows
  ]

  unfoldable pub exec_set_op : SetOperation → Bool → List A → List A → List A
  exec_set_op SetOperation.union true left right = left ++ right
  exec_set_op SetOperation.union false left right = deduplicate_rows (left ++ right)
  exec_set_op SetOperation.intersect true left right = intersect_all right left
  exec_set_op SetOperation.intersect false left right = deduplicate_rows (rows_in true right left)
  exec_set_op SetOperation.except true left right = except_all right left
  exec_set_op SetOperation.except false left right = deduplicate_rows (rows_in false right left)

module _ {ℓ} {A : Type ℓ} where
  -- The limit is `u64::MAX` where there is none. `none` is the panic where `start + limit` overflows:
  -- of the sum in a debug build, of the slice whose end wrapped below its start in a release build.
  unfoldable pub exec_limit : List A → ℕ → ℕ → Option (List A)
  exec_limit rows limit offset =
      let start = min offset (length rows) in
      if limit == 2 ^ 64 - 1
      then some (slice rows start (length rows - start))
      else if ltb (start + limit) (2 ^ 64)
      then some (slice rows start (min (start + limit) (length rows) - start))
      else none
