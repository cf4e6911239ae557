-- ===== src/Sql/SetOps/Distinct.antt =====
-- How often a row stands in the result of a set operation without ALL, and in that of any of them.
use icedb.Sql.SetOps.{SetOperation, contains_row, keep_new, deduplicate_rows, rows_in, exec_set_op}
use icedb.Base.{
  nat_key, [], ◌∷◌, true, false, inl, inr, refl, arith, ◌≡◌, ◌+◌, Bool, ◌↔◌, ℕ, List, if◌then◌else◌,
  ◌++◌, ltb, Bool-cases, subst, ◌||◌, min, ◌&&◌, ◌-◌, not,
}
use icedb.Sql.SetOps.Counts.{
  count, contains_row-append, contains_row-count, count-append, count-intersect_all,
  count-except_all,
}

module _ {ℓ} {A : Type ℓ} (same : A → A → Bool)
    (same_iff : (a b : A) → (same a b ≡ true) ↔ (a ≡ b)) where
  keep_new-nil : (seen : List A) → keep_new same seen [] ≡ []
  unfolding keep_new
  keep_new-nil seen = refl

  keep_new-seen :
      (seen rows : List A) (x : A)
      → contains_row same seen x ≡ true
      → keep_new same seen (x ∷ rows) ≡ keep_new same seen rows
  unfolding keep_new
  keep_new-seen seen rows x e = rw (e, keep_new) refl

  keep_new-fresh :
      (seen rows : List A) (x : A)
      → contains_row same seen x ≡ false
      → keep_new same seen (x ∷ rows) ≡ x ∷ keep_new same (seen ++ (x ∷ [])) rows
  unfolding keep_new
  keep_new-fresh seen rows x e = rw (e, keep_new) refl

  contains_row-of_equals :
      (xs : List A) (x r : A) → same x r ≡ true → contains_row same xs x ≡ contains_row same xs r
  contains_row-of_equals xs x r e =
      subst (λ y. contains_row same xs x ≡ contains_row same xs y) ((same_iff x r).0 e) refl

  contains_row-last :
      (seen : List A) (x r : A)
      → contains_row same (seen ++ (x ∷ [])) r ≡ contains_row same seen r || same x r
  unfolding contains_row
  contains_row-last seen x r =
      let both = contains_row-append same same_iff seen (x ∷ []) r in ground (arith, both)

  -- A row that was seen is not kept again, and another is kept once.
  count-keep_new :
      (seen rows : List A) (r : A)
      → count same (keep_new same seen rows) r
        ≡ (if contains_row same seen r then 0 else if contains_row same rows r then 1 else 0)
  unfolding count contains_row
  count-keep_new seen [] r = ground (arith, keep_new-nil seen)
  count-keep_new seen (x ∷ rows) r = elim (Bool-cases (contains_row same seen x)) [
    | inl old ↦
        let rest = count-keep_new seen rows r in
        let equal = contains_row-of_equals seen x r in
        rw (keep_new-seen seen rows x old) (elim (Bool-cases (same x r)) [
          | inl e ↦ let both = equal e in ground (arith, e, old, both, rest)
          | inr n ↦ ground (arith, n, rest)
        ])
    | inr new ↦
        let rest = count-keep_new (seen ++ (x ∷ [])) rows r in
        let last = contains_row-last seen x r in
        let equal = contains_row-of_equals seen x r in
        rw (keep_new-fresh seen rows x new) (elim (Bool-cases (same x r)) [
          | inl e ↦ let both = equal e in ground (arith, e, new, both, last, rest)
          | inr n ↦ ground (arith, n, last, rest)
        ])
  ]

  count-rows_in :
      (wanted : Bool) (right left : List A) (r : A)
      → count same (rows_in same wanted right left) r ≡ (
          if contains_row same right r
          then (if wanted then count same left r else 0)
          else (if wanted then 0 else count same left r))
  unfolding count rows_in
  count-rows_in wanted right [] r = ground arith
  count-rows_in wanted right (x ∷ left) r =
      let rest = count-rows_in wanted right left r in
      let equal = contains_row-of_equals right x r in
      elim (Bool-cases (same x r)) [
        | inl e ↦ let both = equal e in ground (arith, e, both, rest)
        | inr n ↦ ground (arith, n, rest)
      ]

  count-deduplicate_rows :
      (rows : List A) (r : A)
      → count same (deduplicate_rows same rows) r ≡ (if ltb 0 (count same rows r) then 1 else 0)
  unfolding deduplicate_rows contains_row
  count-deduplicate_rows rows r =
      let kept = count-keep_new [] rows r in
      let inside = contains_row-count same same_iff rows r in ground (arith, kept, inside)

-- The copies of a row that an operation promises, for the copies on its left and on its right.
unfoldable pub copies : SetOperation → Bool → ℕ → ℕ → ℕ
copies SetOperation.union true m n = m + n
copies SetOperation.union false m n = if ltb 0 (m + n) then 1 else 0
copies SetOperation.intersect true m n = min m n
copies SetOperation.intersect false m n = if ltb 0 m && ltb 0 n then 1 else 0
copies SetOperation.except true m n = m - n
copies SetOperation.except false m n = if ltb 0 m && not (ltb 0 n) then 1 else 0

module _ {ℓ} {A : Type ℓ} (same : A → A → Bool)
    (same_iff : (a b : A) → (same a b ≡ true) ↔ (a ≡ b)) where
  -- Where `same` decides equality, a row stands in the result of a set operation as often as SQL promises:
  -- UNION ALL adds the copies, INTERSECT ALL takes the lesser number, EXCEPT ALL the difference, and
  -- without ALL one copy stands for any number.
  pub count-exec_set_op :
      (op : SetOperation) (all : Bool) (left right : List A) (r : A)
      → count same (exec_set_op same op all left right) r
        ≡ copies op all (count same left r) (count same right r)
  unfolding exec_set_op copies
  count-exec_set_op SetOperation.union true left right r = count-append same same_iff left right r
  count-exec_set_op SetOperation.union false left right r =
      let kept = count-deduplicate_rows same same_iff (left ++ right) r in
      let both = count-append same same_iff left right r in ground (arith, kept, both)
  count-exec_set_op SetOperation.intersect true left right r =
      count-intersect_all same same_iff right left r
  count-exec_set_op SetOperation.intersect false left right r =
      let kept = count-deduplicate_rows same same_iff (rows_in same true right left) r in
      let chosen = count-rows_in same same_iff true right left r in
      let inside = contains_row-count same same_iff right r in ground (arith, kept, chosen, inside)
  count-exec_set_op SetOperation.except true left right r =
      count-except_all same same_iff right left r
  count-exec_set_op SetOperation.except false left right r =
      let kept = count-deduplicate_rows same same_iff (rows_in same false right left) r in
      let chosen = count-rows_in same same_iff false right left r in
      let inside = contains_row-count same same_iff right r in ground (arith, kept, chosen, inside)
