-- ===== src/Sql/SetOps/Counts.antt =====
-- How often a row stands in the result of a set operation.
use icedb.Sql.SetOps.{contains_row, remove_row, intersect_all, except_all}
use icedb.Base.{
  nat_key, [], ◌∷◌, true, false, inl, inr, refl, arith, ◌≡◌, ◌+◌, Bool, ◌↔◌, List, ltb, ℕ, ◌-◌,
  ◌++◌, min, Bool-cases, if◌then◌else◌, subst, ◌∙◌, sym, ◌<◌, ◌||◌,
}

module _ {ℓ} {A : Type ℓ} (same : A → A → Bool) where
  unfoldable pub count : List A → A → ℕ
  count [] r = 0
  count (x ∷ xs) r = (if same x r then 1 else 0) + count xs r

module _ {ℓ} {A : Type ℓ} (same : A → A → Bool)
    (same_iff : (a b : A) → (same a b ≡ true) ↔ (a ≡ b)) where
  pub count-append :
      (xs ys : List A) (r : A) → count same (xs ++ ys) r ≡ count same xs r + count same ys r
  unfolding count
  count-append [] ys r = omega arith
  count-append (x ∷ xs) ys r = omega (arith, count-append xs ys r)

  pub contains_row-count : (xs : List A) (r : A) → contains_row same xs r ≡ ltb 0 (count same xs r)
  unfolding contains_row count
  contains_row-count [] r = refl
  contains_row-count (x ∷ xs) r = ground (arith, contains_row-count xs r)

  count_of_equals : (xs : List A) (a b : A) → same a b ≡ true → count same xs a ≡ count same xs b
  count_of_equals xs a b e =
      subst (λ y. count same xs a ≡ count same xs y) ((same_iff a b).0 e) refl

  differ : (x r s : A) → same x r ≡ false → same x s ≡ true → same r s ≡ false
  differ x r s other there = elim (Bool-cases (same r s)) [
    | inl rs ↦
        let e : x ≡ r = (same_iff x s).0 there ∙ sym ((same_iff r s).0 rs) in
        let yes = (same_iff x r).1 e in ground (arith, yes, other)
    | inr n ↦ n
  ]

  count-remove_row :
      (xs : List A) (r s : A)
      → count same (remove_row same xs r) s ≡ count same xs s - (if same r s then 1 else 0)
  unfolding count remove_row
  count-remove_row [] r s = omega arith
  count-remove_row (x ∷ xs) r s = elim (Bool-cases (same x r)) [
    | inl here ↦
        let e : x ≡ r = (same_iff x r).0 here in
        rw (here) (
          subst
            (λ (y : A).
              count same xs s
              ≡ (if same x s then 1 else 0) + count same xs s - (if same y s then 1 else 0))
            e (ground arith))
    | inr other ↦
        let d = differ x r s other in
        rw (other) (elim (Bool-cases (same x s)) [
          | inl there ↦ ground (arith, there, d there, count-remove_row xs r s)
          | inr gone ↦ ground (arith, gone, count-remove_row xs r s)
        ])
  ]

  intersect_all-nil : (pool : List A) → intersect_all same pool [] ≡ []
  unfolding intersect_all
  intersect_all-nil pool = refl

  except_all-nil : (pool : List A) → except_all same pool [] ≡ []
  unfolding except_all
  except_all-nil pool = refl

  intersect_all-there :
      (pool rows : List A) (x : A)
      → contains_row same pool x ≡ true
      → intersect_all same pool (x ∷ rows) ≡ x ∷ intersect_all same (remove_row same pool x) rows
  unfolding intersect_all
  intersect_all-there pool rows x e = rw (e, intersect_all) refl

  intersect_all-gone :
      (pool rows : List A) (x : A)
      → contains_row same pool x ≡ false
      → intersect_all same pool (x ∷ rows) ≡ intersect_all same pool rows
  unfolding intersect_all
  intersect_all-gone pool rows x e = rw (e, intersect_all) refl

  except_all-there :
      (pool rows : List A) (x : A)
      → contains_row same pool x ≡ true
      → except_all same pool (x ∷ rows) ≡ except_all same (remove_row same pool x) rows
  unfolding except_all
  except_all-there pool rows x e = rw (e, except_all) refl

  except_all-gone :
      (pool rows : List A) (x : A)
      → contains_row same pool x ≡ false
      → except_all same pool (x ∷ rows) ≡ x ∷ except_all same pool rows
  unfolding except_all
  except_all-gone pool rows x e = rw (e, except_all) refl

  contained :
      (pool : List A) (x r : A)
      → contains_row same pool x ≡ true
      → same x r ≡ true
      → 0 < count same pool r
  contained pool x r there e =
      let found = contains_row-count pool x in
      let equal = count_of_equals pool x r e in ground (arith, there, found, equal)

  not_contained :
      (pool : List A) (x r : A)
      → contains_row same pool x ≡ false
      → same x r ≡ true
      → count same pool r ≡ 0
  not_contained pool x r gone e =
      let found = contains_row-count pool x in
      let equal = count_of_equals pool x r e in ground (arith, gone, found, equal)

  pub count-intersect_all :
      (pool rows : List A) (r : A)
      → count same (intersect_all same pool rows) r ≡ min (count same rows r) (count same pool r)
  unfolding count
  count-intersect_all pool [] r = ground (arith, intersect_all-nil pool)
  count-intersect_all pool (x ∷ rows) r = elim (Bool-cases (contains_row same pool x)) [
    | inl there ↦
        let left = count-remove_row pool x r in
        let rest = count-intersect_all (remove_row same pool x) rows r in
        let some_left = contained pool x r there in
        rw (intersect_all-there pool rows x there) (elim (Bool-cases (same x r)) [
          | inl e ↦ let here = some_left e in ground (arith, e, left, rest, here)
          | inr n ↦ ground (arith, n, left, rest)
        ])
    | inr gone ↦
        let rest = count-intersect_all pool rows r in
        let none_left = not_contained pool x r gone in
        rw (intersect_all-gone pool rows x gone) (elim (Bool-cases (same x r)) [
          | inl e ↦ let no_copy = none_left e in ground (arith, e, rest, no_copy)
          | inr n ↦ ground (arith, n, rest)
        ])
  ]

  pub count-except_all :
      (pool rows : List A) (r : A)
      → count same (except_all same pool rows) r ≡ count same rows r - count same pool r
  unfolding count
  count-except_all pool [] r = ground (arith, except_all-nil pool)
  count-except_all pool (x ∷ rows) r = elim (Bool-cases (contains_row same pool x)) [
    | inl there ↦
        let left = count-remove_row pool x r in
        let rest = count-except_all (remove_row same pool x) rows r in
        let some_left = contained pool x r there in
        rw (except_all-there pool rows x there) (elim (Bool-cases (same x r)) [
          | inl e ↦ let here = some_left e in ground (arith, e, left, rest, here)
          | inr n ↦ ground (arith, n, left, rest)
        ])
    | inr gone ↦
        let rest = count-except_all pool rows r in
        let none_left = not_contained pool x r gone in
        rw (except_all-gone pool rows x gone) (elim (Bool-cases (same x r)) [
          | inl e ↦ let no_copy = none_left e in ground (arith, e, rest, no_copy)
          | inr n ↦ ground (arith, n, rest)
        ])
  ]

  pub contains_row-append :
      (xs ys : List A) (r : A)
      → contains_row same (xs ++ ys) r ≡ contains_row same xs r || contains_row same ys r
  unfolding contains_row
  contains_row-append [] ys r = refl
  contains_row-append (x ∷ xs) ys r = ground (arith, contains_row-append xs ys r)
