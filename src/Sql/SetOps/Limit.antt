-- ===== src/Sql/SetOps/Limit.antt =====
-- The rows that `exec_limit` gives, by dropping and taking.
use icedb.Sql.SetOps.{exec_limit}
use icedb.Base.{
  nat_key, zero, suc, [], ◌∷◌, none, some, inl, inr, refl, arith, ◌≡◌, ◌+◌, List, slice, ℕ, drop,
  length, min, ◌-◌, ◌<◌, take, ◌^◌, ap, length-drop, if◌then◌else◌, not, ◌==◌, ◌&&◌, leb,
  Bool-cases,
}

module _ {ℓ} {A : Type ℓ} where
  drop-min : (rows : List A) (m n : ℕ) → m ≡ min n (length rows) → drop m rows ≡ drop n rows
  drop-min [] zero zero h = refl
  drop-min [] zero (suc n) h = refl
  drop-min [] (suc m) n h = absurd (omega (arith, h))
  drop-min (r ∷ rows) zero zero h = refl
  drop-min (r ∷ rows) zero (suc n) h = absurd (omega (arith, h))
  drop-min (r ∷ rows) (suc m) zero h = absurd (omega (arith, h))
  drop-min (r ∷ rows) (suc m) (suc n) h = drop-min rows m n (omega (arith, h))

  take-min : (rows : List A) (m n : ℕ) → m ≡ min (length rows) n → take m rows ≡ take n rows
  take-min [] zero zero h = refl
  take-min [] zero (suc n) h = refl
  take-min [] (suc m) n h = absurd (omega (arith, h))
  take-min (r ∷ rows) zero zero h = refl
  take-min (r ∷ rows) zero (suc n) h = absurd (omega (arith, h))
  take-min (r ∷ rows) (suc m) zero h = absurd (omega (arith, h))
  take-min (r ∷ rows) (suc m) (suc n) h = ap (λ t. r ∷ t) (take-min rows m n (omega (arith, h)))

  -- The rows behind the offset, up to any end that is not below them all.
  slice-page :
      (rows : List A) (limit offset end : ℕ)
      → end ≡ min (length rows - min offset (length rows)) limit
      → slice rows (min offset (length rows)) end ≡ take limit (drop offset rows)
  unfolding slice
  slice-page rows limit offset end h =
      let size = length-drop offset rows in
      rw (drop-min rows (min offset (length rows)) offset refl)
        (take-min (drop offset rows) end limit (omega (arith, h, size)))

  -- Of fewer than 2 ^ 64 rows, those behind the offset, at most `limit` of them. But a limit below
  -- `u64::MAX` whose sum with the offset, or with the number of rows where that is less, does not fit
  -- 64 bits panics.
  pub exec_limit-page :
      (rows : List A) (limit offset : ℕ)
      → length rows < 2 ^ 64
      → exec_limit rows limit offset ≡ (
          if not (limit == 2 ^ 64 - 1) && leb (2 ^ 64) (min offset (length rows) + limit)
          then none
          else some (take limit (drop offset rows)))
  unfolding exec_limit
  exec_limit-page rows limit offset h =
      let start = min offset (length rows) in
      elim (Bool-cases (limit == 2 ^ 64 - 1)) [
        | inl e ↦
            let page = slice-page rows limit offset (length rows - start) (ground (arith, e, h)) in
            ground (arith, e, page)
        | inr n ↦
            let size = min (start + limit) (length rows) - start in
            let page = slice-page rows limit offset size (omega arith) in ground (arith, n, page)
      ]
