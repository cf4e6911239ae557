-- ===== src/Base/Slices.antt =====
-- Rust's `buf[off..off + n]` and `buf[off..off + n].copy_from_slice(ys)` on lists, in range.
use Prim.Native.Nat.{ℕ, zero, suc, ◌+◌, ◌≤◌}
use mathlib.Core.Path.{◌≡◌, refl, ap}
use mathlib.Core.List.{List, [], ◌∷◌}
use native.Mathlib.Omega.{arith}
use icedb.Base.Lists.{length, take, drop, length-take, length-drop}

module _ {ℓ} {A : Type ℓ} where
  unfoldable pub slice : List A → ℕ → ℕ → List A
  slice xs off n = take n (drop off xs)

  overlay : List A → List A → List A
  overlay xs [] = xs
  overlay [] (y ∷ ys) = []
  overlay (x ∷ xs) (y ∷ ys) = y ∷ overlay xs ys

  unfoldable pub splice : List A → ℕ → List A → List A
  unfolding overlay
  splice xs zero ys = overlay xs ys
  splice [] (suc off) ys = []
  splice (x ∷ xs) (suc off) ys = x ∷ splice xs off ys

module _ {ℓ} {A : Type ℓ} where
  pub length-slice : (xs : List A) (off n : ℕ) → off + n ≤ length xs → length (slice xs off n) ≡ n
  unfolding slice
  length-slice xs off n h = omega (arith, length-take n (drop off xs), length-drop off xs)

  length-overlay : (xs ys : List A) → length (overlay xs ys) ≡ length xs
  unfolding overlay
  length-overlay xs [] = refl
  length-overlay [] (y ∷ ys) = refl
  length-overlay (x ∷ xs) (y ∷ ys) = ap suc (length-overlay xs ys)

  pub length-splice : (xs : List A) (off : ℕ) (ys : List A) → length (splice xs off ys) ≡ length xs
  unfolding splice
  length-splice [] zero ys = length-overlay [] ys
  length-splice (x ∷ xs) zero ys = length-overlay (x ∷ xs) ys
  length-splice [] (suc off) ys = refl
  length-splice (x ∷ xs) (suc off) ys = ap suc (length-splice xs off ys)

  take-overlay : (xs ys : List A) → length ys ≤ length xs → take (length ys) (overlay xs ys) ≡ ys
  unfolding overlay
  take-overlay xs [] h = refl
  take-overlay [] (y ∷ ys) h = absurd (omega arith)
  take-overlay (x ∷ xs) (y ∷ ys) h = ap (λ zs. y ∷ zs) (take-overlay xs ys (omega arith))

  drop-overlay : (xs ys : List A) (o : ℕ) → length ys ≤ o → drop o (overlay xs ys) ≡ drop o xs
  unfolding overlay
  drop-overlay xs [] o h = refl
  drop-overlay [] (y ∷ ys) o h = refl
  drop-overlay (x ∷ xs) (y ∷ ys) zero h = absurd (omega arith)
  drop-overlay (x ∷ xs) (y ∷ ys) (suc o) h = drop-overlay xs ys o (omega arith)

  pub slice-splice_self :
      (xs : List A) (off : ℕ) (ys : List A)
      → off + length ys ≤ length xs
      → slice (splice xs off ys) off (length ys) ≡ ys
  unfolding slice splice
  slice-splice_self xs zero ys h = take-overlay xs ys (omega arith)
  slice-splice_self [] (suc off) ys h = absurd (omega arith)
  slice-splice_self (x ∷ xs) (suc off) ys h = slice-splice_self xs off ys (omega arith)

  take_short :
      (xs : List A) (off n : ℕ) (ys : List A) → n ≤ off → take n (splice xs off ys) ≡ take n xs
  unfolding splice
  take_short xs off zero ys h = refl
  take_short xs zero (suc n) ys h = absurd (omega arith)
  take_short [] (suc off) (suc n) ys h = refl
  take_short (x ∷ xs) (suc off) (suc n) ys h =
      ap (λ zs. x ∷ zs) (take_short xs off n ys (omega arith))

  -- What stands before the bytes written is unchanged.
  pub slice-splice_before :
      (xs : List A) (off : ℕ) (ys : List A) (o n : ℕ)
      → o + n ≤ off
      → slice (splice xs off ys) o n ≡ slice xs o n
  unfolding slice splice
  slice-splice_before xs off ys zero n h = take_short xs off n ys (omega arith)
  slice-splice_before xs zero ys (suc o) n h = absurd (omega arith)
  slice-splice_before [] (suc off) ys (suc o) n h = refl
  slice-splice_before (x ∷ xs) (suc off) ys (suc o) n h =
      slice-splice_before xs off ys o n (omega arith)

  -- So is what stands behind them.
  pub slice-splice_after :
      (xs : List A) (off : ℕ) (ys : List A) (o n : ℕ)
      → off + length ys ≤ o
      → slice (splice xs off ys) o n ≡ slice xs o n
  unfolding slice splice
  slice-splice_after xs zero ys o n h = ap (take n) (drop-overlay xs ys o (omega arith))
  slice-splice_after xs (suc off) ys zero n h = absurd (omega arith)
  slice-splice_after [] (suc off) ys (suc o) n h = refl
  slice-splice_after (x ∷ xs) (suc off) ys (suc o) n h =
      slice-splice_after xs off ys o n (omega arith)
