-- ===== src/Base/Int.antt =====
-- Integers over the native numbers, and the integer that a signed machine word stands for.
use Prim.Native.Nat.{ℕ, suc, ◌+◌, ◌-◌, ◌*◌, ◌/◌, ◌%◌, ◌^◌, ◌<◌, ◌≤◌}
use mathlib.Core.Path.{◌≡◌, refl}
use mathlib.Core.Logic.{◌⊎◌, inl, inr}
use mathlib.Core.Bool.{Bool}
use mathlib.Core.Option.{Option, none, some}
use native.Mathlib.Omega.{arith}
use icedb.Base.Tests.{ltb, if◌then◌else◌, Bool-cases}

-- `negsuc n` is -(n + 1).
pub data ℤ : Type 0 where
  pos : ℕ → ℤ
  negsuc : ℕ → ℤ

abbrev pub pos_part : ℤ → ℕ
pos_part (pos n) = n
pos_part (negsuc n) = 0

abbrev pub neg_part : ℤ → ℕ
neg_part (pos n) = 0
neg_part (negsuc n) = suc n

abbrev pub ltb_ℤ : ℤ → ℤ → Bool
ltb_ℤ a b = ltb (pos_part a + neg_part b) (pos_part b + neg_part a)

-- The value of an `i32` and an `i64` with the given bits.
abbrev pub signed32 : ℕ → ℤ
signed32 w = if ltb w (2 ^ 31) then pos w else negsuc (2 ^ 32 - w - 1)

abbrev pub signed64 : ℕ → ℤ
signed64 w = if ltb w (2 ^ 63) then pos w else negsuc (2 ^ 64 - w - 1)

-- a - b, as an integer.
abbrev pub sub_ℕ : ℕ → ℕ → ℤ
sub_ℕ a b = if ltb a b then negsuc (b - a - 1) else pos (a - b)

infixl 65 ◌+ℤ◌ ◌-ℤ◌
infixl 70 ◌*ℤ◌ ◌/ℤ◌ ◌%ℤ◌
unfoldable pub ◌+ℤ◌ : ℤ → ℤ → ℤ
a +ℤ b = sub_ℕ (pos_part a + pos_part b) (neg_part a + neg_part b)

unfoldable pub ◌-ℤ◌ : ℤ → ℤ → ℤ
a -ℤ b = sub_ℕ (pos_part a + neg_part b) (neg_part a + pos_part b)

unfoldable pub ◌*ℤ◌ : ℤ → ℤ → ℤ
a *ℤ b =
    sub_ℕ (pos_part a * pos_part b + neg_part a * neg_part b)
      (pos_part a * neg_part b + neg_part a * pos_part b)

abbrev pub magnitude : ℤ → ℕ
magnitude a = pos_part a + neg_part a

-- Rust's `/` and `%`, which round towards zero; the divisor is not zero.
unfoldable pub ◌/ℤ◌ : ℤ → ℤ → ℤ
pos a /ℤ pos b = pos (a / b)
pos a /ℤ negsuc b = sub_ℕ 0 (a / suc b)
negsuc a /ℤ pos b = sub_ℕ 0 (suc a / b)
negsuc a /ℤ negsuc b = pos (suc a / suc b)

unfoldable pub ◌%ℤ◌ : ℤ → ℤ → ℤ
pos a %ℤ b = pos (a % magnitude b)
negsuc a %ℤ b = sub_ℕ 0 (suc a % magnitude b)

-- The `i32` or `i64` of an integer, if there is one.
unfoldable pub word32 : ℤ → Option ℕ
word32 (pos n) = if ltb n (2 ^ 31) then some n else none
word32 (negsuc n) = if ltb n (2 ^ 31) then some (2 ^ 32 - n - 1) else none

unfoldable pub word64 : ℤ → Option ℕ
word64 (pos n) = if ltb n (2 ^ 63) then some n else none
word64 (negsuc n) = if ltb n (2 ^ 63) then some (2 ^ 64 - n - 1) else none

abbrev pub Fits32 : ℤ → Type 0
Fits32 z = (pos_part z < 2 ^ 31) × (neg_part z ≤ 2 ^ 31)

abbrev pub Fits64 : ℤ → Type 0
Fits64 z = (pos_part z < 2 ^ 63) × (neg_part z ≤ 2 ^ 63)

-- A word for every integer in the range, which stands for it, and none for any other.
pub word32-cases :
    (z : ℤ)
    → (Fits32 z × ((w : ℕ) × (word32 z ≡ some w) × (signed32 w ≡ z)))
      ⊎ ((¬ Fits32 z) × (word32 z ≡ none))
unfolding word32
word32-cases (pos n) = elim (Bool-cases (ltb n (2 ^ 31))) [
  | inl fits ↦ inl ((ground (arith, fits), omega arith), (n, rw fits refl, rw fits refl))
  | inr big ↦ inr ((λ f. ground (arith, big, f.0)), rw big refl)
]
word32-cases (negsuc n) = elim (Bool-cases (ltb n (2 ^ 31))) [
  | inl fits ↦
      inl
        ((omega arith, ground (arith, fits)), (2 ^ 32 - n - 1, rw fits refl, ground (arith, fits)))
  | inr big ↦ inr ((λ f. ground (arith, big, f.1)), rw big refl)
]
