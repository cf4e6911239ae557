-- ===== src/Sql/Codec/Bitmap.antt =====
-- The null bitmap of a row, read bit by bit.
use icedb.Sql.Value.{Value}
use icedb.Sql.Codec.{is_null, null_bit, bitmap_from, marked_null}
use icedb.Base.{
  nat_key, [], ◌∷◌, true, inl, inr, arith, ◌≡◌, ◌+◌, ℕ, List, ◌^◌, if◌then◌else◌, ◌*◌, ◌<◌, ◌/◌,
  Bool-cases, ◌&&◌, ap, ltb, ◌∙◌, false, refl, ap₂, sym, ◌++◌, ◌≤◌, length,
}
use native.Mathlib.Nat.{mul-one, mul-zero, mul-add, mul_assoc, pow-suc, div-div-eq-div-mul}
use native.Mathlib.Numerals.{add-one}

-- NULL stands only in columns below the 32nd, counted from `i`.
abbrev pub NullsFit : ℕ → List Value → Type 0
NullsFit i [] = Unit {0}
NullsFit i (v ∷ vs) = (is_null v ≡ true → i < 32) × NullsFit (i + 1) vs

null_digit : ℕ → Value → ℕ
null_digit i v = if is_null v && ltb i 32 then 1 else 0

-- The bits from the column `i` on.
unfoldable pub bits_from : ℕ → List Value → ℕ
unfolding null_digit
bits_from i [] = 0
bits_from i (v ∷ vs) = null_digit i v + 2 * bits_from (i + 1) vs

null_bit-eq-mul : (i : ℕ) (v : Value) → null_bit i v ≡ 2 ^ i * null_digit i v
unfolding null_digit
null_bit-eq-mul i v = elim (Bool-cases (is_null v && ltb i 32)) [
  | inl set ↦ rw set (omega (arith, mul-one (2 ^ i)))
  | inr clear ↦ rw clear (omega (arith, mul-zero (2 ^ i)))
]

pow_next : (i : ℕ) → 2 ^ (i + 1) ≡ 2 ^ i * 2
pow_next i = ap (λ (k : ℕ). 2 ^ k) (add-one i) ∙ pow-suc 2 i

double_digit : (p q b : ℕ) → q ≡ p * 2 → q * b ≡ p * (2 * b)
double_digit p q b e = rw e (mul_assoc p 2 b)

bitmap_from-eq-mul : (i : ℕ) (vs : List Value) → bitmap_from i vs ≡ 2 ^ i * bits_from i vs
unfolding bitmap_from bits_from
bitmap_from-eq-mul i [] = omega (arith, mul-zero (2 ^ i))
bitmap_from-eq-mul i (v ∷ vs) =
    ap₂ (λ (a b : ℕ). a + b) (null_bit-eq-mul i v)
      (bitmap_from-eq-mul (i + 1) vs
        ∙ double_digit (2 ^ i) (2 ^ (i + 1)) (bits_from (i + 1) vs) (pow_next i))
    ∙ sym (mul-add (2 ^ i) (null_digit i v) (2 * bits_from (i + 1) vs))

pub bitmap_from-zero : (vs : List Value) → bitmap_from 0 vs / 2 ^ 0 ≡ bits_from 0 vs
bitmap_from-zero vs = omega (arith, bitmap_from-eq-mul 0 vs)

pub div_next : (bitmap i : ℕ) → bitmap / 2 ^ (i + 1) ≡ bitmap / 2 ^ i / 2
div_next bitmap i = omega (
  arith,
  div-div-eq-div-mul bitmap (2 ^ i) 2,
  ap (λ (k : ℕ). bitmap / 2 ^ k) (add-one i),
  ap (λ (k : ℕ). bitmap / k) (pow-suc 2 i),
)

module _ (bitmap i : ℕ) (v : Value) (vs : List Value)
    (at_i : bitmap / 2 ^ i ≡ bits_from i (v ∷ vs)) where
  -- The bit at `i` is the first one, and the others follow it.
  pub next_bits : bitmap / 2 ^ (i + 1) ≡ bits_from (i + 1) vs
  unfolding bits_from null_digit
  next_bits = ground (arith, div_next bitmap i, at_i)

  pub marked_null-is_null : marked_null bitmap i ≡ (is_null v && ltb i 32)
  unfolding bits_from null_digit
  marked_null-is_null = rw at_i (ground arith)

bitmap_from_late : (i : ℕ) (vs : List Value) → 32 ≤ i → bitmap_from i vs ≡ 0
unfolding bitmap_from
bitmap_from_late i [] h = refl
bitmap_from_late i (v ∷ vs) h = ground (arith, bitmap_from_late (i + 1) vs)

pub bitmap_from_skip :
    (i : ℕ) (pre post : List Value)
    → 32 ≤ i + length pre
    → bitmap_from i (pre ++ (Value.null ∷ post)) ≡ bitmap_from i (pre ++ post)
unfolding bitmap_from
bitmap_from_skip i [] post h =
    ground (arith, bitmap_from_late i post, bitmap_from_late (i + 1) post)
bitmap_from_skip i (v ∷ pre) post h =
    ap (λ (n : ℕ). null_bit i v + n) (bitmap_from_skip (i + 1) pre post (omega arith))

pub NullsFit-append_value :
    (i : ℕ) (pre : List Value) (v : Value)
    → NullsFit i pre
    → is_null v ≡ false
    → NullsFit i (pre ++ (v ∷ []))
NullsFit-append_value i [] v h e = (λ n. cc, tt)
NullsFit-append_value i (x ∷ pre) v h e = (h.0, NullsFit-append_value (i + 1) pre v h.1 e)
