-- ===== src/Sql/Order/Words.antt =====
-- Big-endian bytes are ordered as the numbers are, and flipped words as the signed numbers.
use icedb.Btree.Node.{key_lt}
use icedb.Sql.Order.{to_be, flip32, flip64}
use icedb.Base.{
  nat_key, zero, suc, arith, ◌≡◌, ◌+◌, ℕ, ◌<◌, ltb, ◌^◌, ◌*◌, ltb_ℤ, signed32, ◌||◌, signed64, ◌==◌,
  ◌&&◌, ap, ◌%◌, ◌≤◌, sym, ◌/◌, ◌∙◌, ap₂,
}
use native.Mathlib.Decide.{dec_lt}
use native.Mathlib.Nat.{mul-le-mul_right, suc-mul, pow-suc, mod-lt, div-add-mod'}

next_multiple : (p q s : ℕ) → q < s → q * p + p ≤ s * p
next_multiple p q s h =
    omega (arith, mul-le-mul_right {m = suc q} {n = s} p (omega arith), suc-mul q p)

-- Quotients decide, then remainders.
lex_order :
    (p q r s u : ℕ) → r < p → u < p → ltb (q * p + r) (s * p + u) ≡ (ltb q s || (q == s && ltb r u))
lex_order p q r s u hr hu = elim (dec_lt q s) [
  | yes below ↦ ground (arith, next_multiple p q s below)
  | no high ↦ elim (dec_lt s q) [
    | yes above ↦ ground (arith, next_multiple p s q above)
    | no low ↦
        let same : q ≡ s = omega (arith, high, low) in
        ground (arith, same, ap (λ (k : ℕ). k * p) same)
  ]
]

pow_pos : (n : ℕ) → 0 < 256 ^ n
pow_pos zero = omega arith
pow_pos (suc n) = omega (arith, pow-suc 256 n, pow_pos n)

pub key_lt-to_be :
    (n a b : ℕ) → a < 256 ^ n → b < 256 ^ n → key_lt (to_be n a) (to_be n b) ≡ ltb a b
unfolding key_lt to_be
key_lt-to_be zero a b ha hb = ground arith
key_lt-to_be (suc n) a b ha hb =
    let p : ℕ = 256 ^ n in
    rw (key_lt-to_be n (a % p) (b % p) (mod-lt a (pow_pos n)) (mod-lt b (pow_pos n))) (
      sym
        (lex_order p (a / p) (a % p) (b / p) (b % p) (mod-lt a (pow_pos n)) (mod-lt b (pow_pos n)))
      ∙ ap₂ ltb (div-add-mod' a p) (div-add-mod' b p))

pub flip32-signed :
    (a b : ℕ)
    → a < 2 ^ 32
    → b < 2 ^ 32
    → ltb (flip32 a) (flip32 b) ≡ ltb_ℤ (signed32 a) (signed32 b)
flip32-signed a b ha hb = ground arith

pub flip64-signed :
    (a b : ℕ)
    → a < 2 ^ 64
    → b < 2 ^ 64
    → ltb (flip64 a) (flip64 b) ≡ ltb_ℤ (signed64 a) (signed64 b)
flip64-signed a b ha hb = ground arith
