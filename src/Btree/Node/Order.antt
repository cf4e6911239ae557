-- ===== src/Btree/Node/Order.antt =====
-- The order of keys.
use icedb.Base.{
  nat_key, [], ◌∷◌, true, false, inl, inr, refl, arith, ◌≡◌, List, ℕ, Bool-cases, ap₂, subst, sym,
}
use icedb.Btree.Node.{key_lt}

pub lt_irrefl : (a : List ℕ) → key_lt a a ≡ false
unfolding key_lt
lt_irrefl [] = refl
lt_irrefl (x ∷ a) = ground (arith, lt_irrefl a)

pub lt_trans : (a b c : List ℕ) → key_lt a b ≡ true → key_lt b c ≡ true → key_lt a c ≡ true
unfolding key_lt
lt_trans [] [] c h k = absurd (ground (arith, h))
lt_trans (x ∷ a) [] c h k = absurd (ground (arith, h))
lt_trans a (y ∷ b) [] h k = absurd (ground (arith, k))
lt_trans [] (y ∷ b) (z ∷ c) h k = refl
lt_trans (x ∷ a) (y ∷ b) (z ∷ c) h k = ground (arith, h, k, lt_trans a b c)

pub lt_total : (a b : List ℕ) → key_lt a b ≡ false → key_lt b a ≡ false → a ≡ b
unfolding key_lt
lt_total [] [] h k = refl
lt_total [] (y ∷ b) h k = absurd (ground (arith, h))
lt_total (x ∷ a) [] h k = absurd (ground (arith, k))
lt_total (x ∷ a) (y ∷ b) h k =
    let same : x ≡ y = ground (arith, h, k) in
    let rest : a ≡ b = lt_total a b (ground (arith, h, same)) (ground (arith, k, same)) in
    ap₂ (λ (z : ℕ) (c : List ℕ). z ∷ c) same rest

-- `a` is not above `b`, which is below `c`.
pub le_lt_trans : (a b c : List ℕ) → key_lt b a ≡ false → key_lt b c ≡ true → key_lt a c ≡ true
le_lt_trans a b c h k = elim (Bool-cases (key_lt a b)) [
  | inl below ↦ lt_trans a b c below k
  | inr other ↦ subst (λ (x : List ℕ). key_lt x c ≡ true) (sym (lt_total a b other h)) k
]

pub lt_le_trans : (a b c : List ℕ) → key_lt a b ≡ true → key_lt c b ≡ false → key_lt a c ≡ true
lt_le_trans a b c h k = elim (Bool-cases (key_lt b c)) [
  | inl below ↦ lt_trans a b c h below
  | inr other ↦ subst (λ (x : List ℕ). key_lt a x ≡ true) (lt_total b c other k) h
]

pub lt_asym : (a b : List ℕ) → key_lt a b ≡ true → key_lt b a ≡ false
lt_asym a b h = elim (Bool-cases (key_lt b a)) [
  | inr other ↦ other
  | inl back ↦ absurd (ground (arith, lt_trans a b a h back, lt_irrefl a))
]

-- `a` is not above `b`, which is not above `c`.
pub le_trans : (a b c : List ℕ) → key_lt b a ≡ false → key_lt c b ≡ false → key_lt c a ≡ false
le_trans a b c h k = elim (Bool-cases (key_lt c a)) [
  | inr other ↦ other
  | inl below ↦ absurd (ground (arith, lt_le_trans c a b below h, k))
]
