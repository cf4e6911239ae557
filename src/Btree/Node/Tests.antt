-- ===== src/Btree/Node/Tests.antt =====
-- Examples of a leaf: the theorems about it at concrete entries.
use icedb.Base.{nat_key, zero, suc, [], ◌∷◌, arith, List, ℕ}
use icedb.Btree.Node.Search.{IsSorted}
use icedb.Btree.Node.{key_lt, LeafEntry}

abbrev entry : List ℕ → ℕ → LeafEntry
entry key page_no = record { key = key; tid = record { page_no = page_no; slot = 0 } }

-- Two entries with the same key, and one behind them.
abbrev leaf : List LeafEntry
leaf = entry (1 ∷ []) 4 ∷ entry (1 ∷ []) 5 ∷ entry (1 ∷ 7 ∷ []) 6 ∷ []

leaf-IsSorted : IsSorted leaf
unfolding key_lt
leaf-IsSorted zero zero a b h at there = absurd (omega (arith, h))
leaf-IsSorted zero (suc zero) a b h at there = ground (arith, at, there)
leaf-IsSorted zero (suc (suc zero)) a b h at there = ground (arith, at, there)
leaf-IsSorted (suc zero) zero a b h at there = absurd (omega (arith, h))
leaf-IsSorted (suc zero) (suc zero) a b h at there = absurd (omega (arith, h))
leaf-IsSorted (suc zero) (suc (suc zero)) a b h at there = ground (arith, at, there)
leaf-IsSorted (suc (suc i)) zero a b h at there = absurd (omega (arith, h))
leaf-IsSorted (suc (suc i)) (suc zero) a b h at there = absurd (omega (arith, h))
leaf-IsSorted (suc (suc i)) (suc (suc zero)) a b h at there = absurd (omega (arith, h))
leaf-IsSorted i (suc (suc (suc j))) a b h at there = absurd (ground (arith, there))
