-- ===== src/Sql/Like.antt =====
-- crates/sql/src/executor.rs, `like_match` and `like_match_impl`: a text and a pattern as bytes.
pub mod Language
pub mod Tests
use icedb.Base.{
  nat_key, zero, suc, [], ◌∷◌, none, some, true, false, inl, inr, ok, err, refl, arith, ◌>>=◌, ◌>>◌,
  ◌≡◌, ◌+◌, List, ℕ, Bool, ◌||◌, ◌==◌, ◌&&◌,
}

-- The loop over the positions from which the rest of the pattern may match.
unfoldable pub any_suffix : (List ℕ → Bool) → List ℕ → Bool
any_suffix test [] = test []
any_suffix test (c ∷ text) = test (c ∷ text) || any_suffix test text

unfoldable pub like_match_impl : List ℕ → List ℕ → Bool
like_match_impl text [] = elim text [ [] ↦ true | c ∷ rest ↦ false ]
like_match_impl text (p ∷ pattern) = elim (p == b'%') [
  | true ↦ any_suffix (λ rest. like_match_impl rest pattern) text
  | false ↦ elim text [
    | [] ↦ false
    | c ∷ rest ↦ elim (p == b'_') [
      | true ↦ like_match_impl rest pattern
      | false ↦ c == p && like_match_impl rest pattern
    ]
  ]
]
