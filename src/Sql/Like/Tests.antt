-- ===== src/Sql/Like/Tests.antt =====
-- Runs of `like_match_impl` in crates/sql/src/executor.rs.
use icedb.Sql.Like.{like_match_impl, any_suffix}
use icedb.Sql.Like.Language.{Matches, like_match_impl-Matches}
use icedb.Base.{nat_key, [], ◌∷◌, true, false, refl, ◌≡◌, List, ◌↔◌, ℕ}

abbrev hello : List ℕ
hello = b'h' ∷ b'e' ∷ b'l' ∷ b'l' ∷ b'o' ∷ []

hello_matches : like_match_impl hello (b'h' ∷ b'%' ∷ b'l' ∷ b'_' ∷ []) ≡ true
unfolding like_match_impl any_suffix
hello_matches = refl

hello_differs : like_match_impl hello (b'h' ∷ b'_' ∷ []) ≡ false
unfolding like_match_impl any_suffix
hello_differs = refl

-- One character of two bytes is not matched by `_`.
two_bytes : like_match_impl (0xc3 ∷ 0xa9 ∷ []) (b'_' ∷ []) ≡ false
unfolding like_match_impl
two_bytes = refl

like_match_impl-Matches_example :
    (like_match_impl hello (b'h' ∷ b'%' ∷ []) ≡ true) ↔ Matches hello (b'h' ∷ b'%' ∷ [])
like_match_impl-Matches_example = like_match_impl-Matches hello (b'h' ∷ b'%' ∷ [])
