-- ===== src/Sql/Like/Language.antt =====
-- The texts of a pattern: `%` stands for any bytes, `_` for one byte, any other byte for itself.
use icedb.Sql.Like.{any_suffix, like_match_impl}
use icedb.Base.{
  nat_key, [], ◌∷◌, true, inl, inr, refl, arith, ◌≡◌, List, ℕ, ◌≢◌, Bool-cases, Bool, ◌↔◌,
}
use native.Mathlib.Decide.{ℕ_discrete}

pub data Matches : List ℕ → List ℕ → Type 0 where
  empty : Matches [] []
  skip :
      {text pattern : List ℕ} (p : ℕ) → p ≡ b'%' → Matches text pattern → Matches text (p ∷ pattern)
  more :
      {text pattern : List ℕ} (p c : ℕ)
      → p ≡ b'%'
      → Matches text (p ∷ pattern)
      → Matches (c ∷ text) (p ∷ pattern)
  one :
      {text pattern : List ℕ} (p c : ℕ)
      → p ≡ b'_'
      → Matches text pattern
      → Matches (c ∷ text) (p ∷ pattern)
  same :
      {text pattern : List ℕ} (p c : ℕ)
      → p ≢ b'%'
      → p ≢ b'_'
      → c ≡ p
      → Matches text pattern
      → Matches (c ∷ text) (p ∷ pattern)

any_suffix-Matches :
    (p : ℕ) (pattern : List ℕ)
    → p ≡ b'%'
    → ((rest : List ℕ) → like_match_impl rest pattern ≡ true → Matches rest pattern)
    → (text : List ℕ) → any_suffix (λ rest. like_match_impl rest pattern) text ≡ true
    → Matches text (p ∷ pattern)
unfolding any_suffix
any_suffix-Matches p pattern e sound [] h = Matches.skip p e (sound [] h)
any_suffix-Matches p pattern e sound (c ∷ text) h =
    elim (Bool-cases (like_match_impl (c ∷ text) pattern)) [
      | inl here ↦ Matches.skip p e (sound (c ∷ text) here)
      | inr later ↦
          Matches.more p c e (any_suffix-Matches p pattern e sound text (ground (arith, h, later)))
    ]

like_match_impl_sound :
    (pattern text : List ℕ) → like_match_impl text pattern ≡ true → Matches text pattern
unfolding like_match_impl
like_match_impl_sound [] [] h = Matches.empty
like_match_impl_sound [] (c ∷ text) h = absurd (ground (arith, h))
like_match_impl_sound (p ∷ pattern) [] h = elim (ℕ_discrete p b'%') [
  | yes any ↦
      any_suffix-Matches p pattern any (like_match_impl_sound pattern) [] (ground (arith, h, any))
  | no other ↦ absurd (ground (arith, h, other))
]
like_match_impl_sound (p ∷ pattern) (c ∷ text) h = elim (ℕ_discrete p b'%') [
  | yes any ↦
      any_suffix-Matches p pattern any (like_match_impl_sound pattern) (c ∷ text)
        (ground (arith, h, any))
  | no other ↦ elim (ℕ_discrete p b'_') [
    | yes single ↦
        Matches.one p c single
          (like_match_impl_sound pattern text (ground (arith, h, other, single)))
    | no literal ↦
        Matches.same p c other literal (ground (arith, h, other, literal))
          (like_match_impl_sound pattern text (ground (arith, h, other, literal)))
  ]
]

any_suffix-here :
    (test : List ℕ → Bool) (text : List ℕ) → test text ≡ true → any_suffix test text ≡ true
unfolding any_suffix
any_suffix-here test [] h = h
any_suffix-here test (c ∷ text) h = rw h refl

like_match_impl_complete :
    {text pattern : List ℕ} → Matches text pattern → like_match_impl text pattern ≡ true
unfolding like_match_impl any_suffix
like_match_impl_complete Matches.empty = refl
like_match_impl_complete (Matches.skip {text} {pattern} p e m) =
    rw e (any_suffix-here (λ rest. like_match_impl rest pattern) text (like_match_impl_complete m))
like_match_impl_complete (Matches.more {text} {pattern} p c e m) =
    ground (arith, e, like_match_impl_complete m)
like_match_impl_complete (Matches.one p c e m) = ground (arith, e, like_match_impl_complete m)
like_match_impl_complete (Matches.same p c a b e m) = ground (arith, e, like_match_impl_complete m)

-- On the bytes of text and pattern, `LIKE` holds exactly for the texts of the pattern's language, in
-- which `%` stands for any bytes, `_` for one byte (so not for a character of several bytes), and any
-- other byte for itself.
pub like_match_impl-Matches :
    (text pattern : List ℕ) → (like_match_impl text pattern ≡ true) ↔ Matches text pattern
like_match_impl-Matches text pattern =
    (like_match_impl_sound pattern text, λ m. like_match_impl_complete m)
