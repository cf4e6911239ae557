-- ===== src/Storage/Page/Fields.antt =====
-- Reading back what was written into a page: the same field, and fields that do not overlap.
use icedb.Base.{
  ℕ, ◌+◌, ◌≤◌, ◌<◌, ◌≡◌, ap, ◌∙◌, ◌⊎◌, inl, inr, List, arith, length, slice, splice, to_le, from_le,
  length-to_le, from_le-to_le, length-splice, slice-splice_self, slice-splice_before,
  slice-splice_after,
}
use icedb.Storage.Page.{read_u16, write_u16}

-- The `n` bytes from `o` on do not meet the `k` bytes from `off` on.
abbrev pub Apart : ℕ → ℕ → ℕ → ℕ → Type 0
Apart o n off k = (o + n ≤ off) ⊎ (off + k ≤ o)

pub slice-splice_ne :
    (b : List ℕ) (off : ℕ) (d : List ℕ) (o n : ℕ)
    → Apart o n off (length d)
    → slice (splice b off d) o n ≡ slice b o n
slice-splice_ne b off d o n (inl h) = slice-splice_before b off d o n h
slice-splice_ne b off d o n (inr h) = slice-splice_after b off d o n h

module _ (b : List ℕ) (off v : ℕ) where
  pub length-write_u16 : length (write_u16 b off v) ≡ length b
  unfolding write_u16
  length-write_u16 = length-splice b off (to_le 2 v)

  pub slice-write_u16_ne : (o n : ℕ) → Apart o n off 2 → slice (write_u16 b off v) o n ≡ slice b o n
  unfolding write_u16
  slice-write_u16_ne o n (inl h) = slice-splice_before b off (to_le 2 v) o n h
  slice-write_u16_ne o n (inr h) =
      slice-splice_after b off (to_le 2 v) o n (omega (arith, length-to_le 2 v))

  pub read-write_u16_ne : (o : ℕ) → Apart o 2 off 2 → read_u16 (write_u16 b off v) o ≡ read_u16 b o
  unfolding read_u16
  read-write_u16_ne o h = ap from_le (slice-write_u16_ne o 2 h)

  pub read-write_u16_self : off + 2 ≤ length b → v < 65536 → read_u16 (write_u16 b off v) off ≡ v
  unfolding read_u16 write_u16
  read-write_u16_self h hv =
      ap from_le (
        ap (slice (splice b off (to_le 2 v)) off)
          (ap (λ (n : ℕ). n) (omega (arith, length-to_le 2 v)))
        ∙ slice-splice_self b off (to_le 2 v) (omega (arith, length-to_le 2 v)))
      ∙ from_le-to_le 2 v hv

pub read_u16-splice_ne :
    (b : List ℕ) (off : ℕ) (d : List ℕ) (o : ℕ)
    → Apart o 2 off (length d)
    → read_u16 (splice b off d) o ≡ read_u16 b o
unfolding read_u16
read_u16-splice_ne b off d o h = ap from_le (slice-splice_ne b off d o 2 h)
