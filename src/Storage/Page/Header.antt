-- ===== src/Storage/Page/Header.antt =====
-- Writing a header field that is neither `pd_lower` nor `pd_upper` changes no tuple.
use icedb.Base.{
  ℕ, ◌+◌, ◌≤◌, ◌<◌, ◌≡◌, ap, ap₂, ◌∙◌, ◌⊎◌, List, arith, length, slice, splice, from_le,
  length-splice,
}
use native.Mathlib.Decide.{dec_lt}
use icedb.Storage.Page.{
  Page, ItemId, item_base, item_at, read_item, read_u16, off_lower, off_upper, pd_lower, pd_upper,
  num_slots, get_tuple,
}
use icedb.Storage.Page.Fields.{Apart, slice-splice_ne}
use icedb.Storage.Page.Inv.{ItemFits, IsValid}

unfoldable pub touched : Page → ℕ → List ℕ → Page
touched p off d = record { bytes = splice p.bytes off d }

-- The field lies in front of `pd_lower` or between `pd_upper` and the item pointers.
abbrev pub IsSpare : ℕ → ℕ → Type 0
IsSpare off n = (off + n ≤ 12) ⊎ ((16 ≤ off) × (off + n ≤ 24))

module _ (p : Page) (off : ℕ) (d : List ℕ) (spare : IsSpare off (length d)) where
  slice-touched :
      (o n : ℕ) → Apart o n off (length d) → slice (touched p off d).bytes o n ≡ slice p.bytes o n
  unfolding touched
  slice-touched o n h = slice-splice_ne p.bytes off d o n h

  pub pd_lower-touched : pd_lower (touched p off d) ≡ pd_lower p
  unfolding pd_lower read_u16
  pd_lower-touched = ap from_le (slice-touched off_lower 2 (omega arith))

  pub pd_upper-touched : pd_upper (touched p off d) ≡ pd_upper p
  unfolding pd_upper read_u16
  pd_upper-touched = ap from_le (slice-touched off_upper 2 (omega arith))

  pub num_slots-touched : num_slots (touched p off d) ≡ num_slots p
  unfolding num_slots
  num_slots-touched = rw pd_lower-touched

  item_at-touched : (s : ℕ) → item_at (touched p off d).bytes s ≡ item_at p.bytes s
  unfolding item_at read_u16
  item_at-touched s =
      ap₂
        (λ (a b : List ℕ). let i : ItemId = record { lp_off = from_le a; lp_len = from_le b } in i)
        (slice-touched (item_base s) 2 (omega arith))
        (slice-touched (item_base s + 2) 2 (omega arith))

module _ {p : Page} (v : IsValid p) (off : ℕ) (d : List ℕ) (spare : IsSpare off (length d)) where
  fits : (s : ℕ) → s < num_slots p → ItemFits (touched p off d).bytes (pd_upper p) s
  fits s h = rw (item_at-touched p off d spare s) (v.items s h)

  pub touched-IsValid : IsValid (touched p off d)
  unfolding touched
  touched-IsValid = record {
    size = length-splice p.bytes off d ∙ v.size;
    lower = omega (arith, pd_lower-touched p off d spare, num_slots-touched p off d spare, v.lower);
    ordered =
        omega (arith, pd_lower-touched p off d spare, pd_upper-touched p off d spare, v.ordered);
    upper = omega (arith, pd_upper-touched p off d spare, v.upper);
    items = rw (num_slots-touched p off d spare, pd_upper-touched p off d spare) fits;
  }

  pub get_tuple-touched : (s : ℕ) → get_tuple (touched p off d) s ≡ get_tuple p s
  unfolding get_tuple read_item
  get_tuple-touched s = elim (dec_lt s (num_slots p)) [
    | yes old ↦ ground (
      arith,
      v.items s old,
      num_slots-touched p off d spare,
      item_at-touched p off d spare s,
      v.lower,
      v.ordered,
      slice-touched p off d spare (item_at p.bytes s).lp_off (item_at p.bytes s).lp_len,
    )
    | no out ↦ ground (arith, num_slots-touched p off d spare)
  ]
