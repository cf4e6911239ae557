-- ===== src/Storage/Page/Overwrite.antt =====
-- Writing other bytes over a tuple of a valid page, in the range that its item pointer names.
use icedb.Base.{
  nat_key, false, inl, inr, ok, arith, ◌≡◌, ◌+◌, splice, ℕ, List, ◌<◌, length, ◌≤◌, length-splice,
  ap, ◌∙◌, slice, ap₂, from_le, slice-splice_self,
}
use icedb.Storage.Page.{
  get_tuple, Page, num_slots, item_at, is_dead, read_u16, read_item, pd_lower, page_size, pd_upper,
  ItemId, off_lower, item_base, off_upper,
}
use native.Mathlib.Decide.{dec_lt}
use icedb.Storage.Page.Inv.{IsValid, ItemFits, item_in_page}
use icedb.Storage.Page.Fields.{Apart, slice-splice_ne}

-- The bytes of the item `k` are replaced.
abbrev pub overwritten : Page → ℕ → List ℕ → Page
overwritten p k d = record { bytes = splice p.bytes (item_at p.bytes k).lp_off d }

module _ {p : Page} (v : IsValid p) (k : ℕ) (below : k < num_slots p)
    (live : is_dead (item_at p.bytes k) ≡ false) (d : List ℕ)
    (fits : length d ≤ (item_at p.bytes k).lp_len) where
  in_page :
      (pd_upper p ≤ (item_at p.bytes k).lp_off)
      × ((item_at p.bytes k).lp_off + (item_at p.bytes k).lp_len ≤ page_size)
  in_page = elim (v.items k below) [ inl dead ↦ absurd (cc (dead, live)) | inr h ↦ h ]

  pub overwritten_bound : (item_at p.bytes k).lp_off + length d ≤ page_size
  overwritten_bound = omega (arith, in_page, fits)

  slice-overwritten :
      (o n : ℕ)
      → Apart o n (item_at p.bytes k).lp_off (length d)
      → slice (overwritten p k d).bytes o n ≡ slice p.bytes o n
  slice-overwritten o n h = slice-splice_ne p.bytes (item_at p.bytes k).lp_off d o n h

  -- Nothing in front of `pd_upper` changes.
  slice-overwritten_front :
      (o n : ℕ) → o + n ≤ pd_upper p → slice (overwritten p k d).bytes o n ≡ slice p.bytes o n
  slice-overwritten_front o n h = slice-overwritten o n (inl (omega (arith, in_page)))

  pd_lower-overwritten : pd_lower (overwritten p k d) ≡ pd_lower p
  unfolding pd_lower read_u16
  pd_lower-overwritten =
      ap from_le (slice-overwritten_front off_lower 2 (omega (arith, v.lower, v.ordered)))

  pd_upper-overwritten : pd_upper (overwritten p k d) ≡ pd_upper p
  unfolding pd_upper read_u16
  pd_upper-overwritten =
      ap from_le (slice-overwritten_front off_upper 2 (omega (arith, v.lower, v.ordered)))

  pub num_slots-overwritten : num_slots (overwritten p k d) ≡ num_slots p
  unfolding num_slots
  num_slots-overwritten = rw pd_lower-overwritten

  pub item_at-overwritten :
      (s : ℕ) → s < num_slots p → item_at (overwritten p k d).bytes s ≡ item_at p.bytes s
  unfolding item_at read_u16
  item_at-overwritten s h =
      ap₂
        (λ (a b : List ℕ). let i : ItemId = record { lp_off = from_le a; lp_len = from_le b } in i)
        (slice-overwritten_front (item_base s) 2 (omega (arith, item_in_page v s h, v.ordered)))
        (slice-overwritten_front (item_base s + 2) 2 (omega (arith, item_in_page v s h, v.ordered)))

  overwritten-ItemFits :
      (s : ℕ) → s < num_slots p → ItemFits (overwritten p k d).bytes (pd_upper p) s
  overwritten-ItemFits s h = rw (item_at-overwritten s h) (v.items s h)

  pub overwritten-IsValid : IsValid (overwritten p k d)
  overwritten-IsValid = record {
    size = length-splice p.bytes (item_at p.bytes k).lp_off d ∙ v.size;
    lower = omega (arith, pd_lower-overwritten, num_slots-overwritten, v.lower);
    ordered = omega (arith, pd_lower-overwritten, pd_upper-overwritten, v.ordered);
    upper = omega (arith, pd_upper-overwritten, v.upper);
    items = rw (pd_upper-overwritten, num_slots-overwritten) overwritten-ItemFits;
  }

  -- A tuple of the same length reads back.
  pub get_tuple-overwritten_self :
      length d ≡ (item_at p.bytes k).lp_len → get_tuple (overwritten p k d) k ≡ ok d
  unfolding get_tuple read_item
  get_tuple-overwritten_self same = ground (
    arith,
    same,
    below,
    live,
    num_slots-overwritten,
    item_at-overwritten k below,
    item_in_page v k below,
    v.ordered,
    v.upper,
    in_page,
    v.size,
    slice-splice_self p.bytes (item_at p.bytes k).lp_off d,
  )

  -- A tuple that lies elsewhere reads as before.
  pub get_tuple-overwritten_ne :
      (s : ℕ)
      → Apart
          (item_at p.bytes s).lp_off
          (item_at p.bytes s).lp_len
          (item_at p.bytes k).lp_off
          (length d)
      → get_tuple (overwritten p k d) s ≡ get_tuple p s
  unfolding get_tuple read_item
  get_tuple-overwritten_ne s apart = elim (dec_lt s (num_slots p)) [
    | yes old ↦ ground (
      arith,
      num_slots-overwritten,
      item_at-overwritten s old,
      slice-overwritten (item_at p.bytes s).lp_off (item_at p.bytes s).lp_len apart,
    )
    | no out ↦ ground (arith, num_slots-overwritten)
  ]
