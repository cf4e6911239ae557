-- ===== src/Storage/Page/Delete.antt =====
-- `Page::delete_tuple` and `Page::mark_dead` on a valid page: one slot dies, the others stay.
use native.Mathlib.Decide.{dec_lt, ℕ_discrete}
use icedb.Base.{
  ℕ, ◌+◌, ◌-◌, ◌<◌, ◌≡◌, ◌≢◌, ap, ap₂, ◌∙◌, true, false, ◌⊎◌, inl, inr, List, arith, length, ◌==◌,
  if◌then◌else◌, slice, from_le, ok, err, Bool-cases,
}
use icedb.Storage.Page.{
  Page, ItemId, PageError, slot_out_of_range, slot_dead, page_size, item_base, item_at, read_item,
  write_item, is_dead, read_u16, write_u16, off_lower, off_upper, pd_lower, pd_upper, num_slots,
  free_space, get_tuple, delete_tuple,
}
use icedb.Storage.Page.Fields.{
  Apart, length-write_u16, slice-write_u16_ne, read-write_u16_ne, read-write_u16_self,
}
use icedb.Storage.Page.Inv.{ItemFits, IsValid, item_in_page}

pub deleted : Page → ℕ → Page
deleted p k = record { bytes = write_u16 (write_u16 p.bytes (item_base k) 0) (item_base k + 2) 0 }

module _ {p : Page} (v : IsValid p) (k : ℕ) (live : k < num_slots p) where
  length-deleted : length (deleted p k).bytes ≡ page_size
  unfolding deleted
  length-deleted = length-write_u16 _ _ _ ∙ length-write_u16 _ _ _ ∙ v.size

  slice-deleted :
      (o n : ℕ) → Apart o n (item_base k) 4 → slice (deleted p k).bytes o n ≡ slice p.bytes o n
  unfolding deleted
  slice-deleted o n h =
      slice-write_u16_ne _ (item_base k + 2) 0 o n (omega arith)
      ∙ slice-write_u16_ne _ (item_base k) 0 o n (omega arith)

  pd_lower-deleted : pd_lower (deleted p k) ≡ pd_lower p
  unfolding pd_lower read_u16
  pd_lower-deleted = ap from_le (slice-deleted off_lower 2 (omega arith))

  pd_upper-deleted : pd_upper (deleted p k) ≡ pd_upper p
  unfolding pd_upper read_u16
  pd_upper-deleted = ap from_le (slice-deleted off_upper 2 (omega arith))

  num_slots-deleted : num_slots (deleted p k) ≡ num_slots p
  unfolding num_slots
  num_slots-deleted = rw pd_lower-deleted

  item_at-deleted_ne : (s : ℕ) → s ≢ k → item_at (deleted p k).bytes s ≡ item_at p.bytes s
  unfolding item_at read_u16
  item_at-deleted_ne s h =
      ap₂
        (λ (a b : List ℕ). let i : ItemId = record { lp_off = from_le a; lp_len = from_le b } in i)
        (slice-deleted (item_base s) 2 (omega arith))
        (slice-deleted (item_base s + 2) 2 (omega arith))

  item_at-deleted_self : item_at (deleted p k).bytes k ≡ record { lp_off = 0; lp_len = 0 }
  unfolding item_at deleted
  item_at-deleted_self =
      ap₂ (λ (a b : ℕ). let i : ItemId = record { lp_off = a; lp_len = b } in i)
        (read-write_u16_ne _ _ _ _ (omega arith)
          ∙ read-write_u16_self _ _ _
              (omega (arith, v.size, item_in_page v k live, v.ordered, v.upper)) (omega arith))
        (read-write_u16_self _ _ _
          (omega (
            arith,
            length-write_u16 p.bytes (item_base k) 0,
            v.size,
            item_in_page v k live,
            v.ordered,
            v.upper,
          ))
          (omega arith))

  deleted-ItemFits : (s : ℕ) → s < num_slots p → ItemFits (deleted p k).bytes (pd_upper p) s
  unfolding is_dead
  deleted-ItemFits s h = elim (ℕ_discrete s k) [
    | yes e ↦ inl (rw (e, item_at-deleted_self))
    | no ne ↦ rw (item_at-deleted_ne s ne) (v.items s h)
  ]

  deleted-IsValid : IsValid (deleted p k)
  deleted-IsValid = record {
    size = length-deleted;
    lower = omega (arith, pd_lower-deleted, num_slots-deleted, v.lower);
    ordered = omega (arith, pd_lower-deleted, pd_upper-deleted, v.ordered);
    upper = omega (arith, pd_upper-deleted, v.upper);
    items = rw (pd_upper-deleted, num_slots-deleted) deleted-ItemFits;
  }

  get_tuple-deleted_self : get_tuple (deleted p k) k ≡ err (slot_dead k)
  unfolding get_tuple read_item is_dead
  get_tuple-deleted_self =
      ground
        (arith, item_at-deleted_self, num_slots-deleted, item_in_page v k live, v.ordered, v.upper)

  get_tuple-deleted_ne : (s : ℕ) → s ≢ k → get_tuple (deleted p k) s ≡ get_tuple p s
  unfolding get_tuple read_item
  get_tuple-deleted_ne s h = elim (dec_lt s (num_slots p)) [
    | yes old ↦ ground (
      arith,
      v.items s old,
      num_slots-deleted,
      item_at-deleted_ne s h,
      item_in_page v k live,
      v.ordered,
      slice-deleted (item_at p.bytes s).lp_off (item_at p.bytes s).lp_len,
    )
    | no out ↦ ground (arith, num_slots-deleted)
  ]

pub delete_tuple-eq :
    {p : Page}
    → IsValid p
    → (k : ℕ) → k < num_slots p
    → is_dead (item_at p.bytes k) ≡ false
    → delete_tuple p k ≡ ok (deleted p k)
unfolding delete_tuple read_item write_item deleted
delete_tuple-eq v k h live = ground (arith, item_in_page v k h, v.ordered, v.upper)

delete_tuple_live :
    (p : Page) (k : ℕ) {q : Page}
    → delete_tuple p k ≡ ok q
    → (k < num_slots p) × (is_dead (item_at p.bytes k) ≡ false)
unfolding delete_tuple read_item
delete_tuple_live p k e = (ground arith, ground arith)

delete_tuple-inv :
    {p q : Page}
    → IsValid p
    → (k : ℕ) → delete_tuple p k ≡ ok q
    → (k < num_slots p) × (q ≡ deleted p k)
delete_tuple-inv {p} v k e =
    let (h, live) = delete_tuple_live p k e in (h, cc (e, delete_tuple-eq v k h live))

-- A successful deletion on a valid page leaves a valid page with as many slots and as much free
-- space; `get_tuple` returns `SlotDead` for the deleted slot, and what it returned before for every
-- other slot number.
pub get_tuple-delete_tuple :
    {p q : Page} (k : ℕ)
    → IsValid p
    → delete_tuple p k ≡ ok q
    → IsValid q
      × (num_slots q ≡ num_slots p)
      × (free_space q ≡ free_space p)
      × ((s : ℕ) → get_tuple q s ≡ (if s == k then err (slot_dead k) else get_tuple p s))
unfolding free_space
get_tuple-delete_tuple {p} k v e =
    let (h, same) = delete_tuple-inv v k e in
    rw same (
      deleted-IsValid v k h,
      num_slots-deleted v k h,
      ap₂ (λ (a b : ℕ). a - b) (pd_upper-deleted v k h) (pd_lower-deleted v k h),
      λ s. elim (ℕ_discrete s k) [
        | yes at ↦ ground (arith, get_tuple-deleted_self v k h)
        | no ne ↦ ground (arith, get_tuple-deleted_ne v k h s ne)
      ],
    )

-- On a valid page `delete_tuple` gives the same answer as `get_tuple` on whether the slot holds a
-- tuple: both succeed, or both return the same error. So a second deletion fails.
pub delete_tuple_total :
    {p : Page} (k : ℕ)
    → IsValid p
    → ((t : List ℕ) × (q : Page) × (get_tuple p k ≡ ok t) × (delete_tuple p k ≡ ok q))
      ⊎ ((e : PageError) × (get_tuple p k ≡ err e) × (delete_tuple p k ≡ err e))
unfolding get_tuple delete_tuple read_item
delete_tuple_total {p} k v = elim (dec_lt k (num_slots p)) [
  | no out ↦ inr (slot_out_of_range k, ground arith, ground arith)
  | yes h ↦ elim (Bool-cases (is_dead (item_at p.bytes k))) [
    | inl dead ↦ inr (slot_dead k, dead_slot h dead, dead_slot' h dead)
    | inr live ↦ inl (
      slice p.bytes (item_at p.bytes k).lp_off (item_at p.bytes k).lp_len,
      deleted p k,
      live_slot h live,
      delete_tuple-eq v k h live,
    )
  ]
]
  where
    dead_slot :
        k < num_slots p → is_dead (item_at p.bytes k) ≡ true → get_tuple p k ≡ err (slot_dead k)
    dead_slot h e = ground (arith, item_in_page v k h, v.ordered, v.upper)

    dead_slot' :
        k < num_slots p → is_dead (item_at p.bytes k) ≡ true → delete_tuple p k ≡ err (slot_dead k)
    dead_slot' h e = ground (arith, item_in_page v k h, v.ordered, v.upper)

    live_slot :
        k < num_slots p
        → is_dead (item_at p.bytes k) ≡ false
        → get_tuple p k ≡ ok (slice p.bytes (item_at p.bytes k).lp_off (item_at p.bytes k).lp_len)
    live_slot h e = ground (arith, v.items k h, item_in_page v k h, v.ordered, v.upper)
