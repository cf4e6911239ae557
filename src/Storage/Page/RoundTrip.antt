-- ===== src/Storage/Page/RoundTrip.antt =====
-- What `Page::insert_tuple` does to a valid page: which slot it takes, what `Page::get_tuple`
-- returns for every slot afterwards, and when it refuses.
use icedb.Base.{
  ℕ, ◌+◌, ◌-◌, ◌≤◌, ◌<◌, ◌≡◌, refl, ◌⊎◌, inl, inr, List, arith, length, leb, ◌==◌, if◌then◌else◌,
  ok, err, Bool-cases,
}
use native.Mathlib.Decide.{dec_lt}
use icedb.Storage.Page.{
  Page, insufficient_space, item_id_size, item_at, read_item, is_dead, pd_upper, num_slots,
  free_space, insert_tuple, get_tuple,
}
use icedb.Storage.Page.Inv.{ItemFits, IsValid}
use icedb.Storage.Page.Insert.{
  inserted, insert_tuple-eq, length-inserted, pd_upper-inserted, pd_lower-inserted,
  num_slots-inserted, tuple-inserted, slice-inserted_upper, item_at-inserted_old,
  item_at-inserted_new,
}

-- An insertion that succeeded had room.
insert_fits :
    (p : Page) (d : List ℕ) {r : Page × ℕ}
    → insert_tuple p d ≡ ok r
    → item_id_size + length d ≤ free_space p
unfolding insert_tuple
insert_fits p d e = elim (Bool-cases (leb (item_id_size + length d) (free_space p))) [
  | inl h ↦ ground arith
  | inr h ↦ absurd (ground arith)
]

module _ {p : Page} (v : IsValid p) (d : List ℕ)
    (fits : item_id_size + length d ≤ free_space p) where
  get_tuple-inserted_new : get_tuple (inserted p d) (num_slots p) ≡ ok d
  unfolding get_tuple read_item is_dead free_space
  get_tuple-inserted_new = ground (
    arith,
    fits,
    v.lower,
    v.upper,
    num_slots-inserted v d fits,
    item_at-inserted_new v d fits,
    tuple-inserted v d fits,
  )

  get_tuple-inserted_old : (s : ℕ) → s < num_slots p → get_tuple (inserted p d) s ≡ get_tuple p s
  unfolding get_tuple read_item
  get_tuple-inserted_old s h = ground (
    arith,
    v.items s h,
    num_slots-inserted v d fits,
    item_at-inserted_old v d fits s h,
    slice-inserted_upper v d fits (item_at p.bytes s).lp_off (item_at p.bytes s).lp_len,
  )

  get_tuple-inserted_out : (s : ℕ) → num_slots p < s → get_tuple (inserted p d) s ≡ get_tuple p s
  unfolding get_tuple
  get_tuple-inserted_out s h = ground (arith, num_slots-inserted v d fits)

  get_tuple-inserted :
      (s : ℕ) → get_tuple (inserted p d) s ≡ (if s == num_slots p then ok d else get_tuple p s)
  get_tuple-inserted s =
      ground (arith, get_tuple-inserted_new, get_tuple-inserted_old s, get_tuple-inserted_out s)

  inserted-ItemFits :
      (s : ℕ) → s < num_slots p + 1 → ItemFits (inserted p d).bytes (pd_upper p - length d) s
  unfolding free_space
  inserted-ItemFits s h = elim (dec_lt s (num_slots p)) [
    | yes old ↦ ground (arith, v.items s old, item_at-inserted_old v d fits s old)
    | no new ↦ ground (arith, item_at-inserted_new v d fits, v.upper, fits)
  ]

  inserted-IsValid : IsValid (inserted p d)
  unfolding free_space
  inserted-IsValid = record {
    size = length-inserted v d fits;
    lower = omega (arith, pd_lower-inserted v d fits, num_slots-inserted v d fits, v.lower);
    ordered = omega (arith, pd_lower-inserted v d fits, pd_upper-inserted v d fits, fits);
    upper = omega (arith, pd_upper-inserted v d fits, v.upper);
    items = rw (pd_upper-inserted v d fits, num_slots-inserted v d fits) inserted-ItemFits;
  }

insert_tuple-inv :
    {p q : Page} (d : List ℕ) {slot : ℕ}
    → IsValid p
    → insert_tuple p d ≡ ok (q, slot)
    → (item_id_size + length d ≤ free_space p) × (q ≡ inserted p d) × (slot ≡ num_slots p)
insert_tuple-inv {p} d v e =
    let fits = insert_fits p d e in
    (fits, cc (e, insert_tuple-eq v d fits), cc (e, insert_tuple-eq v d fits))

-- On a valid page `insert_tuple` succeeds exactly when the item pointer and the tuple fit into the
-- free space, and otherwise returns the error with both sizes. It never panics.
pub insert_tuple_total :
    {p : Page} (d : List ℕ)
    → IsValid p
    → ((item_id_size + length d ≤ free_space p)
        × ((q : Page) × (insert_tuple p d ≡ ok (q, num_slots p))))
      ⊎ ((free_space p < item_id_size + length d)
          × (insert_tuple p d ≡ err (insufficient_space (item_id_size + length d) (free_space p))))
unfolding insert_tuple
insert_tuple_total {p} d v = elim (dec_lt (free_space p) (item_id_size + length d)) [
  | yes h ↦ inr (h, ground arith)
  | no h ↦ inl (omega arith, (inserted p d, insert_tuple-eq v d (omega arith)))
]

-- A successful insertion into a valid page takes the next slot number, leaves a valid page with
-- one more slot, and uses up the tuple's length and one item pointer of the free space.
pub insert_tuple-IsValid :
    {p q : Page} (d : List ℕ) {slot : ℕ}
    → IsValid p
    → insert_tuple p d ≡ ok (q, slot)
    → IsValid q
      × (slot ≡ num_slots p)
      × (num_slots q ≡ num_slots p + 1)
      × (free_space q + item_id_size + length d ≡ free_space p)
unfolding free_space
insert_tuple-IsValid {p} {q} d {slot} v e =
    let (fits, same, at) = insert_tuple-inv d v e in
    let keeps = inserted-IsValid v d fits in
    rw (same, at)
      (
        keeps,
        refl,
        num_slots-inserted v d fits,
        omega (arith, fits, pd_lower-inserted v d fits, pd_upper-inserted v d fits),
      )

-- After a successful insertion into a valid page, `get_tuple` returns the inserted bytes for the
-- returned slot, and for every other slot number what it returned before, errors included.
pub get_tuple-insert_tuple :
    {p q : Page} (d : List ℕ) {slot : ℕ} (s : ℕ)
    → IsValid p
    → insert_tuple p d ≡ ok (q, slot)
    → get_tuple q s ≡ (if s == slot then ok d else get_tuple p s)
get_tuple-insert_tuple {p} d s v e =
    let (fits, same, at) = insert_tuple-inv d v e in rw (same, at) (get_tuple-inserted v d fits s)
