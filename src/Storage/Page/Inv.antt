-- ===== src/Storage/Page/Inv.antt =====
-- The invariant of a slotted page, and that a fresh page meets it.
use icedb.Base.{ℕ, ◌+◌, ◌*◌, ◌≤◌, ◌<◌, ◌≡◌, true, ◌⊎◌, List, arith, length}
use icedb.Storage.Page.{
  Page, page_size, page_header_size, item_id_size, item_at, is_dead, pd_lower, pd_upper, num_slots,
}

-- An item pointer is dead, or its tuple lies between `pd_upper` and the end of the page.
abbrev pub ItemFits : List ℕ → ℕ → ℕ → Type 0
ItemFits buf upper slot =
    (is_dead (item_at buf slot) ≡ true)
    ⊎ ((upper ≤ (item_at buf slot).lp_off)
        × ((item_at buf slot).lp_off + (item_at buf slot).lp_len ≤ page_size))

pub record IsValid (p : Page) : Type 0 where
  pub size : length p.bytes ≡ page_size
  pub lower : pd_lower p ≡ page_header_size + num_slots p * item_id_size
  pub ordered : pd_lower p ≤ pd_upper p
  pub upper : pd_upper p ≤ page_size
  pub items : (slot : ℕ) → slot < num_slots p → ItemFits p.bytes (pd_upper p) slot

-- The item pointers stand in the page.
pub item_in_page :
    {p : Page}
    → IsValid p
    → (slot : ℕ) → slot < num_slots p
    → page_header_size + slot * item_id_size + item_id_size ≤ pd_lower p
item_in_page v slot h = omega (arith, v.lower)
