-- ===== src/Storage/Heap/Search.antt =====
-- The search for a page with room: it returns the first one, and only pages that stand in the file.
use native.Mathlib.Decide.{ℕ_discrete}
use icedb.Base.{
  ℕ, zero, suc, ◌+◌, ◌≤◌, ◌<◌, ◌≡◌, refl, ◌⊎◌, inl, inr, Option, none, some, arith, length, leb,
  leb→le, Bool-cases, Outcome, ok,
}
use icedb.Storage.Page.{Page, free_space}
use icedb.Storage.Heap.{HeapFile, HeapError, read_page, find_page}
use icedb.Storage.Heap.Pages.{IsSound, IsStamped, read_page_total}

-- A page that the search may return.
pub record HasRoom (h : HeapFile) (needed i : ℕ) (p : Page) : Type 0 where
  pub below : i < length h.pages
  pub found : read_page h i ≡ ok p
  pub stamped : IsStamped p
  pub fits : needed ≤ free_space p

-- Every page from `lo` up to `i` is too full.
abbrev pub AllFull : HeapFile → ℕ → ℕ → ℕ → Type 0
AllFull h needed lo i =
    (j : ℕ) → lo ≤ j → j < i → (p : Page) → read_page h j ≡ ok p → free_space p < needed

-- The outcomes of a search from `i` on: no page has room, or the first page that has.
abbrev pub Searched : HeapFile → ℕ → ℕ → Outcome HeapError (Option (ℕ × Page)) → Type 0
Searched h needed i r =
    ((r ≡ ok none) × AllFull h needed i (length h.pages))
    ⊎ ((j : ℕ) × (p : Page) × (r ≡ ok (some (j, p))) × HasRoom h needed j p × AllFull h needed i j)

module _ {h : HeapFile} (v : IsSound h) (needed : ℕ) where
  AllFull-step :
      (i k : ℕ) (p : Page)
      → read_page h i ≡ ok p
      → free_space p < needed
      → AllFull h needed (i + 1) k
      → AllFull h needed i k
  AllFull-step i k p e full rest j lo hi q e' = elim (ℕ_discrete j i) [
    | yes at ↦ ground (arith, full)
    | no ne ↦ rest j (omega arith) hi q e'
  ]

  find_page_step :
      (rounds i : ℕ) (p : Page)
      → read_page h i ≡ ok p
      → i < length h.pages
      → IsStamped p
      → Searched h needed (i + 1) (find_page rounds (i + 1) needed h)
      → Searched h needed i (find_page (suc rounds) i needed h)
  unfolding find_page
  find_page_step rounds i p e below s rest = elim (Bool-cases (leb needed (free_space p))) [
    | inl fits ↦ inr (
      i,
      p,
      rw (e, fits),
      record { below = below; found = e; stamped = s; fits = leb→le needed (free_space p) fits },
      λ j lo hi. absurd (omega arith),
    )
    | inr full ↦ elim rest [
      | inl (r, all) ↦ inl (rw (e, full) r, AllFull-step i _ p e (ground arith) all)
      | inr (j, q, r, room, all) ↦
          inr (j, q, rw (e, full) r, room, AllFull-step i j p e (ground arith) all)
    ]
  ]

  -- The search from `i` on fails to find a page only if all are too full; the page that it finds
  -- is the first that is not.
  pub find_page_total :
      (rounds i : ℕ)
      → i + rounds ≡ length h.pages
      → Searched h needed i (find_page rounds i needed h)
  find_page_total zero i e = unfold find_page in inl (refl, λ j a b. absurd (omega arith))
  find_page_total (suc rounds) i e =
      let (p, r, s) = read_page_total v i (omega arith) in
      find_page_step rounds i p r (omega arith) s (find_page_total rounds (i + 1) (omega arith))
