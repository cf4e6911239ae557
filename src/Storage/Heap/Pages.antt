-- ===== src/Storage/Heap/Pages.antt =====
-- Reading and writing whole pages of a sound heap file.
use icedb.Base.{
  ℕ, zero, suc, ◌+◌, ◌^◌, ◌<◌, ◌≡◌, refl, ap, ◌∙◌, true, some, List, [], ◌∷◌, arith, length,
  length-append, length-set, get_elem?, set, get_elem?-set, get_elem?-total, get_elem?-append_left,
  get_elem?-append_end, All, All-get_elem?, All-set, All-append, ◌==◌, if◌then◌else◌, ok,
}
use icedb.Storage.Page
use icedb.Storage.Page.{Page, page_size, update_checksum, verify_checksum}
use icedb.Storage.Page.Inv.{IsValid}
use icedb.Storage.Page.Fresh.{new-IsValid}
use icedb.Storage.Page.Checksum.{verify-update_checksum, update_checksum-IsValid}
use icedb.Storage.Heap.{HeapFile, num_pages, read_page, put_page, write_page, allocate_page}

-- A valid page with the checksum that belongs to it.
pub record IsStamped (p : Page) : Type 0 where
  pub valid : IsValid p
  pub verified : verify_checksum p ≡ true

-- Page numbers fit `u32`, and every page on disk is valid and carries its checksum.
pub record IsSound (h : HeapFile) : Type 0 where
  pub few : length h.pages < 2 ^ 32
  pub stamped : All IsStamped h.pages

pub num_pages-eq : {h : HeapFile} → IsSound h → num_pages h ≡ length h.pages
unfolding num_pages
num_pages-eq v = omega arith

pub stamp-IsStamped : (p : Page) → IsValid p → IsStamped (update_checksum p)
stamp-IsStamped p v = record {
  valid = (update_checksum-IsValid p v).0;
  verified = verify-update_checksum p v.size;
}

-- Below the end a read returns the page that stands there.
pub read_page-at :
    {h : HeapFile}
    → IsSound h
    → (i : ℕ) {p : Page} → get_elem? h.pages i ≡ some p
    → i < length h.pages
    → read_page h i ≡ ok p
unfolding read_page
read_page-at {h} v i e below =
    ground (arith, num_pages-eq v, (All-get_elem? IsStamped h.pages i v.stamped e).verified)

-- On a sound file a read succeeds exactly below the end, with a stamped page, and its only error
-- is `PageNotFound`.
pub read_page_total :
    {h : HeapFile}
    → IsSound h
    → (i : ℕ) → i < length h.pages
    → (p : Page) × (read_page h i ≡ ok p) × IsStamped p
read_page_total {h} v i below =
    let (p, e) = get_elem?-total h.pages i below in
    (p, read_page-at v i e below, All-get_elem? IsStamped h.pages i v.stamped e)

pub put_page-eq : (ps : List Page) (i : ℕ) (p : Page) → i < length ps → put_page ps i p ≡ set ps i p
unfolding put_page
put_page-eq [] i p h = absurd (omega arith)
put_page-eq (q ∷ qs) zero p h = refl
put_page-eq (q ∷ qs) (suc i) p h = ap (λ ps. q ∷ ps) (put_page-eq qs i p (omega arith))

module _ {h : HeapFile} (v : IsSound h) (i : ℕ) (below : i < length h.pages) (q : Page)
    (valid : IsValid q) where
  pages-write_page : (write_page h i q).pages ≡ set h.pages i (update_checksum q)
  unfolding write_page
  pages-write_page = put_page-eq h.pages i (update_checksum q) below

  pub length-write_page : length (write_page h i q).pages ≡ length h.pages
  length-write_page = ap length pages-write_page ∙ length-set h.pages i (update_checksum q)

  pub write_page-IsSound : IsSound (write_page h i q)
  write_page-IsSound = record {
    few = omega (arith, length-write_page, v.few);
    stamped =
        rw pages-write_page (All-set IsStamped h.pages i _ v.stamped (stamp-IsStamped q valid));
  }

  pub read-write_page :
      (j : ℕ)
      → read_page (write_page h i q) j ≡ (if j == i then ok (update_checksum q) else read_page h j)
  unfolding read_page
  read-write_page j = ground (
    arith,
    below,
    num_pages-eq v,
    num_pages-eq write_page-IsSound,
    length-write_page,
    ap (λ ps. get_elem? ps j) pages-write_page,
    get_elem?-set h.pages i j (update_checksum q) below,
    (stamp-IsStamped q valid).verified,
  )

module _ {h : HeapFile} (v : IsSound h) (room : length h.pages + 1 < 2 ^ 32) where
  pub allocate_page-number : (allocate_page h).0 ≡ length h.pages
  unfolding allocate_page
  allocate_page-number = num_pages-eq v

  pub length-allocate_page : length (allocate_page h).1.pages ≡ length h.pages + 1
  unfolding allocate_page
  length-allocate_page = omega (arith, length-append h.pages (update_checksum Page.new ∷ []))

  pub allocate_page-IsSound : IsSound (allocate_page h).1
  unfolding allocate_page
  allocate_page-IsSound = record {
    few = omega (arith, length-allocate_page);
    stamped =
        All-append IsStamped h.pages (update_checksum Page.new ∷ []) v.stamped
          (stamp-IsStamped Page.new new-IsValid.0, tt);
  }

  pub read-allocate_page-old :
      (j : ℕ) → j < length h.pages → read_page (allocate_page h).1 j ≡ read_page h j
  unfolding read_page allocate_page
  read-allocate_page-old j below = ground (
    arith,
    num_pages-eq v,
    num_pages-eq allocate_page-IsSound,
    length-allocate_page,
    get_elem?-append_left h.pages (update_checksum Page.new ∷ []) j below,
  )

  pub read-allocate_page-new :
      read_page (allocate_page h).1 (length h.pages) ≡ ok (update_checksum Page.new)
  unfolding allocate_page
  read-allocate_page-new =
      read_page-at allocate_page-IsSound (length h.pages)
        (get_elem?-append_end h.pages (update_checksum Page.new))
        (omega (arith, length-allocate_page))
