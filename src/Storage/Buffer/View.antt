-- ===== src/Storage/Buffer/View.antt =====
-- What the pages of a pool hold for its callers, whether a page is in a frame or on disk only, and
-- the invariant that ties the page table, the descriptors and the file together.
use icedb.Storage.Page
use icedb.Storage.Heap
use icedb.Base.{
  zero, suc, [], ◌∷◌, none, some, false, refl, arith, ◌≡◌, List, Option, ℕ, length, ◌<◌, lookup,
  get_elem?, get_or, if◌then◌else◌, ◌==◌, get_elem?-set, nat_key,
}
use icedb.Storage.Buffer.{BufferPool, write_back, BufferDescriptor, frame_at}
use icedb.Storage.Page.{Page, update_checksum}
use icedb.Storage.Heap.Pages.{put_page-eq}
use icedb.Storage.Page.Checksum.{update-update_checksum}

-- A page up to its stored checksum, which is stamped only when the page is written.
abbrev pub image : Option Page → Option Page
image none = none
image (some p) = some (update_checksum p)

-- The page on disk, and in a frame.
abbrev pub on_disk : BufferPool → ℕ → Option Page
on_disk b q = image (get_elem? b.heap.pages q)

abbrev pub in_frame : BufferPool → ℕ → Option Page
in_frame b i = image (get_elem? b.frames i)

abbrev pub view_at : BufferPool → ℕ → Option ℕ → Option Page
view_at b q none = on_disk b q
view_at b q (some i) = in_frame b i

-- What a caller finds on the page `q`.
abbrev pub view : BufferPool → ℕ → Option Page
view b q = view_at b q (lookup q b.page_table)

pub record IsConsistent (b : BufferPool) : Type 0 where
  pub as_many : length b.frames ≡ length b.descriptors
  pub some_frame : 0 < length b.frames
  pub listed :
      (q i : ℕ)
      → lookup q b.page_table ≡ some i
      → (d : BufferDescriptor) × (get_elem? b.descriptors i ≡ some d) × (d.page_no ≡ some q)
  pub held :
      (q i : ℕ) (d : BufferDescriptor)
      → get_elem? b.descriptors i ≡ some d
      → d.page_no ≡ some q
      → lookup q b.page_table ≡ some i
  pub in_file : (q i : ℕ) → lookup q b.page_table ≡ some i → q < length b.heap.pages
  pub clean :
      (q i : ℕ) (d : BufferDescriptor)
      → get_elem? b.descriptors i ≡ some d
      → d.page_no ≡ some q
      → d.dirty ≡ false
      → in_frame b i ≡ on_disk b q

pub get_elem?-bound {ℓ} :
    {A : Type ℓ} (xs : List A) (i : ℕ) {x : A} → get_elem? xs i ≡ some x → i < length xs
get_elem?-bound [] i e = absurd (ground arith)
get_elem?-bound (x ∷ xs) zero e = omega arith
get_elem?-bound (x ∷ xs) (suc i) e = omega (arith, get_elem?-bound xs i e)

pub get_elem?-get_or {ℓ} :
    {A : Type ℓ} (xs : List A) (i : ℕ) (d : A)
    → i < length xs
    → get_elem? xs i ≡ some (get_or xs i d)
get_elem?-get_or [] i d h = absurd (omega arith)
get_elem?-get_or (x ∷ xs) zero d h = refl
get_elem?-get_or (x ∷ xs) (suc i) d h = get_elem?-get_or xs i d (omega arith)

-- The page that `write_back` leaves on disk.
pub on_disk-write_back :
    (b : BufferPool) (i pno q : ℕ)
    → pno < length b.heap.pages
    → i < length b.frames
    → on_disk (write_back b i (some pno)) q ≡ (if q == pno then in_frame b i else on_disk b q)
unfolding write_back Heap.write_page
on_disk-write_back b i pno q below has = ground (
  arith,
  put_page-eq b.heap.pages pno (update_checksum (frame_at b i)) below,
  get_elem?-set b.heap.pages pno q (update_checksum (frame_at b i)) below,
  get_elem?-get_or b.frames i Page.new has,
  update-update_checksum (frame_at b i),
)
