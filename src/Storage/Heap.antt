-- ===== src/Storage/Heap.antt =====
-- crates/storage/src/heap.rs and the heap errors of error.rs. A heap file is the list of its pages:
-- every write of the program is one whole page at a multiple of the page size. Seeks, reads and
-- writes of the operating system are taken to succeed, so the variant `Io` does not occur.
pub mod Pages
pub mod Search
pub mod Insert
pub mod Delete
use icedb.Base.{
  ℕ, zero, suc, ◌+◌, ◌%◌, ◌^◌, Bool, true, false, Option, none, some, List, [], ◌∷◌, ◌++◌, length,
  get_elem?, replicate, ltb, leb, if◌then◌else◌, Outcome, ok, err, ◌>>=◌, ◌>>◌, guard, map_err,
}
use icedb.Storage.Page
use icedb.Storage.Page.{
  Page, PageError, checksum_mismatch, page_size, item_id_size, free_space, update_checksum,
  verify_checksum,
}
use icedb.Storage.Tuple.{Tid, Tuple, TupleError, encode, decode}

pub data HeapError : Type 0 where
  page_error : PageError → HeapError
  tuple_error : TupleError → HeapError
  page_not_found : ℕ → HeapError

pub record HeapFile : Type 0 where
  pub pages : List Page

unfoldable pub num_pages : HeapFile → ℕ
num_pages h = length h.pages % 2 ^ 32

-- The page at a position of the file: `read_exact` finds the whole page below `num_pages`.
abbrev pub page_or_panic : Option Page → Outcome HeapError Page
page_or_panic none = Outcome.panic
page_or_panic (some p) = ok p

unfoldable pub read_page : HeapFile → ℕ → Outcome HeapError Page
read_page h page_no = do
  guard (ltb page_no (num_pages h)) (page_not_found page_no)
  page ← page_or_panic (get_elem? h.pages page_no)
  guard (verify_checksum page) (page_error checksum_mismatch)
  ok page

abbrev pub zeroed : Page
zeroed = record { bytes = replicate page_size 0 }

-- A write behind the end of the file fills the gap with zeroes.
unfoldable pub put_page : List Page → ℕ → Page → List Page
put_page [] zero p = p ∷ []
put_page [] (suc n) p = zeroed ∷ put_page [] n p
put_page (q ∷ qs) zero p = p ∷ qs
put_page (q ∷ qs) (suc n) p = q ∷ put_page qs n p

unfoldable pub write_page : HeapFile → ℕ → Page → HeapFile
write_page h page_no page = record { pages = put_page h.pages page_no (update_checksum page) }

unfoldable pub allocate_page : HeapFile → ℕ × HeapFile
allocate_page h = (num_pages h, record { pages = h.pages ++ (update_checksum Page.new ∷ []) })

-- The loop `for page_no in 0..n`, `rounds` rounds before its end: the first page with room.
unfoldable pub find_page : ℕ → ℕ → ℕ → HeapFile → Outcome HeapError (Option (ℕ × Page))
find_page zero page_no needed h = ok none
find_page (suc rounds) page_no needed h =
    let rest = find_page rounds (page_no + 1) needed h in
    read_page h page_no >>= λ page.
    if leb needed (free_space page) then ok (some (page_no, page)) else rest

-- A step that may fail, before steps that change the file: the file stays as it is at a failure.
abbrev pub attempt {ℓ κ μ} :
    {E : Type ℓ} {A : Type κ} {B : Type μ} {S : Type 0}
    → Outcome E A
    → S
    → (A → Outcome E B × S)
    → Outcome E B × S
attempt (ok a) h f = f a
attempt (err e) h f = (err e, h)
attempt Outcome.panic h f = (Outcome.panic, h)

-- `page.insert_tuple(encoded)?` on a page that was read.
abbrev pub insert_into : ℕ → Page → List ℕ → HeapFile → Outcome HeapError (ℕ × Page × ℕ) × HeapFile
insert_into page_no page encoded h =
    attempt (map_err page_error (Page.insert_tuple page encoded)) h λ r. (ok (page_no, r.0, r.1), h)

-- No page has room: allocate one and insert there.
unfoldable pub insert_fresh : List ℕ → HeapFile → Outcome HeapError (ℕ × Page × ℕ) × HeapFile
insert_fresh encoded h =
    let (page_no, h') = allocate_page h in
    attempt (read_page h' page_no) h' λ page. insert_into page_no page encoded h'

-- The page number, the changed page and the slot; the changed page is not written.
unfoldable pub find_and_prepare_insert :
    HeapFile → List ℕ → Outcome HeapError (ℕ × Page × ℕ) × HeapFile
find_and_prepare_insert h encoded =
    let needed = length encoded + item_id_size in
    attempt (find_page (num_pages h) 0 needed h) h λ found. elim found [
      | some (page_no, page) ↦ insert_into page_no page encoded h
      | none ↦ insert_fresh encoded h
    ]

-- The same search, written out again in the source, and then the page is written.
unfoldable pub insert_tuple : HeapFile → Tuple → Outcome HeapError Tid × HeapFile
insert_tuple h tuple =
    let (r, h') = find_and_prepare_insert h (encode tuple) in
    attempt r h'
      λ place. (ok (record { page_no = place.0; slot = place.2 }), write_page h' place.0 place.1)

unfoldable pub get_tuple : HeapFile → Tid → Outcome HeapError Tuple
get_tuple h tid = do
  page ← read_page h tid.page_no
  bytes ← map_err page_error (Page.get_tuple page tid.slot)
  map_err tuple_error (decode bytes)

unfoldable pub delete_tuple : HeapFile → Tid → Outcome HeapError (Unit {0}) × HeapFile
delete_tuple h tid = attempt (read_page h tid.page_no) h λ page.
    attempt (map_err page_error (Page.delete_tuple page tid.slot)) h
      λ page'. (ok tt, write_page h tid.page_no page')
