-- ===== src/Storage/Heap/Delete.antt =====
-- `HeapFile::delete_tuple` on a sound file, and `insert_tuple` on a tuple that fits no page.
use icedb.Base.{ℕ, ◌+◌, ◌-◌, ◌^◌, ◌≤◌, ◌<◌, ◌≡◌, ◌≢◌, ◌∙◌, ◌⊎◌, inl, inr, arith, length, ok, err}
use icedb.Storage.Page
use icedb.Storage.Page.{
  Page, PageError, slot_dead, insufficient_space, page_size, page_header_size, item_id_size,
  free_space, update_checksum,
}
use icedb.Storage.Page.Inv.{IsValid}
use icedb.Storage.Page.Fresh.{new-IsValid}
use icedb.Storage.Page.Checksum.{update_checksum-IsValid}
use icedb.Storage.Page.Delete.{get_tuple-delete_tuple, delete_tuple_total}
use icedb.Storage.Page.RoundTrip.{insert_tuple_total}
use icedb.Storage.Tuple.{Tid, Tuple, encode}
use icedb.Storage.Heap.{
  HeapFile, page_error, num_pages, read_page, write_page, allocate_page, insert_fresh,
  find_and_prepare_insert, insert_tuple, get_tuple, delete_tuple,
}
use icedb.Storage.Heap.Pages.{
  IsSound, num_pages-eq, read_page_total, write_page-IsSound, allocate_page-number,
  length-allocate_page, read-allocate_page-new,
}
use icedb.Storage.Heap.Search.{find_page_total}
use icedb.Storage.Heap.Insert.{get_tuple-at, get_tuple-write_page}

-- The deleted tuple reads as dead, every other tuple as before.
pub record IsDeleted (h h' : HeapFile) (tid : Tid) : Type 0 where
  pub sound : IsSound h'
  pub dead : get_tuple h' tid ≡ err (page_error (slot_dead tid.slot))
  pub kept :
      (other : Tid)
      → (other.page_no ≢ tid.page_no) ⊎ (other.slot ≢ tid.slot)
      → get_tuple h' other ≡ get_tuple h other

slot_dead-IsDeleted :
    {h : HeapFile} (tid : Tid) {p q : Page}
    → IsSound h
    → tid.page_no < length h.pages
    → IsValid p
    → read_page h tid.page_no ≡ ok p
    → Page.delete_tuple p tid.slot ≡ ok q
    → IsDeleted h (write_page h tid.page_no q) tid
slot_dead-IsDeleted {h} tid {p} {q} v below valid found done =
    let (valid', slots, space, reads) = get_tuple-delete_tuple tid.slot valid done in
    record {
      sound = write_page-IsSound v tid.page_no below q valid';
      dead = ground (arith, get_tuple-write_page tid.page_no q tid v below valid', reads tid.slot);
      kept = λ other ne. ground (
        arith,
        ne,
        get_tuple-write_page tid.page_no q other v below valid',
        reads other.slot,
        get_tuple-at h other p,
        found,
      );
    }

-- On a page of a sound heap file `delete_tuple` either kills the slot, so that the file stays sound,
-- the slot reads as dead and every other tuple as before, or it fails with the error that
-- `get_tuple` gives for that slot and leaves the file as it was.
pub delete_tuple-IsDeleted :
    {h : HeapFile} (tid : Tid)
    → IsSound h
    → tid.page_no < length h.pages
    → ((h' : HeapFile) × (delete_tuple h tid ≡ (ok tt, h')) × IsDeleted h h' tid)
      ⊎ ((e : PageError) × (get_tuple h tid ≡ err (page_error e))
          × (delete_tuple h tid ≡ (err (page_error e), h)))
unfolding delete_tuple
delete_tuple-IsDeleted {h} tid v below =
    let (p, found, stamped) = read_page_total v tid.page_no below in
    elim (delete_tuple_total tid.slot stamped.valid) [
      | inl (t, q, got, done) ↦ inl (
        write_page h tid.page_no q,
        rw (found, done),
        slot_dead-IsDeleted tid v below stamped.valid found done,
      )
      | inr (e, got, done) ↦ inr (e, get_tuple-at h tid p found ∙ rw got, rw (found, done))
    ]

-- A valid page never has more free space than a fresh one.
free_space-le : {p : Page} → IsValid p → free_space p ≤ page_size - page_header_size
unfolding free_space
free_space-le v = omega (arith, v.lower, v.upper, v.ordered)

-- A tuple that is too large for an empty page is refused with `InsufficientSpace`, and the file
-- keeps the page that was allocated for it: every such attempt makes the file one page longer.
pub insert_tuple_oversized :
    {h : HeapFile} (t : Tuple)
    → IsSound h
    → length h.pages + 1 < 2 ^ 32
    → page_size - page_header_size < length (encode t) + item_id_size
    → (insert_tuple h t ≡ (
      err (
          page_error
            (insufficient_space (item_id_size + length (encode t)) (page_size - page_header_size))),
      (allocate_page h).1,
    ))
      × (length (allocate_page h).1.pages ≡ length h.pages + 1)
unfolding insert_tuple find_and_prepare_insert insert_fresh
insert_tuple_oversized {h} t v room big =
    elim (find_page_total v (length (encode t) + item_id_size) (num_pages h) 0
      (omega (arith, num_pages-eq v))) [
        | inl (r, full) ↦ elim (insert_tuple_total (encode t) fresh.0) [
          | inl (fits, q) ↦ absurd (omega (arith, fresh.2, new-IsValid.2))
          | inr (full', e) ↦ (
            rw (
              r,
              allocate_page-number v,
              read-allocate_page-new v room,
              e,
              fresh.2,
              new-IsValid.2,
            ),
            length-allocate_page v room,
          )
        ]
        | inr (i, p, r, has, full) ↦
            absurd (omega (arith, has.fits, free_space-le has.stamped.valid))
      ]
  where
    fresh :
        IsValid (update_checksum Page.new)
        × (Page.num_slots (update_checksum Page.new) ≡ Page.num_slots Page.new)
        × (free_space (update_checksum Page.new) ≡ free_space Page.new)
        × ((slot : ℕ)
            → Page.get_tuple (update_checksum Page.new) slot ≡ Page.get_tuple Page.new slot)
    fresh = update_checksum-IsValid Page.new new-IsValid.0
