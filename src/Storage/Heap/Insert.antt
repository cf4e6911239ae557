-- ===== src/Storage/Heap/Insert.antt =====
-- `HeapFile::insert_tuple` against `HeapFile::get_tuple` on a sound file.
use native.Mathlib.Decide.{ℕ_discrete}
use icedb.Base.{
  ℕ, ◌+◌, ◌-◌, ◌^◌, ◌≤◌, ◌<◌, ◌≡◌, ◌≢◌, refl, ◌∙◌, ◌⊎◌, inl, inr, List, arith, length, ◌==◌,
  if◌then◌else◌, Outcome, ok, ◌>>=◌, map_err,
}
use icedb.Storage.Page
use icedb.Storage.Page.{
  Page, page_size, page_header_size, item_id_size, num_slots, free_space, update_checksum,
}
use icedb.Storage.Page.Inv.{IsValid}
use icedb.Storage.Page.Fresh.{new-IsValid}
use icedb.Storage.Page.Checksum.{update_checksum-IsValid}
use icedb.Storage.Page.RoundTrip.{insert_tuple_total, insert_tuple-IsValid, get_tuple-insert_tuple}
use icedb.Storage.Tuple.{Tid, Tuple, encode, decode}
use icedb.Storage.Tuple.RoundTrip.{IsWellFormed, tuple_decode-encode}
use icedb.Storage.Heap.{
  HeapFile, HeapError, page_error, tuple_error, num_pages, read_page, write_page, allocate_page,
  insert_into, insert_fresh, find_and_prepare_insert, insert_tuple, get_tuple,
}
use icedb.Storage.Heap.Pages.{
  IsSound, stamp-IsStamped, num_pages-eq, write_page-IsSound, read-write_page, allocate_page-number,
  length-allocate_page, allocate_page-IsSound, read-allocate_page-old, read-allocate_page-new,
}
use icedb.Storage.Heap.Search.{HasRoom, find_page_total}

-- What `get_tuple` makes of one slot of a page that was read.
abbrev pub slot_tuple : Page → ℕ → Outcome HeapError Tuple
slot_tuple p s =
    map_err page_error (Page.get_tuple p s) >>= λ bytes. map_err tuple_error (decode bytes)

pub get_tuple-at :
    (h : HeapFile) (tid : Tid) (p : Page)
    → read_page h tid.page_no ≡ ok p
    → get_tuple h tid ≡ slot_tuple p tid.slot
unfolding get_tuple
get_tuple-at h tid p e = rw e

get_tuple-cong :
    (h h' : HeapFile) (tid : Tid)
    → read_page h' tid.page_no ≡ read_page h tid.page_no
    → get_tuple h' tid ≡ get_tuple h tid
unfolding get_tuple
get_tuple-cong h h' tid e = rw e

pub slot_tuple-cong :
    (p q : Page) (s : ℕ) → Page.get_tuple q s ≡ Page.get_tuple p s → slot_tuple q s ≡ slot_tuple p s
slot_tuple-cong p q s e = rw e

-- After a page was written, every slot of it reads from the new page, every other tuple as before.
pub get_tuple-write_page :
    {h : HeapFile} (i : ℕ) (q : Page) (tid : Tid)
    → IsSound h
    → i < length h.pages
    → IsValid q
    → get_tuple (write_page h i q) tid
      ≡ (if tid.page_no == i then slot_tuple q tid.slot else get_tuple h tid)
get_tuple-write_page {h} i q tid v below valid = elim (ℕ_discrete tid.page_no i) [
  | yes at ↦ here at
  | no ne ↦ there ne
]
  where
    back :
        read_page (write_page h i q) tid.page_no
        ≡ (if tid.page_no == i then ok (update_checksum q) else read_page h tid.page_no)
    back = read-write_page v i below q valid tid.page_no

    here :
        tid.page_no ≡ i
        → get_tuple (write_page h i q) tid
          ≡ (if tid.page_no == i then slot_tuple q tid.slot else get_tuple h tid)
    here at =
        get_tuple-at (write_page h i q) tid (update_checksum q) (ground (arith, back))
        ∙ slot_tuple-cong q (update_checksum q) tid.slot
            ((update_checksum-IsValid q valid).3 tid.slot)
        ∙ ground arith

    there :
        tid.page_no ≢ i
        → get_tuple (write_page h i q) tid
          ≡ (if tid.page_no == i then slot_tuple q tid.slot else get_tuple h tid)
    there ne = get_tuple-cong h (write_page h i q) tid (ground (arith, back)) ∙ ground arith

-- A prepared insertion: the page of a sound file, the changed page and the new slot.
record Prepared (h : HeapFile) (d : List ℕ) (i : ℕ) (q : Page) (s : ℕ) : Type 0 where
  sound : IsSound h
  below : i < length h.pages
  page : Page
  found : read_page h i ≡ ok page
  valid : IsValid page
  done : Page.insert_tuple page d ≡ ok (q, s)

-- What `find_and_prepare_insert` leaves: a sound file with the old tuples, and the prepared page.
record Placed (h h' : HeapFile) (d : List ℕ) (r : ℕ × Page × ℕ) : Type 0 where
  at : Prepared h' d r.0 r.1 r.2
  longer : length h.pages ≤ length h'.pages
  kept : (j : ℕ) → j < length h.pages → read_page h' j ≡ read_page h j

-- The new tuple reads back, and every other tuple of the old file as before.
pub record IsInserted (h h' : HeapFile) (t : Tuple) (tid : Tid) : Type 0 where
  pub sound : IsSound h'
  pub stored : get_tuple h' tid ≡ ok t
  pub kept :
      (other : Tid)
      → other.page_no < length h.pages
      → (other.page_no ≢ tid.page_no) ⊎ (other.slot ≢ tid.slot)
      → get_tuple h' other ≡ get_tuple h other

module _ {h : HeapFile} {d : List ℕ} {i : ℕ} {q : Page} {s : ℕ} (at : Prepared h d i q s) where
  written-IsSound : IsSound (write_page h i q)
  written-IsSound =
      write_page-IsSound at.sound i at.below q (insert_tuple-IsValid d at.valid at.done).0

  get_tuple-written :
      (tid : Tid)
      → get_tuple (write_page h i q) tid ≡ (
          if tid.page_no == i
          then (if tid.slot == s then map_err tuple_error (decode d) else get_tuple h tid)
          else get_tuple h tid)
  get_tuple-written tid = ground (
    arith,
    get_tuple-write_page i q tid at.sound at.below (insert_tuple-IsValid d at.valid at.done).0,
    get_tuple-insert_tuple d tid.slot at.valid at.done,
    get_tuple-at h tid at.page,
    at.found,
  )

prepare_page :
    {h : HeapFile} (v : IsSound h) (d : List ℕ) (i : ℕ) (p : Page)
    → HasRoom h (length d + item_id_size) i p
    → (r : ℕ × Page × ℕ) × (insert_into i p d h ≡ (ok r, h)) × Prepared h d r.0 r.1 r.2
prepare_page {h} v d i p room = elim (insert_tuple_total d room.stamped.valid) [
  | inl (fits, (q, e)) ↦ (
    (i, q, num_slots p),
    rw e,
    record {
      sound = v;
      below = room.below;
      page = p;
      found = room.found;
      valid = room.stamped.valid;
      done = e;
    },
  )
  | inr (full, e) ↦ absurd (omega (arith, room.fits))
]

-- The fresh page is as good as a page that the search finds.
fresh-HasRoom :
    {h : HeapFile}
    → IsSound h
    → length h.pages + 1 < 2 ^ 32
    → (d : List ℕ) → length d + item_id_size ≤ page_size - page_header_size
    → HasRoom
        (allocate_page h).1
        (length d + item_id_size)
        (length h.pages)
        (update_checksum Page.new)
fresh-HasRoom {h} v room d small = record {
  below = omega (arith, length-allocate_page v room);
  found = read-allocate_page-new v room;
  stamped = stamp-IsStamped Page.new new-IsValid.0;
  fits = omega (arith, (update_checksum-IsValid Page.new new-IsValid.0).2, new-IsValid.2);
}

find_and_prepare_insert_total :
    {h : HeapFile} (d : List ℕ)
    → IsSound h
    → length h.pages + 1 < 2 ^ 32
    → length d + item_id_size ≤ page_size - page_header_size
    → (r : ℕ × Page × ℕ) × (h' : HeapFile) × (find_and_prepare_insert h d ≡ (ok r, h'))
      × Placed h h' d r
unfolding find_and_prepare_insert insert_fresh
find_and_prepare_insert_total {h} d v room small =
    elim (find_page_total v (length d + item_id_size) (num_pages h) 0
      (omega (arith, num_pages-eq v))) [
        | inl (r, full) ↦
            let (place, e, at) =
              prepare_page (allocate_page-IsSound v room) d (length h.pages)
                (update_checksum Page.new) (fresh-HasRoom v room d small) in
            (
              place,
              (allocate_page h).1,
              rw (r, allocate_page-number v, read-allocate_page-new v room) e,
              record {
                at = at;
                longer = omega (arith, length-allocate_page v room);
                kept = read-allocate_page-old v room;
              },
            )
        | inr (i, p, r, has, full) ↦
            let (place, e, at) = prepare_page v d i p has in
            (place, h, rw r e, record { at = at; longer = omega arith; kept = λ j below. refl })
      ]

-- On a sound heap file below the largest page number, a tuple with a well-formed header that fits
-- an empty page is inserted without error; the file stays sound, the returned TID reads back the
-- tuple, and every other TID on the pages that the file had reads what it read before.
pub insert_tuple-IsInserted :
    {h : HeapFile} (t : Tuple)
    → IsSound h
    → length h.pages + 1 < 2 ^ 32
    → IsWellFormed t.header
    → length (encode t) + item_id_size ≤ page_size - page_header_size
    → (tid : Tid) × (h' : HeapFile) × (insert_tuple h t ≡ (ok tid, h')) × IsInserted h h' t tid
unfolding insert_tuple
insert_tuple-IsInserted {h} t v room w small =
    let (r, h', e, placed) = find_and_prepare_insert_total (encode t) v room small in
    let tid : Tid = record { page_no = r.0; slot = r.2 } in
    (
      tid,
      write_page h' r.0 r.1,
      rw e,
      record {
        sound = written-IsSound placed.at;
        stored = ground (arith, get_tuple-written placed.at tid, tuple_decode-encode t w);
        kept = λ other below ne. ground (
          arith,
          get_tuple-written placed.at other,
          get_tuple-cong h h' other (placed.kept other.page_no below),
          ne,
        );
      },
    )
