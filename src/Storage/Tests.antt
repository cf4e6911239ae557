-- ===== src/Storage/Tests.antt =====
-- Examples of the pages, tuples and heap files: the theorems about them at concrete inputs.
use icedb.Base.{
  ◌-◌, ◌+◌, ◌≤◌, ◌⊎◌, to_le, replicate, length-replicate, ℕ, ◌≡◌, subst, false, List, [], ◌∷◌,
  arith, length, ◌==◌, if◌then◌else◌, ok, err, refl,
}
use icedb.Storage.Page.{
  Page, PageError, slot_dead, insufficient_space, page_size, page_header_size, item_id_size,
  item_at, is_dead, num_slots, free_space, verify_checksum, update_checksum,
}
use icedb.Storage.Page
use icedb.Storage.Page.Inv.{IsValid}
use icedb.Storage.Page.Fresh.{new-IsValid}
use icedb.Storage.Page.Insert.{inserted, insert_tuple-eq, num_slots-inserted, item_at-inserted_new}
use icedb.Storage.Page.RoundTrip.{insert_tuple-IsValid, get_tuple-insert_tuple}
use icedb.Storage.Page.Delete.{deleted, delete_tuple-eq}
use icedb.Storage.Tuple.{pad_to, encode_into, Tid, Tuple, encode, new_header, new_tuple}
use icedb.Storage.Tuple.RoundTrip.{IsWellFormed, length-encode}
use icedb.Storage.Heap
use icedb.Storage.Heap.{HeapFile, page_error, allocate_page, find_page}
use icedb.Storage.Heap.Pages.{IsSound, stamp-IsStamped}
use icedb.Storage.Heap.Insert.{IsInserted, insert_tuple-IsInserted}
use icedb.Storage.Heap.Delete.{IsDeleted, delete_tuple-IsDeleted}

abbrev row : List ℕ
row = 7 ∷ 8 ∷ 9 ∷ []

-- A fresh page, and one with a row in its slot 0.
fresh-IsValid : IsValid Page.new
fresh-IsValid = new-IsValid.0

row-fits : item_id_size + length row ≤ free_space Page.new
row-fits = omega (arith, new-IsValid.2)

abbrev page_with_row : Page
page_with_row = inserted Page.new row

abbrev slot_of_row : ℕ
slot_of_row = num_slots Page.new

row_added : Page.insert_tuple Page.new row ≡ ok (page_with_row, slot_of_row)
row_added = insert_tuple-eq fresh-IsValid row row-fits

page_with_row-IsValid : IsValid page_with_row
page_with_row-IsValid = (insert_tuple-IsValid row fresh-IsValid row_added).0

get_tuple-insert_tuple_example :
    Page.get_tuple page_with_row 0
    ≡ (if 0 == slot_of_row then ok row else Page.get_tuple Page.new 0)
get_tuple-insert_tuple_example = get_tuple-insert_tuple row 0 fresh-IsValid row_added

row-live : is_dead (item_at page_with_row.bytes 0) ≡ false
unfolding is_dead
row-live =
    subst (λ (s : ℕ). is_dead (item_at page_with_row.bytes s) ≡ false) new-IsValid.1
      (ground (arith, item_at-inserted_new fresh-IsValid row row-fits))

row_removed : Page.delete_tuple page_with_row 0 ≡ ok (deleted page_with_row 0)
row_removed =
    delete_tuple-eq page_with_row-IsValid 0
      (omega (arith, num_slots-inserted fresh-IsValid row row-fits)) row-live

-- A tuple with this row, as transaction 5 inserts it.
abbrev tuple : Tuple
tuple = record (new_tuple row) { header = record new_header { t_xmin = 5 } }

tuple-IsWellFormed : IsWellFormed tuple.header
unfolding new_header
tuple-IsWellFormed = record {
  xmin = omega arith;
  xmax = omega arith;
  cid = omega arith;
  ctid_page = omega arith;
  ctid_slot = omega arith;
  infomask = omega arith;
  hoff = omega arith;
  behind = omega arith;
}

-- A heap file without pages, and one where the tuple is the first.
abbrev empty_heap : HeapFile
empty_heap = record { pages = [] }

empty_heap-IsSound : IsSound empty_heap
empty_heap-IsSound = record { few = omega arith; stamped = tt }

tuple-length : length (encode tuple) ≡ 27
unfolding encode pad_to encode_into to_le replicate new_header new_tuple
tuple-length = refl

tuple_small : length (encode tuple) + item_id_size ≤ page_size - page_header_size
tuple_small = omega (arith, tuple-length)

insert_tuple-IsInserted_example :
    (tid : Tid) × (h' : HeapFile) × (Heap.insert_tuple empty_heap tuple ≡ (ok tid, h'))
    × IsInserted empty_heap h' tuple tid
insert_tuple-IsInserted_example =
    insert_tuple-IsInserted tuple empty_heap-IsSound (omega arith) tuple-IsWellFormed tuple_small

-- A heap file whose only page holds the row.
abbrev heap_with_row : HeapFile
heap_with_row = record { pages = update_checksum page_with_row ∷ [] }

heap_with_row-IsSound : IsSound heap_with_row
heap_with_row-IsSound = record {
  few = omega arith;
  stamped = (stamp-IsStamped page_with_row page_with_row-IsValid, tt);
}

abbrev first_tid : Tid
first_tid = record { page_no = 0; slot = 0 }

delete_tuple-IsDeleted_example :
    ((h' : HeapFile) × (Heap.delete_tuple heap_with_row first_tid ≡ (ok tt, h'))
      × IsDeleted heap_with_row h' first_tid)
    ⊎ ((e : PageError) × (Heap.get_tuple heap_with_row first_tid ≡ err (page_error e))
        × (Heap.delete_tuple heap_with_row first_tid ≡ (err (page_error e), heap_with_row)))
delete_tuple-IsDeleted_example =
    delete_tuple-IsDeleted first_tid heap_with_row-IsSound (omega arith)

-- A tuple of more than a page.
abbrev big_tuple : Tuple
big_tuple = new_tuple (replicate 9000 0)

big_tuple-IsWellFormed : IsWellFormed big_tuple.header
unfolding new_tuple new_header
big_tuple-IsWellFormed = record {
  xmin = omega arith;
  xmax = omega arith;
  cid = omega arith;
  ctid_page = omega arith;
  ctid_slot = omega arith;
  infomask = omega arith;
  hoff = omega arith;
  behind = omega arith;
}

big_tuple-length : 9000 ≤ length (encode big_tuple)
unfolding new_tuple new_header
big_tuple-length =
    omega (arith, length-encode big_tuple big_tuple-IsWellFormed, length-replicate {A = ℕ} 9000 0)
