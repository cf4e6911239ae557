-- ===== src/Storage/Buffer.antt =====
-- crates/storage/src/buffer.rs and the buffer errors of error.rs: a pool of frames with clock-sweep
-- replacement in front of a heap file. A call runs as one step: what the locks of the source leave
-- open to other threads between two of its statements is not modelled. Frames and descriptors are
-- as many, so a frame whose descriptor was read is there and the default of `frame_at` is not used.
pub mod View
pub mod Steps
pub mod Evict
pub mod Pin
pub mod Turn
pub mod Clock
pub mod Flush
pub mod Fresh
pub mod Write
pub mod Tests
use icedb.Storage.Page
use icedb.Storage.Heap
use icedb.Base.{
  List, lookup, insert, nat_key, Outcome, ◌+◌, ◌%◌, Bool, none, Option, ℕ, Map, if◌then◌else◌, err,
  get_elem?, ◌^◌, false, get_or, min, set, ok, ◌-◌, length, some, ◌*◌, ltb, map_err, erase, true,
  ◌==◌, zero, suc, [], ◌∷◌, inl, inr, refl, arith, ◌>>=◌, ◌>>◌, ◌≡◌, leb, require, replicate,
}
use icedb.Storage.Heap.{HeapError, HeapFile, attempt}
use icedb.Storage.Page.{Page}

-- 128 k frames
abbrev pub max_buffer_frames : ℕ
max_buffer_frames = 131_072

pub data BufferError : Type 0 where
  heap_failed : HeapError → BufferError
  all_frames_pinned : BufferError
  frame_out_of_range : ℕ → BufferError

pub record BufferDescriptor : Type 0 where
  pub page_no : Option ℕ
  pub dirty : Bool
  pub pin_count : ℕ
  pub usage_count : ℕ

abbrev pub new_descriptor : BufferDescriptor
new_descriptor = record { page_no = none; dirty = false; pin_count = 0; usage_count = 0 }

pub record BufferPool : Type 0 where
  pub frames : List Page
  pub descriptors : List BufferDescriptor
  pub clock_hand : ℕ
  pub heap : HeapFile
  pub page_table : Map ℕ ℕ

-- `BufferPool::new`
unfoldable pub new_pool : HeapFile → ℕ → Outcome BufferError BufferPool
new_pool heap asked = do
  let num_frames = min asked max_buffer_frames
  require (ltb 0 num_frames)
  ok (record {
    frames = replicate num_frames Page.new;
    descriptors = replicate num_frames new_descriptor;
    clock_hand = 0;
    heap = heap;
    page_table = [];
  })

abbrev pub frame_at : BufferPool → ℕ → Page
frame_at b i = get_or b.frames i Page.new

abbrev pub set_descriptor : BufferPool → ℕ → BufferDescriptor → BufferPool
set_descriptor b i d = record b { descriptors = set b.descriptors i d }

-- `heap.write_page(pno, &frame)` for a frame that holds a page.
unfoldable pub write_back : BufferPool → ℕ → Option ℕ → BufferPool
write_back b i none = b
write_back b i (some pno) = record b { heap = Heap.write_page b.heap pno (frame_at b i) }

abbrev pub forget : Option ℕ → Map ℕ ℕ → Map ℕ ℕ
forget none table = table
forget (some pno) table = erase pno table

-- The victim's page is written if it is dirty, and leaves the page table and the frame.
unfoldable pub take_frame : BufferPool → ℕ → BufferDescriptor → BufferPool
take_frame b i d =
    let b1 = if d.dirty then write_back b i d.page_no else b in
    record b1 {
      page_table = forget d.page_no b1.page_table;
      descriptors = set b1.descriptors i (record d { page_no = none; dirty = false });
    }

-- What one round of the sweep does: go on, or take the frame.
pub data Tick : Type 0 where
  sweep_on : BufferPool → Tick
  victim : ℕ → BufferPool → Tick
  index_panic : Tick

abbrev pub tick_at : BufferPool → ℕ → Option BufferDescriptor → Tick
tick_at b hand none = index_panic
tick_at b hand (some d) =
    if ltb 0 d.pin_count
    then sweep_on b
    else if ltb 0 d.usage_count
    then sweep_on (set_descriptor b hand (record d { usage_count = d.usage_count - 1 }))
    else victim hand (take_frame b hand d)

-- `fetch_add` returns the old position and wraps.
unfoldable pub tick : BufferPool → Tick
tick b =
    let hand = b.clock_hand % length b.frames in
    tick_at (record b { clock_hand = (b.clock_hand + 1) % 2 ^ 64 }) hand
      (get_elem? b.descriptors hand)

-- The loop `for _ in 0..n * 2`.
unfoldable pub sweep : ℕ → BufferPool → Outcome BufferError ℕ × BufferPool
sweep zero b = (err all_frames_pinned, b)
sweep (suc rounds) b = elim (tick b) [
  | sweep_on b' ↦ sweep rounds b'
  | victim i b' ↦ (ok i, b')
  | index_panic ↦ (Outcome.panic, b)
]

unfoldable pub evict_frame : BufferPool → Outcome BufferError ℕ × BufferPool
evict_frame b = sweep (length b.frames * 2) b

-- `while heap.num_pages() <= page_no { heap.allocate_page()?; }`, in the rounds that it needs.
unfoldable pub grow : ℕ → ℕ → HeapFile → HeapFile
grow zero page_no h = h
grow (suc rounds) page_no h =
    let rest = grow rounds page_no (Heap.allocate_page h).1 in
    if leb (Heap.num_pages h) page_no then rest else h

abbrev pub grown : ℕ → HeapFile → HeapFile
grown page_no h = grow (page_no + 1 - Heap.num_pages h) page_no h

-- A frame into which a page was just read.
abbrev pub loaded : ℕ → BufferDescriptor
loaded page_no = record { page_no = some page_no; dirty = false; pin_count = 1; usage_count = 1 }

unfoldable pub install : BufferPool → ℕ → ℕ → Page → BufferPool
install b i page_no page = record b {
  frames = set b.frames i page;
  descriptors = set b.descriptors i (loaded page_no);
  page_table = insert page_no i b.page_table;
}

-- The slow path of `pin_page`.
unfoldable pub load_page : BufferPool → ℕ → Outcome BufferError ℕ × BufferPool
load_page b page_no =
    let (r, b1) = evict_frame b in
    attempt r b1 λ i.
      let b2 : BufferPool = record b1 { heap = grown page_no b1.heap } in
      attempt (map_err heap_failed (Heap.read_page b2.heap page_no)) b2
        λ page. (ok i, install b2 i page_no page)

abbrev pub holds : ℕ → Option ℕ → Bool
holds page_no none = false
holds page_no (some held) = held == page_no

-- `usage_count` is a `u8` and stays at its largest value.
abbrev pub pinned_again : BufferDescriptor → BufferDescriptor
pinned_again d = record d {
  pin_count = (d.pin_count + 1) % 2 ^ 32;
  usage_count = min (d.usage_count + 1) 255;
}

abbrev pub pin_at :
    BufferPool → ℕ → ℕ → Option BufferDescriptor → Outcome BufferError ℕ × BufferPool
pin_at b page_no i none = (Outcome.panic, b)
pin_at b page_no i (some d) =
    if holds page_no d.page_no
    then (ok i, set_descriptor b i (pinned_again d))
    else load_page b page_no

unfoldable pub pin_page : BufferPool → ℕ → Outcome BufferError ℕ × BufferPool
pin_page b page_no = elim (lookup page_no b.page_table) [
  | none ↦ load_page b page_no
  | some i ↦ pin_at b page_no i (get_elem? b.descriptors i)
]

abbrev pub unpinned : Bool → BufferDescriptor → BufferDescriptor
unpinned dirty d = record d {
  pin_count = if ltb 0 d.pin_count then d.pin_count - 1 else d.pin_count;
  dirty = if dirty then true else d.dirty;
}

unfoldable pub unpin_page : BufferPool → ℕ → Bool → Outcome BufferError (Unit {0}) × BufferPool
unpin_page b i dirty = elim (get_elem? b.descriptors i) [
  | none ↦ (Outcome.panic, b)
  | some d ↦ (ok tt, set_descriptor b i (unpinned dirty d))
]

abbrev pub flush_at : BufferPool → ℕ → BufferDescriptor → BufferPool
flush_at b i d =
    if d.dirty then set_descriptor (write_back b i d.page_no) i (record d { dirty = false }) else b

unfoldable pub flush_frame : BufferPool → ℕ → Outcome BufferError (Unit {0}) × BufferPool
flush_frame b i = elim (get_elem? b.descriptors i) [
  | none ↦ (Outcome.panic, b)
  | some d ↦ (ok tt, flush_at b i d)
]

-- The loop `for i in 0..n`, from `i` on.
unfoldable pub flush_from : ℕ → ℕ → BufferPool → Outcome BufferError (Unit {0}) × BufferPool
flush_from zero i b = (ok tt, b)
flush_from (suc rounds) i b =
    let (r, b') = flush_frame b i in attempt r b' λ _. flush_from rounds (i + 1) b'

unfoldable pub flush_all_dirty : BufferPool → Outcome BufferError (Unit {0}) × BufferPool
flush_all_dirty b = flush_from (length b.frames) 0 b

-- `write_frame` with a closure that changes the page.
unfoldable pub write_frame :
    BufferPool → ℕ → (Page → Page) → Outcome BufferError (Unit {0}) × BufferPool
write_frame b i f = elim (get_elem? b.frames i) [
  | none ↦ (Outcome.panic, b)
  | some page ↦ (ok tt, record b { frames = set b.frames i (f page) })
]
