-- ===== src/Storage/Buffer/Tests.antt =====
-- Examples of buffer pools: the theorems about them at concrete inputs.
use icedb.Storage.Page
use icedb.Base.{
  nat_key, [], ◌∷◌, arith, zero, suc, some, ok, refl, ◌≡◌, ◌+◌, ℕ, replicate, get_elem?, length,
  min, ◌<◌, length-replicate, ◌^◌,
}
use icedb.Storage.Heap.{HeapFile}
use icedb.Storage.Buffer.{
  BufferPool, new_descriptor, new_pool, evict_frame, flush_all_dirty, pin_page, BufferDescriptor,
  max_buffer_frames,
}
use icedb.Storage.Buffer.View.{IsConsistent, view, on_disk, image}
use icedb.Storage.Buffer.Fresh.{fresh_pool-IsConsistent, fresh_pool, new_pool-IsConsistent}
use icedb.Storage.Page.{update_checksum, set_lsn}
use icedb.Storage.Buffer.Evict.{Evicted, evict_frame-Evicted}
use icedb.Storage.Buffer.Steps.{redescribed-IsConsistent}
use icedb.Storage.Buffer.Pin.{Pinned, pin_page-Pinned}
use icedb.Storage.Buffer.Clock.{evict_frame-finds}
use icedb.Storage.Buffer.Flush.{flush_all_dirty-on_disk}

-- A file with one page, a pool of two frames on it, and one of a frame that was used twice.
abbrev one_page : HeapFile
one_page = record { pages = update_checksum Page.new ∷ [] }

abbrev two_frames : BufferPool
two_frames = fresh_pool one_page 2

two_frames-IsConsistent : IsConsistent two_frames
two_frames-IsConsistent = fresh_pool-IsConsistent one_page 2 (omega arith)

abbrev used_twice : BufferPool
used_twice = record (fresh_pool one_page 1) {
  descriptors = record new_descriptor { usage_count = 2 } ∷ [];
}

used_twice-IsConsistent : IsConsistent used_twice
unfolding replicate
used_twice-IsConsistent =
    redescribed-IsConsistent (fresh_pool-IsConsistent one_page 1 (omega arith)) 0 new_descriptor
      (record new_descriptor { usage_count = 2 }) refl refl (λ e. e) 0

new_pool-IsConsistent_example :
    (b : BufferPool) × (new_pool one_page 200_000 ≡ ok b)
    × IsConsistent b
    × (length b.frames ≡ min 200_000 max_buffer_frames)
    × ((q : ℕ) → view b q ≡ image (get_elem? one_page.pages q))
new_pool-IsConsistent_example = new_pool-IsConsistent one_page 200_000 (omega arith)

evict_frame-Evicted_example : Evicted two_frames (evict_frame two_frames)
evict_frame-Evicted_example = evict_frame-Evicted two_frames-IsConsistent

descriptor_fresh : get_elem? two_frames.descriptors 1 ≡ some new_descriptor
unfolding replicate
descriptor_fresh = refl

evict_frame-finds_example : (i : ℕ) × ((evict_frame two_frames).0 ≡ ok i)
evict_frame-finds_example =
    evict_frame-finds two_frames-IsConsistent (omega (arith, length-replicate 2 Page.new)) 1
      new_descriptor descriptor_fresh refl (omega arith)

two_frames-few_pins :
    (j : ℕ) (d : BufferDescriptor)
    → get_elem? two_frames.descriptors j ≡ some d
    → d.pin_count + 1 < 2 ^ 32
unfolding replicate
two_frames-few_pins zero d at = ground arith
two_frames-few_pins (suc zero) d at = ground arith
two_frames-few_pins (suc (suc j)) d at = absurd (ground arith)

pin_page-Pinned_example : Pinned two_frames 0 (pin_page two_frames 0)
pin_page-Pinned_example =
    pin_page-Pinned two_frames-IsConsistent 0 (omega arith) (omega arith) two_frames-few_pins

flush_all_dirty-on_disk_example :
    (b' : BufferPool) × (flush_all_dirty two_frames ≡ (ok tt, b'))
    × IsConsistent b'
    × ((q : ℕ) → (view b' q ≡ view two_frames q) × (on_disk b' q ≡ view two_frames q))
flush_all_dirty-on_disk_example = flush_all_dirty-on_disk two_frames-IsConsistent
