-- ===== src/Storage/Buffer/Fresh.antt =====
-- `BufferPool::new`.
use icedb.Storage.Page
use icedb.Base.{
  nat_key, zero, suc, [], some, true, ok, refl, arith, ◌≡◌, replicate, ℕ, get_elem?, ◌<◌, length,
  length-replicate, ◌∙◌, min, sym, ltb, lookup,
}
use icedb.Storage.Buffer.{new_pool, BufferPool, new_descriptor, max_buffer_frames}
use icedb.Storage.Heap.{HeapFile}
use icedb.Storage.Buffer.View.{IsConsistent, view, image}

get_elem?-replicate {ℓ} :
    {A : Type ℓ} (n i : ℕ) (a : A) {x : A} → get_elem? (replicate n a) i ≡ some x → a ≡ x
unfolding replicate
get_elem?-replicate zero i a e = absurd (ground arith)
get_elem?-replicate (suc n) zero a e = ground arith
get_elem?-replicate (suc n) (suc i) a e = get_elem?-replicate n i a e

-- What `new_pool` builds for `n` frames.
abbrev pub fresh_pool : HeapFile → ℕ → BufferPool
fresh_pool h n = record {
  frames = replicate n Page.new;
  descriptors = replicate n new_descriptor;
  clock_hand = 0;
  heap = h;
  page_table = [];
}

pub fresh_pool-IsConsistent : (h : HeapFile) (n : ℕ) → 0 < n → IsConsistent (fresh_pool h n)
unfolding lookup
fresh_pool-IsConsistent h n some_frame = record {
  as_many = length-replicate n Page.new ∙ sym (length-replicate n new_descriptor);
  some_frame = omega (arith, length-replicate n Page.new, some_frame);
  listed = λ q i e. absurd (ground arith);
  held = λ q i d at e. absurd (ground (arith, e, get_elem?-replicate n i new_descriptor at));
  in_file = λ q i e. absurd (ground arith);
  clean = λ q i d at e. absurd (ground (arith, e, get_elem?-replicate n i new_descriptor at));
}

-- A pool of at least one frame starts consistent, with as many frames as asked for up to the limit, and
-- every page reads as it stands in the file.
pub new_pool-IsConsistent :
    (h : HeapFile) (asked : ℕ)
    → 0 < asked
    → (b : BufferPool) × (new_pool h asked ≡ ok b)
      × IsConsistent b
      × (length b.frames ≡ min asked max_buffer_frames)
      × ((q : ℕ) → view b q ≡ image (get_elem? h.pages q))
unfolding new_pool lookup
new_pool-IsConsistent h asked some_frame =
    let n = min asked max_buffer_frames in
    let positive : ltb 0 n ≡ true = ground (arith, some_frame) in
    (
      fresh_pool h n,
      rw positive refl,
      fresh_pool-IsConsistent h n (omega (arith, some_frame)),
      length-replicate n Page.new,
      λ q. refl,
    )
