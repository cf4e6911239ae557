-- ===== src/Storage/Buffer/Write.antt =====
-- `write_frame` and the `unpin_page` that marks the frame dirty: between the two calls a clean frame
-- may differ from the disk, so they are looked at together.
use icedb.Base.{
  nat_key, some, true, inl, inr, arith, ◌≡◌, ℕ, get_elem?, length-set, if◌then◌else◌, set,
  Bool-cases, ◌∙◌, ◌==◌, get_elem?-set, sym, Option-cases, lookup, ◌≢◌,
}
use native.Mathlib.Decide.{ℕ_discrete}
use icedb.Storage.Buffer.{holds, BufferPool, BufferDescriptor, unpin_page, write_frame, unpinned}
use icedb.Storage.Page.{update_checksum, Page}
use icedb.Storage.Buffer.View.{IsConsistent, view, get_elem?-bound}
use icedb.Storage.Buffer.Steps.{holds-eq}

-- A pin holder changes the page and unpins the frame as dirty.
abbrev pub changed : BufferPool → ℕ → (Page → Page) → BufferPool
changed b i f = (unpin_page (write_frame b i f).1 i true).1

module _ {b : BufferPool} (v : IsConsistent b) (i : ℕ) (d : BufferDescriptor) (page : Page)
    (at : get_elem? b.descriptors i ≡ some d) (there : get_elem? b.frames i ≡ some page)
    (f : Page → Page) where
  abbrev written : BufferPool
  written = record b {
    frames = set b.frames i (f page);
    descriptors = set b.descriptors i (unpinned true d);
  }

  written-eq : changed b i f ≡ written
  unfolding write_frame unpin_page
  written-eq = ground (arith, there, at)

  frames-written :
      (k : ℕ)
      → get_elem? written.frames k ≡ (if k == i then some (f page) else get_elem? b.frames k)
  frames-written k = get_elem?-set b.frames i k (f page) (get_elem?-bound b.frames i there)

  descriptors-written :
      (k : ℕ)
      → get_elem? written.descriptors k
        ≡ (if k == i then some (unpinned true d) else get_elem? b.descriptors k)
  descriptors-written k =
      get_elem?-set b.descriptors i k (unpinned true d) (get_elem?-bound b.descriptors i at)

  written-IsConsistent : IsConsistent written
  written-IsConsistent = record {
    as_many =
        length-set b.frames i (f page)
        ∙ v.as_many
        ∙ sym (length-set b.descriptors i (unpinned true d));
    some_frame = omega (arith, v.some_frame, length-set b.frames i (f page));
    listed = λ q k h.
        let (e, was, mine) = v.listed q k h in
        elim (ℕ_discrete k i) [
          | yes same ↦ (
            unpinned true d,
            ground (arith, same, descriptors-written k),
            ground (arith, same, was, at, mine),
          )
          | no ne ↦ (e, ground (arith, ne, was, descriptors-written k), mine)
        ];
    held = λ q k e now mine. elim (ℕ_discrete k i) [
      | yes same ↦ ground (arith, same, now, mine, descriptors-written k, v.held q i d at)
      | no ne ↦ v.held q k e (ground (arith, ne, now, descriptors-written k)) mine
    ];
    in_file = v.in_file;
    clean = λ q k e now mine kept. elim (ℕ_discrete k i) [
      | yes same ↦ absurd (ground (arith, same, now, kept, descriptors-written k))
      | no ne ↦ ground (
        arith,
        ne,
        frames-written k,
        v.clean q k e (ground (arith, ne, now, descriptors-written k)) mine kept,
      )
    ];
  }

  view-written :
      (q : ℕ)
      → view written q ≡ (if holds q d.page_no then some (update_checksum (f page)) else view b q)
  view-written q = elim (Bool-cases (holds q d.page_no)) [
    | inl here ↦ ground (arith, here, v.held q i d at (holds-eq q d.page_no here), frames-written i)
    | inr other ↦ elim (Option-cases (lookup q b.page_table)) [
      | inl absent ↦ ground (arith, other, absent)
      | inr (k, e) ↦
          let ne : k ≢ i = λ same. ground (arith, same, other, e, at, v.listed q k e) in
          ground (arith, other, e, ne, frames-written k)
    ]
  ]

-- On a consistent pool a pin holder changes the page in a frame and unpins the frame as dirty: the pool is
-- consistent again, callers see the changed page under the number that the frame holds, and every other
-- page as before.
pub view-changed :
    {b : BufferPool}
    → IsConsistent b
    → (i : ℕ) (d : BufferDescriptor) (page : Page) → get_elem? b.descriptors i ≡ some d
    → get_elem? b.frames i ≡ some page
    → (f : Page → Page)
    → IsConsistent (changed b i f)
      × ((q : ℕ)
          → view (changed b i f) q
            ≡ (if holds q d.page_no then some (update_checksum (f page)) else view b q))
view-changed {b} v i d page at there f =
    rw (written-eq v i d page at there f)
      (written-IsConsistent v i d page at there f, view-written v i d page at there f)
