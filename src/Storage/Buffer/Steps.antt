-- ===== src/Storage/Buffer/Steps.antt =====
-- One descriptor of a consistent pool changes: by a use of its frame, or because it is a victim.
use icedb.Base.{
  nat_key, some, false, arith, ◌≡◌, ℕ, get_elem?, set, lookup, ◌∙◌, if◌then◌else◌, sym, ◌==◌,
  get_elem?-set, length-set, none, true, inl, inr, refl, ap, ◌<◌, Bool-cases, length, Option,
  lookup-erase, Option-cases, List, ◌≢◌,
}
use icedb.Storage.Buffer.{BufferPool, BufferDescriptor, take_frame, write_back, holds, frame_at}
use icedb.Storage.Buffer.View.{
  IsConsistent, get_elem?-bound, view, on_disk, in_frame, on_disk-write_back, image,
}
use native.Mathlib.Decide.{ℕ_discrete}
use icedb.Storage.Heap.{write_page}
use icedb.Storage.Page.{Page, update_checksum}
use icedb.Storage.Heap.Pages.{put_page-eq}

-- Another record of the same page at the frame `i`, which is dirty if the old one is.
module _ {b : BufferPool} (v : IsConsistent b) (i : ℕ) (d d' : BufferDescriptor)
    (at : get_elem? b.descriptors i ≡ some d) (same_page : d'.page_no ≡ d.page_no)
    (still_dirty : d'.dirty ≡ false → d.dirty ≡ false) (hand : ℕ) where
  abbrev redescribed : BufferPool
  redescribed = record b { descriptors = set b.descriptors i d'; clock_hand = hand }

  descriptors-redescribed :
      (k : ℕ)
      → get_elem? redescribed.descriptors k
        ≡ (if k == i then some d' else get_elem? b.descriptors k)
  descriptors-redescribed k =
      get_elem?-set b.descriptors i k d' (get_elem?-bound b.descriptors i at)

  redescribed-listed :
      (q k : ℕ)
      → lookup q b.page_table ≡ some k
      → (e : BufferDescriptor) × (get_elem? redescribed.descriptors k ≡ some e)
        × (e.page_no ≡ some q)
  redescribed-listed q k h = elim (ℕ_discrete k i) [
    | yes same ↦ (d', ground (arith, descriptors-redescribed k), ground (arith, v.listed q k h))
    | no ne ↦
        let (e, there, page) = v.listed q k h in
        (e, ground (arith, descriptors-redescribed k), page)
  ]

  pub redescribed-IsConsistent : IsConsistent redescribed
  redescribed-IsConsistent = record {
    as_many = v.as_many ∙ sym (length-set b.descriptors i d');
    some_frame = v.some_frame;
    listed = redescribed-listed;
    held = λ q k e there page. elim (ℕ_discrete k i) [
      | yes same ↦ ground (arith, descriptors-redescribed k, v.held q k d)
      | no ne ↦ v.held q k e (ground (arith, descriptors-redescribed k)) page
    ];
    in_file = v.in_file;
    clean = λ q k e there page kept. elim (ℕ_discrete k i) [
      | yes same ↦ ground (arith, descriptors-redescribed k, v.clean q k d)
      | no ne ↦ v.clean q k e (ground (arith, descriptors-redescribed k)) page kept
    ];
  }

pub holds-eq : (q : ℕ) (o : Option ℕ) → holds q o ≡ true → o ≡ some q
holds-eq q none h = cc
holds-eq q (some p) h = ground arith

module _ {b : BufferPool} (v : IsConsistent b) (i : ℕ) (d : BufferDescriptor)
    (at : get_elem? b.descriptors i ≡ some d) where
  abbrev taken : BufferPool
  taken = take_frame b i d

  pub frames-taken : taken.frames ≡ b.frames
  unfolding take_frame write_back
  frames-taken = ground arith

  pub descriptors-taken :
      (k : ℕ)
      → get_elem? taken.descriptors k ≡ (
          if k == i
          then some (record d { page_no = none; dirty = false })
          else get_elem? b.descriptors k)
  unfolding take_frame write_back
  descriptors-taken k = ground (
    arith,
    get_elem?-set b.descriptors i k (record d { page_no = none; dirty = false })
        (get_elem?-bound b.descriptors i at),
  )

  length-taken : length taken.descriptors ≡ length b.descriptors
  unfolding take_frame write_back
  length-taken =
      ground (arith, length-set b.descriptors i (record d { page_no = none; dirty = false }))

  pub lookup-taken :
      (q : ℕ)
      → lookup q taken.page_table ≡ (if holds q d.page_no then none else lookup q b.page_table)
  unfolding take_frame write_back
  lookup-taken q = go d.page_no refl
    where
      go :
          (o : Option ℕ)
          → d.page_no ≡ o
          → lookup q taken.page_table ≡ (if holds q d.page_no then none else lookup q b.page_table)
      go none e = ground (arith, e)
      go (some pno) e = ground (arith, e, lookup-erase pno q b.page_table)

  pub pages-taken : length taken.heap.pages ≡ length b.heap.pages
  unfolding take_frame write_back write_page
  pages-taken = go d.page_no refl
    where
      go : (o : Option ℕ) → d.page_no ≡ o → length taken.heap.pages ≡ length b.heap.pages
      go none e = ground (arith, e)
      go (some pno) e = ground (
        arith,
        e,
        put_page-eq b.heap.pages pno (update_checksum (frame_at b i))
            (v.in_file pno i (v.held pno i d at e)),
        length-set b.heap.pages pno (update_checksum (frame_at b i)),
      )

  here_bound : i < length b.frames
  here_bound = omega (arith, v.as_many, get_elem?-bound b.descriptors i at)

  -- The victim's page is on disk as it was in the frame, and no other page changed.
  on_disk-taken_self : (q : ℕ) → d.page_no ≡ some q → on_disk taken q ≡ in_frame b i
  unfolding take_frame
  on_disk-taken_self q e = ground (
    arith,
    e,
    v.clean q i d at e,
    on_disk-write_back b i q q (v.in_file q i (v.held q i d at e)) here_bound,
  )

  on_disk-taken_other : (q : ℕ) → holds q d.page_no ≡ false → on_disk taken q ≡ on_disk b q
  unfolding take_frame write_back
  on_disk-taken_other q ne = go d.page_no refl
    where
      go : (o : Option ℕ) → d.page_no ≡ o → on_disk taken q ≡ on_disk b q
      go none e = ground (arith, e)
      go (some pno) e = ground (
        arith,
        e,
        ne,
        on_disk-write_back b i pno q (v.in_file pno i (v.held pno i d at e)) here_bound,
      )

  pub view-taken : (q : ℕ) → view taken q ≡ view b q
  view-taken q = elim (Bool-cases (holds q d.page_no)) [
    | inl here ↦ ground (
      arith,
      here,
      lookup-taken q,
      on_disk-taken_self q (holds-eq q d.page_no here),
      v.held q i d at (holds-eq q d.page_no here),
    )
    | inr other ↦ elim (Option-cases (lookup q b.page_table)) [
      | inl e ↦ ground (arith, other, e, lookup-taken q, on_disk-taken_other q other)
      | inr (k, e) ↦ ground (
        arith,
        other,
        e,
        lookup-taken q,
        ap (λ (fs : List Page). image (get_elem? fs k)) frames-taken,
      )
    ]
  ]

  -- What the page table still lists stands at another frame.
  still_listed :
      (q k : ℕ)
      → lookup q taken.page_table ≡ some k
      → (holds q d.page_no ≡ false) × (lookup q b.page_table ≡ some k) × (k ≢ i)
  still_listed q k h =
      let other : holds q d.page_no ≡ false = ground (arith, lookup-taken q) in
      let was : lookup q b.page_table ≡ some k = ground (arith, lookup-taken q) in
      (other, was, λ same. ground (arith, same, v.listed q k was))

  listed-taken :
      (q k : ℕ)
      → lookup q taken.page_table ≡ some k
      → (e : BufferDescriptor) × (get_elem? taken.descriptors k ≡ some e) × (e.page_no ≡ some q)
  listed-taken q k h =
      let (other, was, ne) = still_listed q k h in
      let (e, there, page) = v.listed q k was in (e, ground (arith, ne, descriptors-taken k), page)

  -- A frame that still has a page is another frame, and the victim had another page.
  still_held :
      (q k : ℕ) (e : BufferDescriptor)
      → get_elem? taken.descriptors k ≡ some e
      → e.page_no ≡ some q
      → (get_elem? b.descriptors k ≡ some e) × (holds q d.page_no ≡ false)
  still_held q k e there page =
      let ne : k ≢ i = λ same. ground (arith, same, descriptors-taken k) in
      let was : get_elem? b.descriptors k ≡ some e = ground (arith, ne, descriptors-taken k) in
      (
        was,
        elim (Bool-cases (holds q d.page_no)) [
          | inl here ↦ absurd (
              ground
                (arith, ne, v.held q k e was page, v.held q i d at (holds-eq q d.page_no here)))
          | inr other ↦ other
        ],
      )

  pub taken-IsConsistent : IsConsistent taken
  taken-IsConsistent = record {
    as_many = ap length frames-taken ∙ v.as_many ∙ sym length-taken;
    some_frame = rw frames-taken v.some_frame;
    listed = listed-taken;
    held = λ q k e there page.
        let (was, other) = still_held q k e there page in
        ground (arith, other, lookup-taken q, v.held q k e was page);
    in_file = λ q k h. omega (arith, pages-taken, v.in_file q k (still_listed q k h).1);
    clean = λ q k e there page kept.
        let (was, other) = still_held q k e there page in
        ap (λ (fs : List Page). image (get_elem? fs k)) frames-taken
        ∙ v.clean q k e was page kept
        ∙ sym (on_disk-taken_other q other);
  }
