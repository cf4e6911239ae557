-- ===== src/Storage/Buffer/Flush.antt =====
-- `flush_frame` and `flush_all_dirty`: after a flush the disk has what callers see.
use icedb.Base.{
  nat_key, none, some, false, inl, inr, refl, arith, ◌≡◌, ℕ, get_elem?, ap, lookup, List, Option,
  length, if◌then◌else◌, ◌≢◌, Option-cases, Bool-cases, length-set, ◌∙◌, ◌==◌, get_elem?-set, sym,
  zero, suc, ok, ◌+◌, ◌<◌, get_elem?-total, subst,
}
use native.Mathlib.Decide.{ℕ_discrete}
use icedb.Storage.Buffer.{
  holds, BufferPool, BufferDescriptor, flush_at, write_back, frame_at, flush_all_dirty, flush_frame,
  flush_from,
}
use icedb.Storage.Heap.{write_page}
use icedb.Storage.Buffer.View.{
  IsConsistent, in_frame, view, on_disk, on_disk-write_back, get_elem?-bound, image,
}
use icedb.Storage.Heap.Pages.{put_page-eq}
use icedb.Storage.Page.{Page, update_checksum}
use icedb.Storage.Buffer.Steps.{holds-eq}

module _ {b : BufferPool} (v : IsConsistent b) (i : ℕ) (d : BufferDescriptor)
    (at : get_elem? b.descriptors i ≡ some d) where
  abbrev flushed : BufferPool
  flushed = flush_at b i d

  frames-flushed : flushed.frames ≡ b.frames
  unfolding write_back
  frames-flushed = ground arith

  table-flushed : flushed.page_table ≡ b.page_table
  unfolding write_back
  table-flushed = ground arith

  descriptors-flushed :
      (k : ℕ)
      → get_elem? flushed.descriptors k
        ≡ (if k == i then some (record d { dirty = false }) else get_elem? b.descriptors k)
  unfolding write_back
  descriptors-flushed k = ground (
    arith,
    at,
    get_elem?-set b.descriptors i k (record d { dirty = false })
        (get_elem?-bound b.descriptors i at),
  )

  length-flushed : length flushed.descriptors ≡ length b.descriptors
  unfolding write_back
  length-flushed = ground (arith, length-set b.descriptors i (record d { dirty = false }))

  pages-flushed : length flushed.heap.pages ≡ length b.heap.pages
  unfolding write_back write_page
  pages-flushed = go d.page_no refl
    where
      go : (o : Option ℕ) → d.page_no ≡ o → length flushed.heap.pages ≡ length b.heap.pages
      go none e = ground (arith, e)
      go (some pno) e = ground (
        arith,
        e,
        put_page-eq b.heap.pages pno (update_checksum (frame_at b i))
            (v.in_file pno i (v.held pno i d at e)),
        length-set b.heap.pages pno (update_checksum (frame_at b i)),
      )

  on_disk-flushed_self : (q : ℕ) → d.page_no ≡ some q → on_disk flushed q ≡ in_frame b i
  on_disk-flushed_self q e = ground (
    arith,
    e,
    v.clean q i d at e,
    on_disk-write_back b i q q (v.in_file q i (v.held q i d at e))
        (omega (arith, v.as_many, get_elem?-bound b.descriptors i at)),
  )

  on_disk-flushed_other : (q : ℕ) → holds q d.page_no ≡ false → on_disk flushed q ≡ on_disk b q
  unfolding write_back
  on_disk-flushed_other q ne = go d.page_no refl
    where
      go : (o : Option ℕ) → d.page_no ≡ o → on_disk flushed q ≡ on_disk b q
      go none e = ground (arith, e)
      go (some pno) e = ground (
        arith,
        e,
        ne,
        on_disk-write_back b i pno q (v.in_file pno i (v.held pno i d at e))
            (omega (arith, v.as_many, get_elem?-bound b.descriptors i at)),
      )

  in_frame-flushed : (k : ℕ) → in_frame flushed k ≡ in_frame b k
  in_frame-flushed k = ap (λ (fs : List Page). image (get_elem? fs k)) frames-flushed

  -- A page at another frame is not the page of this one.
  apart : (q k : ℕ) → lookup q b.page_table ≡ some k → k ≢ i → holds q d.page_no ≡ false
  apart q k h ne = elim (Bool-cases (holds q d.page_no)) [
    | inl here ↦ absurd (ground (arith, h, ne, v.held q i d at (holds-eq q d.page_no here)))
    | inr other ↦ other
  ]

  pub flushed-IsConsistent : IsConsistent flushed
  flushed-IsConsistent = record {
    as_many = ap length frames-flushed ∙ v.as_many ∙ sym length-flushed;
    some_frame = rw frames-flushed v.some_frame;
    listed = λ q k h.
        let (e, there, page) = v.listed q k (sym (ap (lookup q) table-flushed) ∙ h) in
        elim (ℕ_discrete k i) [
          | yes same ↦ (
            record d { dirty = false },
            ground (arith, same, descriptors-flushed k),
            ground (arith, same, there, at, page),
          )
          | no ne ↦ (e, ground (arith, ne, there, descriptors-flushed k), page)
        ];
    held = λ q k e there page. ap (lookup q) table-flushed ∙ elim (ℕ_discrete k i) [
      | yes same ↦ ground (arith, same, there, page, descriptors-flushed k, v.held q i d at)
      | no ne ↦ v.held q k e (ground (arith, ne, there, descriptors-flushed k)) page
    ];
    in_file = λ q k h.
        omega (arith, pages-flushed, v.in_file q k (sym (ap (lookup q) table-flushed) ∙ h));
    clean = λ q k e there page kept. in_frame-flushed k ∙ elim (ℕ_discrete k i) [
      | yes same ↦
          let mine : d.page_no ≡ some q =
            ground (arith, same, there, page, descriptors-flushed k) in
          ap (in_frame b) same ∙ sym (on_disk-flushed_self q mine)
      | no ne ↦
          let was : get_elem? b.descriptors k ≡ some e =
            ground (arith, ne, there, descriptors-flushed k) in
          v.clean q k e was page kept
          ∙ sym (on_disk-flushed_other q (apart q k (v.held q k e was page) ne))
    ];
  }

  pub view-flushed : (q : ℕ) → view flushed q ≡ view b q
  view-flushed q = elim (Option-cases (lookup q b.page_table)) [
    | inl absent ↦
        let other : holds q d.page_no ≡ false = elim (Bool-cases (holds q d.page_no)) [
          | inl here ↦ absurd (ground (arith, absent, v.held q i d at (holds-eq q d.page_no here)))
          | inr h ↦ h
        ] in
        ground (arith, absent, ap (lookup q) table-flushed, on_disk-flushed_other q other)
    | inr (k, e) ↦ ground (arith, e, ap (lookup q) table-flushed, in_frame-flushed k)
  ]

-- The frames below `k` are clean.
abbrev AllClean : ℕ → BufferPool → Type 0
AllClean k b =
    (j : ℕ) (d : BufferDescriptor) → get_elem? b.descriptors j ≡ some d → j < k → d.dirty ≡ false

-- What the loop has done when the frames below `k` are flushed.
record FlushedTo (k : ℕ) (b b' : BufferPool) : Type 0 where
  consistent : IsConsistent b'
  same_frames : b'.frames ≡ b.frames
  same_view : (q : ℕ) → view b' q ≡ view b q
  all_clean : AllClean k b'

FlushedTo-trans :
    {k l : ℕ} {a b c : BufferPool} → FlushedTo k a b → FlushedTo l b c → FlushedTo l a c
FlushedTo-trans p q = record {
  consistent = q.consistent;
  same_frames = q.same_frames ∙ p.same_frames;
  same_view = λ x. q.same_view x ∙ p.same_view x;
  all_clean = q.all_clean;
}

module _ {b : BufferPool} (v : IsConsistent b) (i : ℕ) (d : BufferDescriptor)
    (at : get_elem? b.descriptors i ≡ some d) where
  flush_from-step :
      (rounds : ℕ) → flush_from (suc rounds) i b ≡ flush_from rounds (i + 1) (flushed v i d at)
  unfolding flush_from flush_frame
  flush_from-step rounds = rw (flush_frame, at) refl

  flushed-FlushedTo : AllClean i b → FlushedTo (i + 1) b (flushed v i d at)
  flushed-FlushedTo before = record {
    consistent = flushed-IsConsistent v i d at;
    same_frames = frames-flushed v i d at;
    same_view = view-flushed v i d at;
    all_clean = λ j e there near. elim (ℕ_discrete j i) [
      | yes same ↦ ground (arith, same, there, descriptors-flushed v i d at j)
      | no ne ↦
          before j e (ground (arith, ne, there, descriptors-flushed v i d at j))
            (omega (arith, near, ne))
    ];
  }

flush_from-FlushedTo :
    (rounds i : ℕ) {b : BufferPool}
    → IsConsistent b
    → i + rounds ≡ length b.frames
    → AllClean i b
    → (b' : BufferPool) × (flush_from rounds i b ≡ (ok tt, b')) × FlushedTo (i + rounds) b b'
flush_from-FlushedTo zero i {b} v end before =
    unfold flush_from in
    (
      b,
      refl,
      record {
        consistent = v;
        same_frames = refl;
        same_view = λ q. refl;
        all_clean = λ j d at near. before j d at (omega (arith, near));
      },
    )
flush_from-FlushedTo (suc rounds) i {b} v end before =
    let (d, at) = get_elem?-total b.descriptors i (omega (arith, v.as_many, end)) in
    let s = flushed-FlushedTo v i d at before in
    let (b', rest, t) =
      flush_from-FlushedTo rounds (i + 1) s.consistent (omega (arith, end, ap length s.same_frames))
        s.all_clean in
    (
      b',
      flush_from-step v i d at rounds ∙ rest,
      subst (λ k. FlushedTo k b b') (omega arith) (FlushedTo-trans s t),
    )

-- Flushing a consistent pool succeeds and keeps it consistent. No page reads differently, and
-- afterwards the disk has every page as callers see it.
pub flush_all_dirty-on_disk :
    {b : BufferPool}
    → IsConsistent b
    → (b' : BufferPool) × (flush_all_dirty b ≡ (ok tt, b'))
      × IsConsistent b'
      × ((q : ℕ) → (view b' q ≡ view b q) × (on_disk b' q ≡ view b q))
unfolding flush_all_dirty
flush_all_dirty-on_disk {b} v =
    let (b', e, s) =
      flush_from-FlushedTo (length b.frames) 0 v (omega arith)
        (λ j d at h. absurd (omega (arith, h))) in
    (
      b',
      e,
      s.consistent,
      λ q. (
        s.same_view q,
        elim (Option-cases (lookup q b'.page_table)) [
          | inl absent ↦ ground (arith, absent, s.same_view q)
          | inr (j, at) ↦
              let (d, there, page) = s.consistent.listed q j at in
              let below = get_elem?-bound b'.descriptors j there in
              let clean =
                s.all_clean j d there
                  (omega (arith, below, s.consistent.as_many, ap length s.same_frames)) in
              ground (arith, at, s.same_view q, s.consistent.clean q j d there page clean)
        ],
      ),
    )
