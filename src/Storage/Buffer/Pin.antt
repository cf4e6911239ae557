-- ===== src/Storage/Buffer/Pin.antt =====
-- `pin_page` on a page of the file: the frame that it returns holds the page.
use icedb.Storage.Buffer.{
  BufferPool, install, loaded, BufferDescriptor, load_page, BufferError, all_frames_pinned, grown,
  evict_frame, heap_failed, grow, pin_page, set_descriptor, pinned_again, holds,
}
use icedb.Storage.Buffer.View.{IsConsistent, in_frame, on_disk, view, get_elem?-bound}
use icedb.Storage.Buffer.Evict.{IsFree, Kept, Evicted, evict_frame-Evicted}
use icedb.Storage.Page.{Page, checksum_mismatch, verify_checksum}
use native.Mathlib.Decide.{ℕ_discrete}
use icedb.Storage.Heap.{read_page, num_pages, HeapFile, page_error}
use icedb.Storage.Buffer.Steps.{redescribed-IsConsistent}
use icedb.Base.{
  nat_key, none, some, true, inl, inr, ok, err, refl, arith, ◌≡◌, ◌+◌, ℕ, lookup, Outcome, ◌<◌,
  get_elem?, ◌⊎◌, length, length-set, ◌≢◌, ◌∙◌, ◌^◌, if◌then◌else◌, Option-cases, get_elem?-set,
  ◌==◌, ◌-◌, get_elem?-total, ap, List, lookup-insert, Bool-cases, false, Option,
}

-- A page of the file that no frame holds goes into a free frame.
module _ {b : BufferPool} (v : IsConsistent b) (i : ℕ) (free : IsFree b i) (pno : ℕ) (page : Page)
    (absent : lookup pno b.page_table ≡ none)
    (stored : get_elem? b.heap.pages pno ≡ some page) where
  abbrev installed : BufferPool
  installed = install b i pno page

  frame_bound : i < length b.frames
  frame_bound = omega (arith, v.as_many, get_elem?-bound b.descriptors i free.1)

  frames-installed :
      (k : ℕ) → get_elem? installed.frames k ≡ (if k == i then some page else get_elem? b.frames k)
  unfolding install
  frames-installed k = get_elem?-set b.frames i k page frame_bound

  descriptors-installed :
      (k : ℕ)
      → get_elem? installed.descriptors k
        ≡ (if k == i then some (loaded pno) else get_elem? b.descriptors k)
  unfolding install
  descriptors-installed k =
      get_elem?-set b.descriptors i k (loaded pno) (get_elem?-bound b.descriptors i free.1)

  lookup-installed :
      (q : ℕ) → lookup q installed.page_table ≡ (if pno == q then some i else lookup q b.page_table)
  unfolding install
  lookup-installed q = lookup-insert pno q i b.page_table

  -- No page of the table stands at the free frame.
  elsewhere : (q k : ℕ) → lookup q b.page_table ≡ some k → k ≢ i
  elsewhere q k h same = ground (arith, same, v.listed q k h, free)

  in_frame-installed_self : in_frame installed i ≡ on_disk b pno
  in_frame-installed_self = ground (arith, frames-installed i, stored)

  in_frame-installed_ne : (k : ℕ) → k ≢ i → in_frame installed k ≡ in_frame b k
  in_frame-installed_ne k ne = ground (arith, frames-installed k, ne)

  pub view-installed : (q : ℕ) → view installed q ≡ view b q
  unfolding install
  view-installed q = elim (ℕ_discrete pno q) [
    | yes here ↦ ground (arith, here, lookup-installed q, in_frame-installed_self, absent)
    | no ne ↦ elim (Option-cases (lookup q b.page_table)) [
      | inl e ↦ ground (arith, e, ne, lookup-installed q)
      | inr (k, e) ↦
          ground (arith, e, ne, lookup-installed q, in_frame-installed_ne k (elsewhere q k e))
    ]
  ]

  pub installed-IsConsistent : IsConsistent installed
  unfolding install
  installed-IsConsistent = record {
    as_many =
        omega
          (arith, v.as_many, length-set b.frames i page, length-set b.descriptors i (loaded pno));
    some_frame = omega (arith, v.some_frame, length-set b.frames i page);
    listed = λ q k h. elim (ℕ_discrete pno q) [
      | yes here ↦ (
        loaded pno,
        ground (arith, here, lookup-installed q, descriptors-installed k),
        ground (arith, here),
      )
      | no ne ↦
          let was : lookup q b.page_table ≡ some k = ground (arith, ne, lookup-installed q) in
          let (e, there, at) = v.listed q k was in
          (e, ground (arith, descriptors-installed k, elsewhere q k was), at)
    ];
    held = λ q k e there at. elim (ℕ_discrete k i) [
      | yes here ↦ ground (arith, here, descriptors-installed k, lookup-installed q)
      | no ne ↦ ground (
        arith,
        absent,
        lookup-installed q,
        v.held q k e (ground (arith, ne, descriptors-installed k)) at,
      )
    ];
    in_file = λ q k h. elim (ℕ_discrete pno q) [
      | yes here ↦ omega (arith, here, get_elem?-bound b.heap.pages pno stored)
      | no ne ↦ v.in_file q k (ground (arith, ne, lookup-installed q))
    ];
    clean = λ q k e there at kept. elim (ℕ_discrete k i) [
      | yes here ↦ ground (arith, here, at, there, descriptors-installed k, in_frame-installed_self)
      | no ne ↦
          in_frame-installed_ne k ne
          ∙ v.clean q k e (ground (arith, ne, descriptors-installed k)) at kept
    ];
  }

-- The pool after a successful pin: the frame `i` is pinned and holds the page as the caller saw it
-- before, no page reads differently, and every other pinned frame keeps its descriptor and its bytes.
abbrev pub pins_in : Option BufferDescriptor → ℕ
pins_in none = 0
pins_in (some d) = d.pin_count

-- The pins of a page: those of its frame, or none if it is in no frame.
abbrev pub pins_at : BufferPool → Option ℕ → ℕ
pins_at b none = 0
pins_at b (some i) = pins_in (get_elem? b.descriptors i)

pub record IsPinned (b b' : BufferPool) (pno i : ℕ) : Type 0 where
  pub consistent : IsConsistent b'
  pub listed : lookup pno b'.page_table ≡ some i
  pub content : in_frame b' i ≡ view b pno
  pub pinned :
      (d : BufferDescriptor) × (get_elem? b'.descriptors i ≡ some d)
      × (d.pin_count ≡ pins_at b (lookup pno b.page_table) + 1)
  pub same_view : (q : ℕ) → view b' q ≡ view b q
  pub others :
      (j : ℕ) (d : BufferDescriptor)
      → get_elem? b.descriptors j ≡ some d
      → 0 < d.pin_count
      → j ≢ i
      → (get_elem? b'.descriptors j ≡ some d) × (get_elem? b'.frames j ≡ get_elem? b.frames j)

abbrev pub Pinned : BufferPool → ℕ → Outcome BufferError ℕ × BufferPool → Type 0
Pinned b pno (ok i, b') = IsPinned b b' pno i
Pinned b pno (err e, b') =
    IsConsistent b'
    × ((q : ℕ) → view b' q ≡ view b q)
    × (lookup pno b.page_table ≡ none)
    × (((e ≡ all_frames_pinned) × ((evict_frame b).0 ≡ err all_frames_pinned))
        ⊎ ((e ≡ heap_failed (page_error checksum_mismatch))
            × ((page : Page) × (get_elem? b'.heap.pages pno ≡ some page)
                × (verify_checksum page ≡ false))))
Pinned b pno (Outcome.panic, b') = ⊥

install-IsPinned :
    {b c : BufferPool} (i pno : ℕ) (page : Page)
    → Kept b c
    → IsFree c i
    → lookup pno b.page_table ≡ none
    → get_elem? c.heap.pages pno ≡ some page
    → IsPinned b (install c i pno page) pno i
install-IsPinned {b} {c} i pno page k free unlisted stored =
    let absent = k.unlisted pno unlisted in
    record {
      consistent = installed-IsConsistent k.consistent i free pno page absent stored;
      listed = ground (arith, lookup-installed k.consistent i free pno page absent stored pno);
      content =
          in_frame-installed_self k.consistent i free pno page absent stored
          ∙ ground (arith, absent, k.same_view pno);
      pinned = (
        loaded pno,
        ground (arith, descriptors-installed k.consistent i free pno page absent stored i),
        ground (arith, unlisted),
      );
      same_view = λ q. view-installed k.consistent i free pno page absent stored q ∙ k.same_view q;
      others = λ j d at pinned ne. (
        ground (
          arith,
          ne,
          descriptors-installed k.consistent i free pno page absent stored j,
          k.pinned j d at pinned,
        ),
        ground (
          arith,
          ne,
          frames-installed k.consistent i free pno page absent stored j,
          ap (λ (fs : List Page). get_elem? fs j) k.frames,
        ),
      );
    }

grown-same :
    (pno : ℕ) (h : HeapFile) → pno < length h.pages → length h.pages < 2 ^ 32 → grown pno h ≡ h
unfolding num_pages
grown-same pno h below few =
    let none_needed : pno + 1 - num_pages h ≡ 0 = omega arith in
    rw none_needed (unfold grow in refl)

-- A read below the end gives the page there, or finds a bad checksum.
read_page-cases :
    (h : HeapFile) (pno : ℕ)
    → pno < length h.pages
    → length h.pages < 2 ^ 32
    → ((page : Page) × (get_elem? h.pages pno ≡ some page) × (read_page h pno ≡ ok page))
      ⊎ ((page : Page) × (get_elem? h.pages pno ≡ some page)
          × (verify_checksum page ≡ false)
          × (read_page h pno ≡ err (page_error checksum_mismatch)))
unfolding read_page num_pages
read_page-cases h pno below few =
    let (page, there) = get_elem?-total h.pages pno below in
    elim (Bool-cases (verify_checksum page)) [
      | inl good ↦ inl (page, there, ground (arith, there, good))
      | inr bad ↦ inr (page, there, bad, ground (arith, there, bad))
    ]

module _ {b : BufferPool} (v : IsConsistent b) (pno : ℕ) (below : pno < length b.heap.pages)
    (few : length b.heap.pages < 2 ^ 32)
    (few_pins : (j : ℕ) (d : BufferDescriptor)
      → get_elem? b.descriptors j ≡ some d
      → d.pin_count + 1 < 2 ^ 32) where
  load_page-Pinned : lookup pno b.page_table ≡ none → Pinned b pno (load_page b pno)
  load_page-Pinned absent = go (evict_frame b).0 (evict_frame b).1 refl (evict_frame-Evicted v)
    where
      go :
          (r : Outcome BufferError ℕ) (c : BufferPool)
          → evict_frame b ≡ (r, c)
          → Evicted b (r, c)
          → Pinned b pno (load_page b pno)
      go (err e) c q s =
          unfold load_page in
          rw q (s.0.consistent, s.0.same_view, absent, inl (s.1, rw q (ap err s.1)))
      go Outcome.panic c q s = absurd s
      go (ok i) c q s =
          unfold load_page in
          rw (q, grown-same pno c.heap (omega (arith, s.0.pages)) (omega (arith, s.0.pages)))
            (elim (read_page-cases c.heap pno (omega (arith, s.0.pages))
              (omega (arith, s.0.pages))) [
                | inl (page, there, r) ↦ rw r (install-IsPinned i pno page s.0 s.1 absent there)
                | inr (page, there, bad, r) ↦
                    rw r (s.0.consistent, s.0.same_view, absent, inr (refl, (page, there, bad)))
              ])

  -- The page is in the frame `i` already.
  again :
      (i : ℕ) (d : BufferDescriptor)
      → lookup pno b.page_table ≡ some i
      → get_elem? b.descriptors i ≡ some d
      → IsPinned b (set_descriptor b i (pinned_again d)) pno i
  again i d at there = record {
    consistent = redescribed-IsConsistent v i d (pinned_again d) there refl (λ e. e) b.clock_hand;
    listed = at;
    content = ground (arith, at);
    pinned = (
      pinned_again d,
      ground (
        arith,
        get_elem?-set b.descriptors i i (pinned_again d) (get_elem?-bound b.descriptors i there),
      ),
      ground (arith, few_pins i d there, at, there),
    );
    same_view = λ q. refl;
    others = λ j e old pinned ne. (
      ground (
        arith,
        ne,
        get_elem?-set b.descriptors i j (pinned_again d) (get_elem?-bound b.descriptors i there),
      ),
      refl,
    );
  }

  -- Pinning a page of the file, on a consistent pool whose pin counts do not overflow. On success the
  -- returned frame holds what the page read as before and has one pin more than the page had (one, if
  -- it was in no frame), and every other pinned frame keeps its descriptor and its bytes. There are two
  -- errors, both only for a page in no frame: `AllFramesPinned`, where `evict_frame` answers so on this
  -- pool, and a bad checksum, where the page in the file then has one. In all cases the pool stays
  -- consistent and no page reads differently. It never panics.
  pub pin_page-Pinned : Pinned b pno (pin_page b pno)
  pin_page-Pinned = elim (Option-cases (lookup pno b.page_table)) [
    | inl absent ↦ unfold pin_page in rw (absent, pin_page) (load_page-Pinned absent)
    | inr (i, at) ↦
        let (d, there, page) = v.listed pno i at in
        let same : holds pno d.page_no ≡ true = ground (arith, page) in
        unfold pin_page in rw (at, pin_page, there, same) (again i d at there)
  ]
