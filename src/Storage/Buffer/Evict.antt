-- ===== src/Storage/Buffer/Evict.antt =====
-- `evict_frame`: what it leaves alone, and when it finds a frame.
use native.Mathlib.Nat.{mod-lt}
use icedb.Base.{
  nat_key, zero, suc, none, some, false, inl, inr, ok, err, refl, arith, ◌≡◌, ◌+◌, ℕ, ◌∙◌, Outcome,
  get_elem?, ◌%◌, set, length, ◌<◌, get_elem?-total, Bool-cases, ltb, get_elem?-set, ◌^◌, ◌-◌, ◌*◌,
  lookup,
}
use icedb.Storage.Buffer.{
  BufferPool, tick, Tick, BufferDescriptor, sweep, BufferError, tick_at, all_frames_pinned,
  take_frame, sweep_on, evict_frame, victim, index_panic,
}
use icedb.Storage.Buffer.View.{IsConsistent, view, get_elem?-bound}
use icedb.Storage.Buffer.Steps.{
  taken-IsConsistent, redescribed-IsConsistent, frames-taken, view-taken, descriptors-taken,
  pages-taken, lookup-taken,
}

-- No frame's bytes change, no page reads differently, and a pinned frame keeps its descriptor.
pub record Kept (b b' : BufferPool) : Type 0 where
  pub consistent : IsConsistent b'
  pub frames : b'.frames ≡ b.frames
  pub pages : length b'.heap.pages ≡ length b.heap.pages
  pub unlisted : (q : ℕ) → lookup q b.page_table ≡ none → lookup q b'.page_table ≡ none
  pub same_view : (q : ℕ) → view b' q ≡ view b q
  pub pinned :
      (j : ℕ) (d : BufferDescriptor)
      → get_elem? b.descriptors j ≡ some d
      → 0 < d.pin_count
      → get_elem? b'.descriptors j ≡ some d

Kept-trans : {a b c : BufferPool} → Kept a b → Kept b c → Kept a c
Kept-trans k l = record {
  consistent = l.consistent;
  frames = l.frames ∙ k.frames;
  pages = l.pages ∙ k.pages;
  unlisted = λ q e. l.unlisted q (k.unlisted q e);
  same_view = λ q. l.same_view q ∙ k.same_view q;
  pinned = λ j d at h. l.pinned j d (k.pinned j d at h) h;
}

-- A frame that a new page may be loaded into.
abbrev pub IsFree : BufferPool → ℕ → Type 0
IsFree b i =
    (d : BufferDescriptor) × (get_elem? b.descriptors i ≡ some d)
    × (d.page_no ≡ none)
    × (d.pin_count ≡ 0)

abbrev Ticked : BufferPool → Tick → Type 0
Ticked b (sweep_on b') = Kept b b'
Ticked b (victim i b') = Kept b b' × IsFree b' i
Ticked b index_panic = ⊥

Kept-moved :
    {b : BufferPool} → IsConsistent b → (hand : ℕ) → Kept b (record b { clock_hand = hand })
Kept-moved v hand = record {
  consistent = record {
    as_many = v.as_many;
    some_frame = v.some_frame;
    listed = v.listed;
    held = v.held;
    in_file = v.in_file;
    clean = v.clean;
  };
  frames = refl;
  pages = refl;
  unlisted = λ q e. e;
  same_view = λ q. refl;
  pinned = λ j e there h. there;
}

module _ {b : BufferPool} (v : IsConsistent b) (i : ℕ) (d : BufferDescriptor)
    (at : get_elem? b.descriptors i ≡ some d) where
  Kept-used :
      (n : ℕ)
      → d.pin_count ≡ 0
      → Kept b (record b { descriptors = set b.descriptors i (record d { usage_count = n }) })
  Kept-used n unpinned = record {
    consistent =
        redescribed-IsConsistent v i d (record d { usage_count = n }) at refl (λ e. e) b.clock_hand;
    frames = refl;
    pages = refl;
    unlisted = λ q e. e;
    same_view = λ q. refl;
    pinned = λ j e there h. ground (
      arith,
      at,
      there,
      h,
      unpinned,
      get_elem?-set b.descriptors i j (record d { usage_count = n })
          (get_elem?-bound b.descriptors i at),
    );
  }

  Kept-taken : d.pin_count ≡ 0 → Kept b (take_frame b i d) × IsFree (take_frame b i d) i
  Kept-taken unpinned = (
    record {
      consistent = taken-IsConsistent v i d at;
      frames = frames-taken v i d at;
      pages = pages-taken v i d at;
      unlisted = λ q e. ground (arith, e, lookup-taken v i d at q);
      same_view = view-taken v i d at;
      pinned = λ j e there h. ground (arith, at, there, h, unpinned, descriptors-taken v i d at j);
    },
    (
      record d { page_no = none; dirty = false },
      ground (arith, descriptors-taken v i d at i),
      refl,
      unpinned,
    ),
  )

tick_at-Ticked :
    {b : BufferPool} (v : IsConsistent b) (i : ℕ) (d : BufferDescriptor)
    → get_elem? b.descriptors i ≡ some d
    → Ticked b (tick_at b i (some d))
tick_at-Ticked {b} v i d at = elim (Bool-cases (ltb 0 d.pin_count)) [
  | inl pinned ↦ rw pinned (Kept-moved v b.clock_hand)
  | inr unpinned ↦ elim (Bool-cases (ltb 0 d.usage_count)) [
    | inl used ↦ rw (unpinned, used) (Kept-used v i d at (d.usage_count - 1) (ground arith))
    | inr unused ↦ rw (unpinned, unused) (Kept-taken v i d at (ground arith))
  ]
]

Ticked-trans : {a b : BufferPool} (t : Tick) → Kept a b → Ticked b t → Ticked a t
Ticked-trans (sweep_on c) k s = Kept-trans k s
Ticked-trans (victim i c) k s = (Kept-trans k s.0, s.1)
Ticked-trans index_panic k s = s

tick-Ticked : {b : BufferPool} → IsConsistent b → Ticked b (tick b)
unfolding tick
tick-Ticked {b} v =
    let hand = b.clock_hand % length b.frames in
    let (d, at) =
      get_elem?-total b.descriptors hand
        (omega (arith, v.as_many, mod-lt b.clock_hand v.some_frame)) in
    let moved = Kept-moved v ((b.clock_hand + 1) % 2 ^ 64) in
    rw at (Ticked-trans _ moved (tick_at-Ticked moved.consistent hand d at))

-- What `evict_frame` returns.
abbrev pub Evicted : BufferPool → Outcome BufferError ℕ × BufferPool → Type 0
Evicted b (ok i, b') = Kept b b' × IsFree b' i
Evicted b (err e, b') = Kept b b' × (e ≡ all_frames_pinned)
Evicted b (Outcome.panic, b') = ⊥

Evicted-trans :
    {a b : BufferPool} (r : Outcome BufferError ℕ) (c : BufferPool)
    → Kept a b
    → Evicted b (r, c)
    → Evicted a (r, c)
Evicted-trans (ok i) c k s = (Kept-trans k s.0, s.1)
Evicted-trans (err e) c k s = (Kept-trans k s.0, s.1)
Evicted-trans Outcome.panic c k s = s

sweep-Evicted : (rounds : ℕ) {b : BufferPool} → IsConsistent b → Evicted b (sweep rounds b)
sweep-Evicted zero {b} v = unfold sweep in (Kept-moved v b.clock_hand, refl)
sweep-Evicted (suc rounds) {b} v =
    go (tick b) refl (tick-Ticked v) (λ c k. sweep-Evicted rounds k.consistent)
  where
    go :
        (t : Tick)
        → tick b ≡ t
        → Ticked b t
        → ((c : BufferPool) → Kept b c → Evicted c (sweep rounds c))
        → Evicted b (sweep (suc rounds) b)
    go (sweep_on c) e s ih =
        unfold sweep in
        rw (e, sweep) (Evicted-trans (sweep rounds c).0 (sweep rounds c).1 s (ih c s))
    go (victim i c) e s ih = unfold sweep in rw (e, sweep) s
    go index_panic e s ih = absurd s

-- On a consistent pool `evict_frame` never panics, and its only error is `AllFramesPinned`. In both
-- cases the pool stays consistent, no frame's bytes change, every page reads as before (the victim's
-- from disk), and every pinned frame keeps its descriptor. The frame that it returns is not pinned and
-- holds no page.
pub evict_frame-Evicted : {b : BufferPool} → IsConsistent b → Evicted b (evict_frame b)
unfolding evict_frame
evict_frame-Evicted {b} v = sweep-Evicted (length b.frames * 2) v
