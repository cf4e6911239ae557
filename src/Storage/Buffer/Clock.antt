-- ===== src/Storage/Buffer/Clock.antt =====
-- `evict_frame`: which pools its two sweeps can free a frame of.
use icedb.Base.{
  nat_key, zero, suc, some, inl, inr, ok, err, refl, arith, ◌≡◌, ◌+◌, ℕ, get_elem?, length, ◌*◌,
  ◌<◌, ◌%◌, ◌^◌, ◌⊎◌, get_elem?-total, ◌≢◌, sym, ◌≤◌, Bool-cases, ltb, ap, ◌∙◌,
}
use native.Mathlib.Nat.{mul-le-mul_right, mod-lt}
use native.Mathlib.Decide.{ℕ_discrete}
use icedb.Storage.Buffer.{BufferPool, BufferDescriptor, sweep, all_frames_pinned, evict_frame}
use icedb.Storage.Buffer.Turn.{
  IsTurning, taken_in, used, moved, used_once, taken_in-other, used-at, rounds_to-below,
  moved-IsTurning, taken_in-hand, sweep-pinned, sweep-used, used-IsTurning, sweep-free,
}
use icedb.Storage.Buffer.View.{IsConsistent, get_elem?-bound}

abbrev Stalls : ℕ → ℕ → BufferPool → Type 0
Stalls n rounds b =
    (j : ℕ) (d : BufferDescriptor)
    → get_elem? b.descriptors j ≡ some d
    → (0 < d.pin_count) ⊎ (rounds ≤ taken_in n (b.clock_hand % n) j d)

module _ {n rounds : ℕ} {b : BufferPool} (v : IsTurning n (suc rounds) b) (d : BufferDescriptor)
    (at : get_elem? b.descriptors (b.clock_hand % n) ≡ some d) where
  Stalls-moved : 0 < d.pin_count → Stalls n (suc rounds) b → Stalls n rounds (moved v d at)
  Stalls-moved pinned s j e there = elim (s j e there) [
    | inl h ↦ inl h
    | inr h ↦ elim (ℕ_discrete j (b.clock_hand % n)) [
      | yes same ↦ inl (ground (arith, same, at, there, pinned))
      | no ne ↦ inr (ground (arith, ne, h, taken_in-other v d at j e there ne))
    ]
  ]

  Stalls-used :
      d.pin_count ≡ 0 → 0 < d.usage_count → Stalls n (suc rounds) b → Stalls n rounds (used v d at)
  Stalls-used unpinned in_use s j e there = elim (ℕ_discrete j (b.clock_hand % n)) [
    | yes same ↦
        let e_eq : used_once v d at ≡ e = ground (arith, same, there, used-at v d at j) in
        elim (s (b.clock_hand % n) d at) [
          | inl h ↦ absurd (omega (arith, h, unpinned))
          | inr h ↦ inr (rw (same, sym e_eq) (omega (arith, h, taken_in-hand v d at in_use)))
        ]
    | no ne ↦
        let was : get_elem? b.descriptors j ≡ some e =
          ground (arith, ne, there, used-at v d at j) in
        elim (s j e was) [
          | inl h ↦ inl h
          | inr h ↦ inr (omega (arith, h, taken_in-other v d at j e was ne))
        ]
  ]

sweep-Stalls :
    (n rounds : ℕ) {b : BufferPool}
    → IsTurning n rounds b
    → Stalls n rounds b
    → (sweep rounds b).0 ≡ err all_frames_pinned
sweep-Stalls n zero v s = unfold sweep in refl
sweep-Stalls n (suc rounds) {b} v s =
    let hand = b.clock_hand % n in
    let (d, at) =
      get_elem?-total b.descriptors hand
        (omega (arith, v.descriptors_n, mod-lt b.clock_hand v.some_frame)) in
    elim (Bool-cases (ltb 0 d.pin_count)) [
      | inl p ↦
          let pinned : 0 < d.pin_count = ground (arith, p) in
          ap (λ r. r.0) (sweep-pinned v d at pinned)
          ∙ sweep-Stalls n rounds (moved-IsTurning v d at) (Stalls-moved v d at pinned s)
      | inr p ↦
          let unpinned : d.pin_count ≡ 0 = ground (arith, p) in
          let in_use : 0 < d.usage_count = ground (arith, unpinned, s hand d at) in
          ap (λ r. r.0) (sweep-used v d at unpinned in_use)
          ∙ sweep-Stalls n rounds (used-IsTurning v d at) (Stalls-used v d at unpinned in_use s)
    ]

-- A frame that the sweep reaches, unused, before it ends.
record Reaches (n rounds : ℕ) (b : BufferPool) : Type 0 where
  frame : ℕ
  descriptor : BufferDescriptor
  there : get_elem? b.descriptors frame ≡ some descriptor
  no_pins : descriptor.pin_count ≡ 0
  in_time : taken_in n (b.clock_hand % n) frame descriptor < rounds

module _ {n rounds : ℕ} {b : BufferPool} (v : IsTurning n (suc rounds) b) (d : BufferDescriptor)
    (at : get_elem? b.descriptors (b.clock_hand % n) ≡ some d) where
  Reaches-moved : 0 < d.pin_count → Reaches n (suc rounds) b → Reaches n rounds (moved v d at)
  Reaches-moved pinned r =
      let ne : r.frame ≢ b.clock_hand % n = λ same. ground (arith, same, at, r.there, r.no_pins) in
      record {
        frame = r.frame;
        descriptor = r.descriptor;
        there = r.there;
        no_pins = r.no_pins;
        in_time = omega (arith, r.in_time, taken_in-other v d at r.frame r.descriptor r.there ne);
      }

  Reaches-used :
      d.pin_count ≡ 0
      → 0 < d.usage_count
      → Reaches n (suc rounds) b
      → Reaches n rounds (used v d at)
  Reaches-used unpinned in_use r = elim (ℕ_discrete r.frame (b.clock_hand % n)) [
    | yes same ↦ record {
      frame = b.clock_hand % n;
      descriptor = used_once v d at;
      there = ground (arith, used-at v d at (b.clock_hand % n));
      no_pins = unpinned;
      in_time =
          let e_eq : d ≡ r.descriptor = ground (arith, same, at, r.there) in
          let early : taken_in n (b.clock_hand % n) r.frame d < suc rounds = rw e_eq r.in_time in
          ground (arith, same, early, taken_in-hand v d at in_use);
    }
    | no ne ↦ record {
      frame = r.frame;
      descriptor = r.descriptor;
      there = ground (arith, ne, r.there, used-at v d at r.frame);
      no_pins = r.no_pins;
      in_time = omega (arith, r.in_time, taken_in-other v d at r.frame r.descriptor r.there ne);
    }
  ]

sweep-finds :
    (n rounds : ℕ) {b : BufferPool}
    → IsTurning n rounds b
    → Reaches n rounds b
    → (i : ℕ) × ((sweep rounds b).0 ≡ ok i)
sweep-finds n zero v r = absurd (omega (arith, r.in_time))
sweep-finds n (suc rounds) {b} v r =
    let hand = b.clock_hand % n in
    let (d, at) =
      get_elem?-total b.descriptors hand
        (omega (arith, v.descriptors_n, mod-lt b.clock_hand v.some_frame)) in
    elim (Bool-cases (ltb 0 d.pin_count)) [
      | inl p ↦
          let pinned : 0 < d.pin_count = ground (arith, p) in
          let (i, e) =
            sweep-finds n rounds (moved-IsTurning v d at) (Reaches-moved v d at pinned r) in
          (i, ap (λ s. s.0) (sweep-pinned v d at pinned) ∙ e)
      | inr p ↦
          let unpinned : d.pin_count ≡ 0 = ground (arith, p) in
          elim (Bool-cases (ltb 0 d.usage_count)) [
            | inl u ↦
                let in_use : 0 < d.usage_count = ground (arith, u) in
                let (i, e) =
                  sweep-finds n rounds (used-IsTurning v d at)
                    (Reaches-used v d at unpinned in_use r) in
                (i, ap (λ s. s.0) (sweep-used v d at unpinned in_use) ∙ e)
            | inr u ↦ (hand, sweep-free v d at unpinned (ground (arith, u)))
          ]
    ]

module _ {b : BufferPool} (v : IsConsistent b)
    (no_wrap : b.clock_hand + length b.frames * 2 < 2 ^ 64) where
  turning : IsTurning (length b.frames) (length b.frames * 2) b
  turning = record {
    frames_n = refl;
    descriptors_n = sym v.as_many;
    some_frame = v.some_frame;
    no_wrap = no_wrap;
  }

  -- On a consistent pool whose hand does not wrap meanwhile: a frame that is not pinned and was used at
  -- most once is enough for `evict_frame` to find a frame.
  pub evict_frame-finds :
      (j : ℕ) (d : BufferDescriptor)
      → get_elem? b.descriptors j ≡ some d
      → d.pin_count ≡ 0
      → d.usage_count ≤ 1
      → (i : ℕ) × ((evict_frame b).0 ≡ ok i)
  unfolding evict_frame
  evict_frame-finds j d at unpinned little =
      sweep-finds (length b.frames) (length b.frames * 2) turning record {
        frame = j;
        descriptor = d;
        there = at;
        no_pins = unpinned;
        in_time = omega (
          arith,
          unpinned,
          mul-le-mul_right (length b.frames) little,
          rounds_to-below (length b.frames) (b.clock_hand % length b.frames) j
              (mod-lt b.clock_hand v.some_frame)
              (omega (arith, v.as_many, get_elem?-bound b.descriptors j at)),
        );
      }

  -- On a consistent pool whose hand does not wrap meanwhile: when each frame is pinned or has a usage
  -- count of two or more, `evict_frame` reports that all frames are pinned, also when none is.
  pub evict_frame-refused :
      ((j : ℕ) (d : BufferDescriptor)
        → get_elem? b.descriptors j ≡ some d
        → (0 < d.pin_count) ⊎ (2 ≤ d.usage_count))
      → (evict_frame b).0 ≡ err all_frames_pinned
  unfolding evict_frame
  evict_frame-refused busy = sweep-Stalls (length b.frames) (length b.frames * 2) turning λ j d at.
      elim (busy j d at) [
        | inl h ↦ inl h
        | inr h ↦ inr (omega (arith, mul-le-mul_right (length b.frames) h))
      ]
