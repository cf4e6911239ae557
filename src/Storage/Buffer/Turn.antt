-- ===== src/Storage/Buffer/Turn.antt =====
-- One round of the clock sweep, and the round in which a frame is taken. The clock hand wraps at
-- 2 ^ 64, which is no multiple of most pool sizes, so a turn here stays below that wrap.
use icedb.Base.{
  nat_key, suc, some, true, false, ok, refl, arith, ◌≡◌, ◌+◌, ℕ, if◌then◌else◌, ◌<◌, ◌*◌, get_elem?,
  ◌%◌, leb, ◌==◌, length, ◌-◌, length-set, ◌^◌, ◌∙◌, ltb, zero, get_elem?-set, ◌≢◌,
}
use native.Mathlib.Nat.{suc-mod, mod_self, mod-lt, mod-eq_of_lt}
use native.Mathlib.Decide.{ℕ_discrete}
use icedb.Storage.Buffer.{set_descriptor, BufferPool, BufferDescriptor, tick, sweep, tick_at}
use icedb.Storage.Buffer.View.{get_elem?-bound}

-- The rounds from the position `p` to the frame `j` of `n` frames.
abbrev pub rounds_to : ℕ → ℕ → ℕ → ℕ
rounds_to n p j = if leb p j then j - p else j + n - p

pub rounds_to-below : (n p j : ℕ) → p < n → j < n → rounds_to n p j < n
rounds_to-below n p j h k = ground arith

abbrev next_position : ℕ → ℕ → ℕ
next_position n p = if p + 1 == n then 0 else p + 1

-- The round in which an unpinned frame is taken, when no other frame is taken earlier.
abbrev pub taken_in : ℕ → ℕ → ℕ → BufferDescriptor → ℕ
taken_in n p j d = d.usage_count * n + rounds_to n p j

suc-position : (n c : ℕ) → 0 < n → (c + 1) % n ≡ next_position n (c % n)
suc-position n c some_frame = elim (ℕ_discrete (c % n + 1) n) [
  | yes last ↦ ground (arith, last, suc-mod c n, mod_self n)
  | no before ↦
      ground (arith, before, suc-mod c n, mod-lt c some_frame, mod-eq_of_lt {n = c % n + 1} {m = n})
]

-- A pool of `n` frames whose hand does not wrap in `rounds` rounds.
pub record IsTurning (n rounds : ℕ) (b : BufferPool) : Type 0 where
  pub frames_n : length b.frames ≡ n
  pub descriptors_n : length b.descriptors ≡ n
  pub some_frame : 0 < n
  pub no_wrap : b.clock_hand + rounds < 2 ^ 64

-- One round at the descriptor `d` below the hand.
module _ {n rounds : ℕ} {b : BufferPool} (v : IsTurning n (suc rounds) b) (d : BufferDescriptor)
    (at : get_elem? b.descriptors (b.clock_hand % n) ≡ some d) where
  abbrev pub moved : BufferPool
  moved = record b { clock_hand = b.clock_hand + 1 }

  abbrev pub used : BufferPool
  used = set_descriptor moved (b.clock_hand % n) (record d { usage_count = d.usage_count - 1 })

  tick-eq : tick b ≡ tick_at moved (b.clock_hand % n) (some d)
  unfolding tick
  tick-eq =
      rw
        (
          v.frames_n,
          at,
          mod-eq_of_lt {n = b.clock_hand + 1} {m = 2 ^ 64} (omega (arith, v.no_wrap)),
        )
        refl

  pub sweep-pinned : 0 < d.pin_count → sweep (suc rounds) b ≡ sweep rounds moved
  sweep-pinned h =
      let pinned : ltb 0 d.pin_count ≡ true = ground (arith, h) in
      unfold sweep in rw (tick-eq, sweep, pinned) refl

  pub sweep-used : d.pin_count ≡ 0 → 0 < d.usage_count → sweep (suc rounds) b ≡ sweep rounds used
  sweep-used h u =
      let unpinned : ltb 0 d.pin_count ≡ false = ground (arith, h) in
      let in_use : ltb 0 d.usage_count ≡ true = ground (arith, u) in
      unfold sweep in rw (tick-eq, sweep, unpinned, in_use) refl

  pub sweep-free :
      d.pin_count ≡ 0 → d.usage_count ≡ 0 → (sweep (suc rounds) b).0 ≡ ok (b.clock_hand % n)
  sweep-free h u =
      let unpinned : ltb 0 d.pin_count ≡ false = ground (arith, h) in
      let unused : ltb 0 d.usage_count ≡ false = ground (arith, u) in
      unfold sweep in rw (tick-eq, sweep, unpinned, unused) refl

  pub moved-IsTurning : IsTurning n rounds moved
  moved-IsTurning = record {
    frames_n = v.frames_n;
    descriptors_n = v.descriptors_n;
    some_frame = v.some_frame;
    no_wrap = omega (arith, v.no_wrap);
  }

  pub used-IsTurning : IsTurning n rounds used
  used-IsTurning = record {
    frames_n = v.frames_n;
    descriptors_n =
        length-set b.descriptors (b.clock_hand % n) (record d { usage_count = d.usage_count - 1 })
        ∙ v.descriptors_n;
    some_frame = v.some_frame;
    no_wrap = omega (arith, v.no_wrap);
  }

  rounds_to-next :
      (j : ℕ)
      → j < n
      → rounds_to n ((b.clock_hand + 1) % n) j
        ≡ (if j == b.clock_hand % n then n - 1 else rounds_to n (b.clock_hand % n) j - 1)
  rounds_to-next j below =
      ground
        (arith, below, suc-position n b.clock_hand v.some_frame, mod-lt b.clock_hand v.some_frame)

  pub used-at :
      (j : ℕ)
      → get_elem? used.descriptors j ≡ (
          if j == b.clock_hand % n
          then some (record d { usage_count = d.usage_count - 1 })
          else get_elem? b.descriptors j)
  used-at j =
      get_elem?-set b.descriptors (b.clock_hand % n) j
        (record d { usage_count = d.usage_count - 1 })
        (get_elem?-bound b.descriptors (b.clock_hand % n) at)

  -- One use and the way to the hand are one more turn.
  turn : (u : ℕ) → 0 < u → u * n ≡ (u - 1) * n + n
  turn zero h = absurd (omega arith)
  turn (suc u) h = grind arith

  abbrev pub used_once : BufferDescriptor
  used_once = record d { usage_count = d.usage_count - 1 }

  -- The frame at the hand is a whole turn away after its use.
  pub taken_in-hand :
      0 < d.usage_count
      → taken_in n ((b.clock_hand + 1) % n) (b.clock_hand % n) used_once + 1
        ≡ taken_in n (b.clock_hand % n) (b.clock_hand % n) d
  taken_in-hand in_use = ground (
    arith,
    turn d.usage_count in_use,
    v.some_frame,
    mod-lt b.clock_hand v.some_frame,
    rounds_to-next (b.clock_hand % n) (mod-lt b.clock_hand v.some_frame),
  )

  -- Any other frame is one round nearer.
  pub taken_in-other :
      (j : ℕ) (e : BufferDescriptor)
      → get_elem? b.descriptors j ≡ some e
      → j ≢ b.clock_hand % n
      → taken_in n ((b.clock_hand + 1) % n) j e + 1 ≡ taken_in n (b.clock_hand % n) j e
  taken_in-other j e there ne =
      let below = get_elem?-bound b.descriptors j there in
      ground (
        arith,
        ne,
        rounds_to-next j (omega (arith, v.descriptors_n, below)),
        v.descriptors_n,
        below,
      )
