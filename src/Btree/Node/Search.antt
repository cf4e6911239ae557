-- ===== src/Btree/Node/Search.antt =====
-- The binary search in a leaf.
use icedb.Base.{
  nat_key, zero, suc, some, true, false, inl, inr, refl, arith, ◌≡◌, ◌+◌, List, ℕ, ◌<◌, get_elem?,
  ◌≤◌, length, Bool-cases, ◌≢◌, ltb, get_elem?-total, subst, sym,
}
use icedb.Btree.Node.{
  found_at, search, LeafEntry, Found, missing, key_lt, index_panic, out_of_fuel, middle, find_key,
}
use native.Mathlib.Decide.{dec_lt, ℕ_discrete}
use icedb.Btree.Node.Order.{lt_le_trans, lt_irrefl, le_lt_trans, lt_total}
use icedb.Storage.Buffer.View.{get_elem?-bound}

-- No entry stands behind one with a greater key; equal keys may follow each other.
abbrev pub IsSorted : List LeafEntry → Type 0
IsSorted es =
    (i j : ℕ) (a b : LeafEntry)
    → i < j
    → get_elem? es i ≡ some a
    → get_elem? es j ≡ some b
    → key_lt b.key a.key ≡ false

-- An answer for a key: the index of an entry that has it, or none has.
abbrev pub Answers : List LeafEntry → List ℕ → Found → Type 0
Answers es key (found_at i) = (e : LeafEntry) × (get_elem? es i ≡ some e) × (e.key ≡ key)
Answers es key missing = (j : ℕ) (e : LeafEntry) → get_elem? es j ≡ some e → e.key ≢ key
Answers es key index_panic = ⊥
Answers es key out_of_fuel = ⊥

-- The entries in front of `lo` are below the key, those from `hi` on above it.
record Narrowed (es : List LeafEntry) (key : List ℕ) (lo hi : ℕ) : Type 0 where
  in_range : hi ≤ length es
  before : (j : ℕ) (e : LeafEntry) → j < lo → get_elem? es j ≡ some e → key_lt e.key key ≡ true
  behind : (j : ℕ) (e : LeafEntry) → hi ≤ j → get_elem? es j ≡ some e → key_lt key e.key ≡ true

module _ (es : List LeafEntry) (key : List ℕ) (sorted : IsSorted es) where
  not_here : {lo hi : ℕ} → Narrowed es key lo hi → hi ≤ lo → Answers es key missing
  not_here {lo} {hi} v empty j e at same = elim (dec_lt j lo) [
    | yes low ↦ absurd (ground (arith, v.before j e low at, same, lt_irrefl key))
    | no high ↦
        absurd (ground (arith, v.behind j e (omega (arith, high, empty)) at, same, lt_irrefl key))
  ]

  module _ {lo hi mid : ℕ} (v : Narrowed es key lo hi) (e : LeafEntry)
      (at : get_elem? es mid ≡ some e) (low : mid < hi) where
    right : key_lt e.key key ≡ true → Narrowed es key (mid + 1) hi
    right below = record {
      in_range = v.in_range;
      before = λ j a h there. elim (ℕ_discrete j mid) [
        | yes same ↦ ground (arith, same, there, at, below)
        | no ne ↦
            le_lt_trans a.key e.key key (sorted j mid a e (omega (arith, h, ne)) there at) below
      ];
      behind = v.behind;
    }

    left : key_lt key e.key ≡ true → Narrowed es key lo mid
    left above = record {
      in_range = omega (arith, v.in_range, low);
      before = v.before;
      behind = λ j b h there. elim (ℕ_discrete j mid) [
        | yes same ↦ ground (arith, same, there, at, above)
        | no ne ↦
            lt_le_trans key e.key b.key above (sorted mid j e b (omega (arith, h, ne)) at there)
      ];
    }

  -- One round of the loop on a range that is not empty.
  module _ (fuel lo hi : ℕ) (e : LeafEntry) (more : ltb lo hi ≡ true)
      (at : get_elem? es (middle lo hi) ≡ some e) where
    search-less :
        key_lt e.key key ≡ true
        → search (suc fuel) es key lo hi ≡ search fuel es key (middle lo hi + 1) hi
    search-less below = unfold search in rw (more, at, below, search) refl

    search-greater :
        key_lt e.key key ≡ false
        → key_lt key e.key ≡ true
        → search (suc fuel) es key lo hi ≡ search fuel es key lo (middle lo hi)
    search-greater other above = unfold search in rw (more, at, other, above, search) refl

    search-equal :
        key_lt e.key key ≡ false
        → key_lt key e.key ≡ false
        → search (suc fuel) es key lo hi ≡ found_at (middle lo hi)
    search-equal other same = unfold search in rw (more, at, other, same, search) refl

  search-Answers :
      (fuel lo hi : ℕ)
      → Narrowed es key lo hi
      → lo ≤ hi
      → hi < lo + fuel
      → Answers es key (search fuel es key lo hi)
  search-Answers zero lo hi v ordered enough = absurd (omega (arith, ordered, enough))
  search-Answers (suc fuel) lo hi v ordered enough = elim (Bool-cases (ltb lo hi)) [
    | inr empty ↦ unfold search in rw (empty, search) (not_here v (ground (arith, empty)))
    | inl more ↦
        let mid = middle lo hi in
        let range : lo < hi = ground (arith, more) in
        let low : mid < hi = omega (arith, range) in
        let (e, at) = get_elem?-total es mid (omega (arith, v.in_range, range)) in
        elim (Bool-cases (key_lt e.key key)) [
          | inl below ↦ subst (Answers es key) (sym (search-less fuel lo hi e more at below)) (
              search-Answers fuel (mid + 1) hi (right v e at low below) (omega (arith, range))
                (omega (arith, range, enough)))
          | inr other ↦ elim (Bool-cases (key_lt key e.key)) [
            | inl above ↦
                subst (Answers es key) (sym (search-greater fuel lo hi e more at other above)) (
                  search-Answers fuel lo mid (left v e at low above) (omega (arith, range))
                    (omega (arith, range, enough)))
            | inr same ↦
                subst (Answers es key) (sym (search-equal fuel lo hi e more at other same))
                  (e, at, lt_total e.key key other same)
          ]
        ]
  ]

  -- On a leaf whose keys are sorted, `find_key` ends without a panic: it returns the index of an entry
  -- with the key, or no entry has the key.
  pub find_key-Answers : Answers es key (find_key es key)
  unfolding find_key
  find_key-Answers =
      search-Answers (length es + 1) 0 (length es)
        (record {
          in_range = omega arith;
          before = λ j e h at. absurd (omega (arith, h));
          behind = λ j e h at. absurd (omega (arith, h, get_elem?-bound es j at));
        })
        (omega arith) (omega arith)
