-- ===== src/Btree/Node/Insert.antt =====
-- Insertion of an entry into a leaf.
use icedb.Base.{
  nat_key, zero, suc, [], ◌∷◌, some, true, false, inl, inr, refl, arith, ◌≡◌, List, ℕ, ◌≤◌,
  get_elem?, ◌<◌, Option, length, subst, if◌then◌else◌, ltb, get_elem?-total, Bool-cases, ◌==◌, ◌-◌,
}
use native.Mathlib.Decide.{dec_lt, ℕ_discrete}
use icedb.Storage.Buffer.View.{get_elem?-bound}
use icedb.Btree.Node.Search.{IsSorted}
use icedb.Btree.Node.{insert_at, entries_below, LeafEntry, insert_leaf_entry, key_lt}
use icedb.Btree.Node.Order.{lt_asym, le_lt_trans}

-- What stands at each index after an insertion at `pos`.
abbrev pub shifted : List LeafEntry → ℕ → LeafEntry → ℕ → Option LeafEntry
shifted es pos e j =
    if ltb j pos then get_elem? es j else if j == pos then some e else get_elem? es (j - 1)

get_elem?-insert_at :
    (es : List LeafEntry) (pos : ℕ) (e : LeafEntry)
    → pos ≤ length es
    → (es' : List LeafEntry) × (insert_at es pos e ≡ some es')
      × ((j : ℕ) → get_elem? es' j ≡ shifted es pos e j)
unfolding insert_at
get_elem?-insert_at es zero e below = (e ∷ es, refl, front)
  where
    front : (j : ℕ) → get_elem? (e ∷ es) j ≡ shifted es 0 e j
    front zero = ground arith
    front (suc j) = ground arith
get_elem?-insert_at [] (suc pos) e below = absurd (omega (arith, below))
get_elem?-insert_at (x ∷ es) (suc pos) e below =
    let (rest, done, reads) = get_elem?-insert_at es pos e (omega (arith, below)) in
    (x ∷ rest, rw done refl, behind rest reads)
  where
    behind :
        (rest : List LeafEntry)
        → ((j : ℕ) → get_elem? rest j ≡ shifted es pos e j)
        → (j : ℕ) → get_elem? (x ∷ rest) j ≡ shifted (x ∷ es) (suc pos) e j
    behind rest reads zero = ground arith
    behind rest reads (suc zero) = ground (arith, reads 0)
    behind rest reads (suc (suc j)) = ground (arith, reads (suc j))

entries_below-bound : (es : List LeafEntry) (key : List ℕ) → entries_below es key ≤ length es
unfolding entries_below
entries_below-bound [] key = omega arith
entries_below-bound (e ∷ es) key = ground (arith, entries_below-bound es key)

in_front :
    (es : List LeafEntry) (key : List ℕ) (j : ℕ) (a : LeafEntry)
    → j < entries_below es key
    → get_elem? es j ≡ some a
    → key_lt a.key key ≡ true
unfolding entries_below
in_front [] key j a h at = absurd (ground (arith, at))
in_front (e ∷ es) key zero a h at = ground (arith, h, at)
in_front (e ∷ es) key (suc j) a h at = in_front es key j a (ground (arith, h)) at

at_boundary :
    (es : List LeafEntry) (key : List ℕ) (a : LeafEntry)
    → get_elem? es (entries_below es key) ≡ some a
    → key_lt a.key key ≡ false
unfolding entries_below
at_boundary [] key a at = absurd (ground (arith, at))
at_boundary (e ∷ es) key a at = elim (Bool-cases (key_lt e.key key)) [
  | inl below ↦ at_boundary es key a (ground (arith, below, at))
  | inr above ↦ ground (arith, above, at)
]

module _ (es : List LeafEntry) (sorted : IsSorted es) (e : LeafEntry) where
  abbrev pos : ℕ
  pos = entries_below es e.key

  not_below :
      (j : ℕ) (b : LeafEntry) → pos ≤ j → get_elem? es j ≡ some b → key_lt b.key e.key ≡ false
  not_below j b h at = elim (ℕ_discrete j pos) [
    | yes same ↦ at_boundary es e.key b (ground (arith, same, at))
    | no ne ↦
        let (c, there) = get_elem?-total es pos (omega (arith, h, get_elem?-bound es j at)) in
        elim (Bool-cases (key_lt b.key e.key)) [
          | inr above ↦ above
          | inl below ↦ absurd (
              cc (
                le_lt_trans c.key b.key e.key (sorted pos j c b (omega (arith, h, ne)) there at)
                    below,
                at_boundary es e.key c there,
              ))
        ]
  ]

  shifted-IsSorted :
      (es' : List LeafEntry) → ((j : ℕ) → get_elem? es' j ≡ shifted es pos e j) → IsSorted es'
  shifted-IsSorted es' reads i j a b lt at there = elim (dec_lt j pos) [
    | yes low ↦
        sorted i j a b lt (ground (arith, low, lt, at, reads i))
          (ground (arith, low, there, reads j))
    | no high ↦ elim (ℕ_discrete j pos) [
      | yes same ↦
          let was : get_elem? es i ≡ some a = ground (arith, same, lt, at, reads i) in
          let here : e ≡ b = ground (arith, same, there, reads j) in
          subst (λ (x : LeafEntry). key_lt x.key a.key ≡ false) here
            (lt_asym a.key e.key (in_front es e.key i a (omega (arith, same, lt)) was))
      | no ne ↦
          let later : get_elem? es (j - 1) ≡ some b = ground (arith, high, ne, there, reads j) in
          elim (ℕ_discrete i pos) [
            | yes same ↦
                let here : e ≡ a = ground (arith, same, at, reads i) in
                subst (λ (x : LeafEntry). key_lt b.key x.key ≡ false) here
                  (not_below (j - 1) b (omega (arith, high, ne)) later)
            | no other ↦ elim (dec_lt i pos) [
              | yes front ↦
                  sorted i (j - 1) a b (omega (arith, front, high, ne))
                    (ground (arith, front, at, reads i)) later
              | no back ↦
                  sorted (i - 1) (j - 1) a b (omega (arith, back, other, lt))
                    (ground (arith, back, other, at, reads i)) later
            ]
          ]
    ]
  ]

  -- Insertion into a sorted leaf never panics and leaves a sorted leaf: the entries that stood in front
  -- of the position stay, the new entry stands at it, and the others move on by one.
  pub insert_leaf_entry-IsSorted :
      (es' : List LeafEntry) × (p : ℕ) × (insert_leaf_entry es e ≡ some es')
      × IsSorted es'
      × (p ≤ length es)
      × ((j : ℕ) → get_elem? es' j ≡ shifted es p e j)
  unfolding insert_leaf_entry
  insert_leaf_entry-IsSorted =
      let (es', done, reads) = get_elem?-insert_at es pos e (entries_below-bound es e.key) in
      (es', pos, done, shifted-IsSorted es' reads, entries_below-bound es e.key, reads)
