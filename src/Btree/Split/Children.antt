-- ===== src/Btree/Split/Children.antt =====
-- Which child a key leads to, in a node and in the halves of a split.
use icedb.Btree.Node.{key_lt}
use icedb.Btree.Codec.{BtreeError, BtreeNode, InternalEntry}
use icedb.Btree.Split.{
  find_child, entries_up_to, SplitNodes, split_internal, child_at, split_internal_at,
}
use icedb.Base.{
  nat_key, zero, suc, [], ◌∷◌, true, false, inl, inr, ok, refl, arith, ◌≡◌, List, ℕ, if◌then◌else◌,
  get_elem?, ◌≤◌, All, Bool-cases, length, ◌++◌, min, ◌-◌, take, drop, ap, Outcome, ◌<◌, ◌/◌,
  length-take, sym, length-drop, ◌∙◌, subst,
}
use icedb.Btree.Node.Order.{le_trans}

-- No separator stands behind a greater one.
abbrev pub IsOrdered : List InternalEntry → Type 0
IsOrdered [] = Unit {0}
IsOrdered (e ∷ es) = All (λ b. key_lt b.key e.key ≡ false) es × IsOrdered es

-- The child of the last entry in front whose separator is at most the key.
unfoldable pub last_child : ℕ → List InternalEntry → List ℕ → ℕ
last_child d [] key = d
last_child d (e ∷ es) key =
    let rest = last_child e.child_page es key in if key_lt key e.key then d else rest

entries_up_to-bound : (es : List InternalEntry) (key : List ℕ) → entries_up_to es key ≤ length es
unfolding entries_up_to
entries_up_to-bound [] key = omega arith
entries_up_to-bound (e ∷ es) key = ground (arith, entries_up_to-bound es key)

child_at-entries_up_to :
    (e : InternalEntry) (es : List InternalEntry) (key : List ℕ)
    → child_at (get_elem? (e ∷ es) (entries_up_to es key)) ≡ ok (last_child e.child_page es key)
unfolding entries_up_to last_child
child_at-entries_up_to e [] key = refl
child_at-entries_up_to e (f ∷ es) key = elim (Bool-cases (key_lt key f.key)) [
  | inl above ↦ rw (above) refl
  | inr other ↦ rw (other) (child_at-entries_up_to f es key)
]

chosen_index :
    (e : InternalEntry) (es : List InternalEntry) (key : List ℕ)
    → min (entries_up_to (e ∷ es) key - 1) (length (e ∷ es) - 1)
      ≡ (if key_lt key e.key then 0 else entries_up_to es key)
unfolding entries_up_to
chosen_index e es key = ground (arith, entries_up_to-bound es key)

pub find_child-last_child :
    (e : InternalEntry) (es : List InternalEntry) (key : List ℕ)
    → find_child (e ∷ es) key ≡ ok (last_child e.child_page (e ∷ es) key)
unfolding find_child last_child
find_child-last_child e es key = elim (Bool-cases (key_lt key e.key)) [
  | inl above ↦ rw (chosen_index e es key, above) refl
  | inr other ↦ rw (chosen_index e es key, other) (child_at-entries_up_to e es key)
]

-- A key below a separator stops there, whatever follows.
last_child-append_below :
    (d : ℕ) (xs : List InternalEntry) (p : InternalEntry) (ys : List InternalEntry) (key : List ℕ)
    → key_lt key p.key ≡ true
    → last_child d (xs ++ (p ∷ ys)) key ≡ last_child d xs key
unfolding last_child
last_child-append_below d [] p ys key h = rw h refl
last_child-append_below d (x ∷ xs) p ys key h =
    ground (arith, last_child-append_below x.child_page xs p ys key h)

IsBelow : List InternalEntry → InternalEntry → Type 0
IsBelow xs p = All (λ x. key_lt p.key x.key ≡ false) xs

-- Any other key passes all entries up to the separator.
last_child-append_above :
    (d : ℕ) (xs : List InternalEntry) (p : InternalEntry) (ys : List InternalEntry) (key : List ℕ)
    → IsBelow xs p
    → key_lt key p.key ≡ false
    → last_child d (xs ++ (p ∷ ys)) key ≡ last_child p.child_page ys key
unfolding last_child IsBelow
last_child-append_above d [] p ys key b h = rw h refl
last_child-append_above d (x ∷ xs) p ys key b h =
    let passed : key_lt key x.key ≡ false = le_trans x.key p.key key b.0 h in
    rw passed (last_child-append_above x.child_page xs p ys key b.1 h)

All-middle {ℓ κ} :
    {A : Type ℓ} (P : A → Type κ) (xs : List A) (p : A) (ys : List A) → All P (xs ++ (p ∷ ys)) → P p
All-middle P [] p ys h = h.0
All-middle P (x ∷ xs) p ys h = All-middle P xs p ys h.1

IsOrdered-front :
    (xs : List InternalEntry) (p : InternalEntry) (ys : List InternalEntry)
    → IsOrdered (xs ++ (p ∷ ys))
    → IsBelow xs p
unfolding IsBelow
IsOrdered-front [] p ys o = tt
IsOrdered-front (x ∷ xs) p ys o =
    (All-middle (λ b. key_lt b.key x.key ≡ false) xs p ys o.0, IsOrdered-front xs p ys o.1)

nil_least : (key : List ℕ) → key_lt key [] ≡ false
unfolding key_lt
nil_least [] = refl
nil_least (b ∷ bs) = refl

take-drop {ℓ} : {A : Type ℓ} (n : ℕ) (xs : List A) → take n xs ++ drop n xs ≡ xs
take-drop zero xs = refl
take-drop (suc n) [] = refl
take-drop (suc n) (x ∷ xs) = ap (λ ys. x ∷ ys) (take-drop n xs)

-- The child for a key by two nodes that part at a key.
abbrev pub child_of_halves :
    List InternalEntry → List InternalEntry → List ℕ → List ℕ → Outcome BtreeError ℕ
child_of_halves left right middle key =
    if key_lt key middle then find_child left key else find_child right key

find_child-halves :
    (e : InternalEntry) (front : List InternalEntry) (p : InternalEntry) (ys : List InternalEntry)
    → IsOrdered (e ∷ (front ++ (p ∷ ys)))
    → (key : List ℕ)
    → find_child (e ∷ (front ++ (p ∷ ys))) key
      ≡ child_of_halves (e ∷ front) (record { key = []; child_page = p.child_page } ∷ ys) p.key key
find_child-halves e front p ys o key = elim (Bool-cases (key_lt key p.key)) [
  | inl below ↦
      rw
        (
          below,
          find_child-last_child e (front ++ (p ∷ ys)) key,
          find_child-last_child e front key,
          last_child-append_below e.child_page (e ∷ front) p ys key below,
        )
        refl
  | inr above ↦
      let first : InternalEntry = record { key = []; child_page = p.child_page } in
      let start : last_child p.child_page (first ∷ ys) key ≡ last_child p.child_page ys key =
        unfold last_child in rw (nil_least key) refl in
      rw
        (
          above,
          find_child-last_child e (front ++ (p ∷ ys)) key,
          find_child-last_child first ys key,
          last_child-append_above e.child_page (e ∷ front) p ys key
              (IsOrdered-front (e ∷ front) p ys o) above,
          start,
        )
        refl
]

module _ (n : BtreeNode) (ordered : IsOrdered n.internal_entries) where
  split_internal_at-children :
      (front back : List InternalEntry)
      → front ++ back ≡ n.internal_entries
      → 0 < length front
      → 0 < length back
      → (s : SplitNodes) × (split_internal_at n front back ≡ ok s)
        × ((key : List ℕ)
            → find_child n.internal_entries key
              ≡ child_of_halves s.left.internal_entries s.right.internal_entries s.middle_key key)
  split_internal_at-children [] back e h k = absurd (omega arith)
  split_internal_at-children (x ∷ front) [] e h k = absurd (omega arith)
  split_internal_at-children (x ∷ front) (p ∷ ys) e h k = (
    _,
    refl,
    λ key.
        ap (λ (es : List InternalEntry). find_child es key) (sym e)
        ∙ find_child-halves x front p ys (subst IsOrdered (sym e) ordered) key,
  )

  -- A node with at least two ordered entries is split without a panic, and every key leads to the
  -- same child through the two halves, parted at the promoted key, as through the whole node.
  pub split_internal-children :
      2 ≤ length n.internal_entries
      → (s : SplitNodes) × (split_internal n ≡ ok s)
        × ((key : List ℕ)
            → find_child n.internal_entries key
              ≡ child_of_halves s.left.internal_entries s.right.internal_entries s.middle_key key)
  unfolding split_internal
  split_internal-children many =
      let mid = length n.internal_entries / 2 in
      split_internal_at-children (take mid n.internal_entries) (drop mid n.internal_entries)
        (take-drop mid n.internal_entries) (omega (arith, length-take mid n.internal_entries))
        (omega (arith, length-drop mid n.internal_entries))
