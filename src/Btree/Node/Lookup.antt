-- ===== src/Btree/Node/Lookup.antt =====
-- The entries of a leaf as a map from keys to tuple ids.
use icedb.Btree.Node.{LeafEntry, key_lt, insert_leaf_entry, entries_below, insert_at, push_front}
use icedb.Btree.Node.Search.{IsSorted}
use icedb.Base.{
  nat_key, zero, suc, [], ◌∷◌, none, some, true, false, inl, inr, refl, arith, ◌≡◌, List, ℕ,
  if◌then◌else◌, All, ◌≢◌, Option, Bool-cases, Bool, ap, not, ◌&&◌, ◌<◌, get_elem?, subst,
  All-get_elem?, ◌∙◌,
}
use icedb.Btree.Node.Order.{lt_irrefl, lt_trans, lt_total, lt_asym}
use icedb.Storage.Tuple.{Tid}

-- Every key is below those behind it.
abbrev pub IsAscending : List LeafEntry → Type 0
IsAscending [] = Unit {0}
IsAscending (e ∷ es) = All (λ b. key_lt e.key b.key ≡ true) es × IsAscending es

unfoldable pub same_key : List ℕ → List ℕ → Bool
same_key a b = not (key_lt a b) && not (key_lt b a)

unfoldable pub tid_for : List LeafEntry → List ℕ → Option Tid
tid_for [] key = none
tid_for (e ∷ es) key = let rest = tid_for es key in if same_key e.key key then some e.tid else rest

pub same_key_refl : (a : List ℕ) → same_key a a ≡ true
unfolding same_key
same_key_refl a = rw (lt_irrefl a) refl

pub same_key_sound : (a b : List ℕ) → same_key a b ≡ true → a ≡ b
unfolding same_key
same_key_sound a b h = lt_total a b (ground arith) (ground arith)

pub not_same_key : (a b : List ℕ) → a ≢ b → same_key a b ≡ false
not_same_key a b ne = elim (Bool-cases (same_key a b)) [
  | inr differ ↦ differ
  | inl same ↦ absurd (ne (same_key_sound a b same))
]

pub lt_not_same : (a b : List ℕ) → key_lt a b ≡ true → same_key a b ≡ false
unfolding same_key
lt_not_same a b h = rw h refl

pub gt_not_same : (a b : List ℕ) → key_lt b a ≡ true → same_key a b ≡ false
unfolding same_key
gt_not_same a b h = ground arith

pub not_same_lt : (a b : List ℕ) → same_key a b ≡ false → key_lt a b ≡ false → key_lt b a ≡ true
unfolding same_key
not_same_lt a b h k = ground arith

-- Where the key of a new entry goes, by recursion.
unfoldable pub place : List LeafEntry → LeafEntry → List LeafEntry
place [] e = e ∷ []
place (x ∷ es) e = let later = place es e in if key_lt x.key e.key then x ∷ later else e ∷ x ∷ es

pub insert_leaf_entry-place :
    (es : List LeafEntry) (e : LeafEntry) → insert_leaf_entry es e ≡ some (place es e)
unfolding insert_leaf_entry place entries_below insert_at
insert_leaf_entry-place [] e = refl
insert_leaf_entry-place (x ∷ es) e = elim (Bool-cases (key_lt x.key e.key)) [
  | inl below ↦ rw (below) (ap (push_front x) (insert_leaf_entry-place es e))
  | inr other ↦ rw (other) refl
]

pub tid_for-place :
    (es : List LeafEntry) (e : LeafEntry) (key : List ℕ)
    → tid_for (place es e) key ≡ (if same_key e.key key then some e.tid else tid_for es key)
unfolding tid_for place
tid_for-place [] e key = refl
tid_for-place (x ∷ es) e key = elim (Bool-cases (key_lt x.key e.key)) [
  | inr other ↦ rw (other) refl
  | inl below ↦ elim (Bool-cases (same_key e.key key)) [
    | inr differ ↦ rw (below, differ) (ground (arith, tid_for-place es e key, differ))
    | inl same ↦
        let differ : same_key x.key key ≡ false =
          subst (λ (k : List ℕ). same_key x.key k ≡ false) (same_key_sound e.key key same)
            (lt_not_same x.key e.key below) in
        rw (below, differ, same) (tid_for-place es e key ∙ rw same refl)
  ]
]

pub tail_absent :
    (x : LeafEntry) (es : List LeafEntry) (key : List ℕ)
    → tid_for (x ∷ es) key ≡ none
    → (same_key x.key key ≡ false) × (tid_for es key ≡ none)
unfolding tid_for
tail_absent x es key h = ground arith

pub All-place :
    (P : LeafEntry → Type 0) (es : List LeafEntry) (e : LeafEntry)
    → All P es
    → P e
    → All P (place es e)
unfolding place
All-place P [] e h k = (k, tt)
All-place P (x ∷ es) e h k = elim (Bool-cases (key_lt x.key e.key)) [
  | inl below ↦ rw (below) (h.0, All-place P es e h.1 k)
  | inr other ↦ rw (other) (k, h)
]

pub All-below :
    (a b : List ℕ) (es : List LeafEntry)
    → key_lt a b ≡ true
    → All (λ x. key_lt b x.key ≡ true) es
    → All (λ x. key_lt a x.key ≡ true) es
All-below a b [] h k = tt
All-below a b (x ∷ es) h k = (lt_trans a b x.key h k.0, All-below a b es h k.1)

-- A new key keeps the order.
pub place-IsAscending :
    (es : List LeafEntry) (e : LeafEntry)
    → IsAscending es
    → tid_for es e.key ≡ none
    → IsAscending (place es e)
unfolding place
place-IsAscending [] e a h = (tt, tt)
place-IsAscending (x ∷ es) e a h = elim (Bool-cases (key_lt x.key e.key)) [
  | inl below ↦ rw (below) (
    All-place (λ b. key_lt x.key b.key ≡ true) es e a.0 below,
    place-IsAscending es e a.1 (tail_absent x es e.key h).1,
  )
  | inr other ↦
      let above : key_lt e.key x.key ≡ true =
        not_same_lt x.key e.key (tail_absent x es e.key h).0 other in
      rw (other) ((above, All-below e.key x.key es above a.0), a)
]

IsAscending-get_elem? :
    (es : List LeafEntry) (i j : ℕ) (a b : LeafEntry)
    → IsAscending es
    → i < j
    → get_elem? es i ≡ some a
    → get_elem? es j ≡ some b
    → key_lt a.key b.key ≡ true
IsAscending-get_elem? [] i j a b s h at there = absurd (ground (arith, at))
IsAscending-get_elem? (x ∷ es) zero zero a b s h at there = absurd (omega arith)
IsAscending-get_elem? (x ∷ es) zero (suc j) a b s h at there =
    let same : x ≡ a = ground (arith, at) in
    subst (λ (e : LeafEntry). key_lt e.key b.key ≡ true) same
      (All-get_elem? (λ (e : LeafEntry). key_lt x.key e.key ≡ true) es j s.0 there)
IsAscending-get_elem? (x ∷ es) (suc i) zero a b s h at there = absurd (omega arith)
IsAscending-get_elem? (x ∷ es) (suc i) (suc j) a b s h at there =
    IsAscending-get_elem? es i j a b s.1 (omega arith) at there

pub IsAscending-IsSorted : (es : List LeafEntry) → IsAscending es → IsSorted es
IsAscending-IsSorted es s i j a b h at there =
    lt_asym a.key b.key (IsAscending-get_elem? es i j a b s h at there)

pub tid_for-get_elem? :
    (es : List LeafEntry) (i : ℕ) (e : LeafEntry)
    → IsAscending es
    → get_elem? es i ≡ some e
    → tid_for es e.key ≡ some e.tid
unfolding tid_for
tid_for-get_elem? [] i e s at = absurd (ground (arith, at))
tid_for-get_elem? (x ∷ es) zero e s at =
    let same : x ≡ e = ground (arith, at) in
    subst (λ (y : LeafEntry). tid_for (x ∷ es) y.key ≡ some y.tid) same
      (unfold tid_for in rw (same_key_refl x.key) refl)
tid_for-get_elem? (x ∷ es) (suc i) e s at =
    let below = All-get_elem? (λ (y : LeafEntry). key_lt x.key y.key ≡ true) es i s.0 at in
    rw (lt_not_same x.key e.key below) (tid_for-get_elem? es i e s.1 at)

pub tid_for-absent :
    (es : List LeafEntry) (key : List ℕ)
    → ((j : ℕ) (e : LeafEntry) → get_elem? es j ≡ some e → e.key ≢ key)
    → tid_for es key ≡ none
unfolding tid_for
tid_for-absent [] key h = refl
tid_for-absent (x ∷ es) key h =
    rw (not_same_key x.key key (h 0 x refl)) (tid_for-absent es key (λ j e at. h (suc j) e at))
