-- ===== src/Btree/Tree/Entries.antt =====
-- What the operations of crates/btree/src/tree.rs do to the entries of one leaf, as a map from keys to
-- tuple ids.
use icedb.Btree.Node.{LeafEntry, key_lt, Found, found_at, missing, find_key, index_panic}
use icedb.Btree.Node.Lookup.{
  IsAscending, tid_for, same_key, IsAscending-IsSorted, tid_for-absent, tid_for-get_elem?,
  gt_not_same, same_key_sound, lt_not_same,
}
use icedb.Btree.Node.Search.{Answers, find_key-Answers}
use icedb.Btree.Codec.{BtreeError, key_not_found, duplicate_key}
use icedb.Btree.Tree.Search.{answer}
use icedb.Btree.Tree.Update.{remove, reject_duplicate, found_index}
use icedb.Base.{
  nat_key, zero, suc, [], ◌∷◌, none, some, true, false, inl, inr, ok, err, refl, arith, ◌≡◌, Option,
  List, ℕ, Outcome, ◌∙◌, subst, All, get_elem?, if◌then◌else◌, ap, Bool-cases, All-get_elem?,
}
use icedb.Storage.Tuple.{Tid}

abbrev pub outcome_of : Option Tid → Outcome BtreeError Tid
outcome_of none = err key_not_found
outcome_of (some t) = ok t

module _ (es : List LeafEntry) (key : List ℕ) (s : IsAscending es) where
  found-tid_for :
      (i : ℕ) (e : LeafEntry) → get_elem? es i ≡ some e → e.key ≡ key → tid_for es key ≡ some e.tid
  found-tid_for i e at same =
      subst (λ (k : List ℕ). tid_for es k ≡ some e.tid) same (tid_for-get_elem? es i e s at)

  answer-Answers : (f : Found) → Answers es key f → answer es f ≡ outcome_of (tid_for es key)
  answer-Answers (found_at i) (e, at, same) = rw (at, found-tid_for i e at same) refl
  answer-Answers missing h = rw (tid_for-absent es key h) refl
  answer-Answers index_panic h = absurd h
  answer-Answers Found.out_of_fuel h = absurd h

  abbrev check_of : Option Tid → Outcome BtreeError (Unit {0})
  check_of none = ok tt
  check_of (some t) = err duplicate_key

  check-Answers : (f : Found) → Answers es key f → reject_duplicate f ≡ check_of (tid_for es key)
  check-Answers (found_at i) (e, at, same) = rw (found-tid_for i e at same) refl
  check-Answers missing h = rw (tid_for-absent es key h) refl
  check-Answers index_panic h = absurd h
  check-Answers Found.out_of_fuel h = absurd h

  -- Where a search finds a key: the entry's index.
  Located : Option Tid → Outcome BtreeError ℕ → Type 0
  Located none o = o ≡ err key_not_found
  Located (some t) o =
      (i : ℕ) × (e : LeafEntry) × (o ≡ ok i) × (get_elem? es i ≡ some e) × (e.key ≡ key)

  index-Answers : (f : Found) → Answers es key f → Located (tid_for es key) (found_index f)
  unfolding Located
  index-Answers (found_at i) (e, at, same) = rw (found-tid_for i e at same) (i, e, refl, at, same)
  index-Answers missing h = rw (tid_for-absent es key h) refl
  index-Answers index_panic h = absurd h
  index-Answers Found.out_of_fuel h = absurd h

  answers : Answers es key (find_key es key)
  answers = find_key-Answers es key (IsAscending-IsSorted es s)

  -- The binary search of an ordered leaf looks the key up.
  pub answer-find_key : answer es (find_key es key) ≡ outcome_of (tid_for es key)
  answer-find_key = answer-Answers (find_key es key) answers

  pub check-absent : tid_for es key ≡ none → reject_duplicate (find_key es key) ≡ ok tt
  check-absent h = check-Answers (find_key es key) answers ∙ ap check_of h

  pub check-present :
      (t : Tid) → tid_for es key ≡ some t → reject_duplicate (find_key es key) ≡ err duplicate_key
  check-present t h = check-Answers (find_key es key) answers ∙ ap check_of h

  pub index-present :
      (t : Tid)
      → tid_for es key ≡ some t
      → (i : ℕ) × (e : LeafEntry) × (found_index (find_key es key) ≡ ok i)
        × (get_elem? es i ≡ some e)
        × (e.key ≡ key)
  unfolding Located
  index-present t h =
      subst (λ (o : Option Tid). Located o (found_index (find_key es key))) h
        (index-Answers (find_key es key) answers)

  pub index-absent : tid_for es key ≡ none → found_index (find_key es key) ≡ err key_not_found
  unfolding Located
  index-absent h =
      subst (λ (o : Option Tid). Located o (found_index (find_key es key))) h
        (index-Answers (find_key es key) answers)

All-remove : (P : LeafEntry → Type 0) (es : List LeafEntry) (i : ℕ) → All P es → All P (remove es i)
All-remove P [] i h = tt
All-remove P (x ∷ es) zero h = h.1
All-remove P (x ∷ es) (suc i) h = (h.0, All-remove P es i h.1)

pub remove-IsAscending : (es : List LeafEntry) (i : ℕ) → IsAscending es → IsAscending (remove es i)
remove-IsAscending [] i s = tt
remove-IsAscending (x ∷ es) zero s = s.1
remove-IsAscending (x ∷ es) (suc i) s =
    (All-remove (λ b. key_lt x.key b.key ≡ true) es i s.0, remove-IsAscending es i s.1)

absent_above :
    (key : List ℕ) (es : List LeafEntry)
    → All (λ b. key_lt key b.key ≡ true) es
    → tid_for es key ≡ none
unfolding tid_for
absent_above key [] h = refl
absent_above key (x ∷ es) h =
    let differ : same_key x.key key ≡ false = gt_not_same x.key key h.0 in
    rw differ (absent_above key es h.1)

-- Behind an entry its key does not occur again.
tid_for_behind :
    (x : LeafEntry) (es : List LeafEntry) (key : List ℕ)
    → IsAscending (x ∷ es)
    → tid_for es key ≡ (if same_key x.key key then none else tid_for (x ∷ es) key)
unfolding tid_for
tid_for_behind x es key s = elim (Bool-cases (same_key x.key key)) [
  | inr differ ↦ rw differ refl
  | inl same ↦ rw same (
      subst (λ (k : List ℕ). tid_for es k ≡ none) (same_key_sound x.key key same)
        (absent_above x.key es s.0))
]

-- Without the entry at an index, its key is gone and the others keep their tuple ids.
pub tid_for-remove :
    (es : List LeafEntry) (i : ℕ) (e : LeafEntry) (key : List ℕ)
    → IsAscending es
    → get_elem? es i ≡ some e
    → tid_for (remove es i) key ≡ (if same_key e.key key then none else tid_for es key)
unfolding tid_for
tid_for-remove [] i e key s at = absurd (ground (arith, at))
tid_for-remove (x ∷ es) zero e key s at =
    let same : x ≡ e = ground (arith, at) in
    subst
      (λ (y : LeafEntry).
        tid_for es key ≡ (if same_key y.key key then none else tid_for (x ∷ es) key))
      same (tid_for_behind x es key s)
tid_for-remove (x ∷ es) (suc i) e key s at = elim (Bool-cases (same_key e.key key)) [
  | inr differ ↦ rw differ (ground (arith, tid_for-remove es i e key s.1 at, differ))
  | inl same ↦
      let below = All-get_elem? (λ (b : LeafEntry). key_lt x.key b.key ≡ true) es i s.0 at in
      let differ : same_key x.key key ≡ false =
        subst (λ (k : List ℕ). same_key x.key k ≡ false) (same_key_sound e.key key same)
          (lt_not_same x.key e.key below) in
      rw (differ, same) (tid_for-remove es i e key s.1 at ∙ rw same refl)
]
