-- ===== src/Txn/Manager/Scan/Reads.antt =====
-- What a scan returns for each TID, against reading that TID by itself.
use icedb.Storage.Page
use icedb.Storage.Tuple
use icedb.Base.{
  nat_key, zero, suc, [], ◌∷◌, none, some, inl, inr, ok, err, refl, arith, ◌≡◌, ◌+◌, ℕ, Option,
  List, Outcome, ◌++◌, if◌then◌else◌, Bool-cases, ◌==◌, ◌&&◌, leb, ltb, ap, map_err, ◌∙◌, ◌≤◌, sym,
  append-nil,
}
use icedb.Storage.Page.Inv.{IsValid}
use icedb.Txn.Snapshot.{Snapshot}
use icedb.Storage.Tuple.{Tuple, decode_from, Tid}
use icedb.Storage.Page.{Page, num_slots}
use icedb.Storage.Heap.Insert.{slot_tuple}
use icedb.Storage.Page.Delete.{delete_tuple_total}
use native.Mathlib.Decide.{ℕ_discrete}
use icedb.Txn.Manager.Scan.{scan_bytes, scan_slot, scan_slots, is_visible_to, push_found}
use icedb.Storage.Heap.{tuple_error}

-- All tuples that a scan's result has for a TID.
unfoldable pub found_at : ℕ → ℕ → List (Tid × Tuple) → List Tuple
found_at p q [] = []
found_at p q ((tid, t) ∷ found) =
    let rest = found_at p q found in if tid.page_no == p && (tid.slot == q) then t ∷ rest else rest

abbrev pub listed : Option Tuple → List Tuple
listed (some t) = t ∷ []
listed none = []

pub found_at-append :
    (p q : ℕ) (xs ys : List (Tid × Tuple))
    → found_at p q (xs ++ ys) ≡ found_at p q xs ++ found_at p q ys
unfolding found_at
found_at-append p q [] ys = refl
found_at-append p q ((tid, t) ∷ xs) ys = elim (Bool-cases (tid.page_no == p && (tid.slot == q))) [
  | inl here ↦ rw (found_at, here) (ap (λ ts. t ∷ ts) (found_at-append p q xs ys))
  | inr other ↦ rw (found_at, other) (found_at-append p q xs ys)
]

found_at-push :
    (p q : ℕ) (tid : Tid) (o : Option Tuple) (rest : List (Tid × Tuple))
    → found_at p q (push_found tid o rest) ≡ (
        if tid.page_no == p && (tid.slot == q)
        then listed o ++ found_at p q rest
        else found_at p q rest)
unfolding found_at
found_at-push p q tid none rest = ground arith
found_at-push p q tid (some t) rest = ground arith

module _ (xid : ℕ) (snapshot : Snapshot) (committed : List ℕ) where
  -- What the transaction sees of a tuple that was read.
  abbrev pub seen {ℓ} : {E : Type ℓ} → Outcome E Tuple → Option Tuple
  seen (ok t) = if is_visible_to xid snapshot committed t.header then some t else none
  seen (err e) = none
  seen Outcome.panic = none

  scan_bytes-eq :
      (bytes : List ℕ) → scan_bytes xid snapshot committed bytes ≡ seen (Tuple.decode bytes)
  unfolding scan_bytes decode_from Tuple.decode
  scan_bytes-eq bytes = ground arith

  abbrev pub shown : Page → ℕ → Option Tuple
  shown page slot = seen (slot_tuple page slot)

  seen-map_err {ℓ κ} :
      {E : Type ℓ} {F : Type κ} (f : E → F) (r : Outcome E Tuple) → seen (map_err f r) ≡ seen r
  seen-map_err f (ok t) = refl
  seen-map_err f (err e) = refl
  seen-map_err f Outcome.panic = refl

  scan_slot-eq :
      {page : Page}
      → IsValid page
      → (slot : ℕ) → scan_slot xid snapshot committed page slot ≡ ok (shown page slot)
  unfolding scan_slot
  scan_slot-eq v slot = elim (delete_tuple_total slot v) [
    | inl (bytes, q, got, done) ↦
        rw (got, scan_slot)
          (ap ok (scan_bytes-eq bytes ∙ sym (seen-map_err tuple_error (Tuple.decode bytes))))
    | inr (e, got, done) ↦ rw (got, scan_slot) refl
  ]

  module _ {page : Page} (v : IsValid page) (page_no : ℕ) where
    scan_slots-step :
        (rounds slot : ℕ) (rest : List (Tid × Tuple))
        → scan_slots rounds xid snapshot committed page page_no (slot + 1) ≡ ok rest
        → scan_slots (suc rounds) xid snapshot committed page page_no slot
          ≡ ok (push_found (record { page_no = page_no; slot = slot }) (shown page slot) rest)
    unfolding scan_slots
    scan_slots-step rounds slot rest e = rw (scan_slot-eq v slot, e, scan_slots) refl

    -- The slots from `slot` on, for `rounds` rounds.
    abbrev within : ℕ → ℕ → ℕ → ℕ → List Tuple
    within rounds slot p q =
        if p == page_no && (leb slot q && ltb q (slot + rounds)) then listed (shown page q) else []

    within-step :
        (rounds slot p q : ℕ) (rest : List (Tid × Tuple))
        → found_at p q rest ≡ within rounds (slot + 1) p q
        → found_at p q
            (push_found (record { page_no = page_no; slot = slot }) (shown page slot) rest)
          ≡ within (suc rounds) slot p q
    within-step rounds slot p q rest e = elim (ℕ_discrete q slot) [
      | yes same ↦ ground (
        arith,
        e,
        same,
        found_at-push p q (record { page_no = page_no; slot = slot }) (shown page slot) rest,
        append-nil (listed (shown page slot)),
        ap (shown page) same,
      )
      | no ne ↦ ground (
        arith,
        e,
        ne,
        found_at-push p q (record { page_no = page_no; slot = slot }) (shown page slot) rest,
      )
    ]

    scan_slots-found :
        (rounds slot : ℕ)
        → (xs : List (Tid × Tuple)) × (scan_slots rounds xid snapshot committed page page_no slot
            ≡ ok xs)
          × ((p q : ℕ) → found_at p q xs ≡ within rounds slot p q)
    scan_slots-found zero slot =
        ([], unfold scan_slots in refl, λ p q. unfold found_at in ground arith)
    scan_slots-found (suc rounds) slot =
        let (rest, e, reads) = scan_slots-found rounds (slot + 1) in
        (
          push_found (record { page_no = page_no; slot = slot }) (shown page slot) rest,
          scan_slots-step rounds slot rest e,
          λ p q. within-step rounds slot p q rest (reads p q),
        )

    shown_out : (q : ℕ) → num_slots page ≤ q → shown page q ≡ none
    unfolding Page.get_tuple
    shown_out q out = ground arith

    -- All slots of the page.
    pub page_found :
        (xs : List (Tid × Tuple)) × (scan_slots
            (num_slots page)
            xid
            snapshot
            committed
            page
            page_no
            0
          ≡ ok xs)
        × ((p q : ℕ) → found_at p q xs ≡ (if p == page_no then listed (shown page q) else []))
    page_found =
        let (xs, e, reads) = scan_slots-found (num_slots page) 0 in
        (xs, e, λ p q. ground (arith, reads p q, shown_out q))
