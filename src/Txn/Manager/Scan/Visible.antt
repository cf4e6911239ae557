-- ===== src/Txn/Manager/Scan/Visible.antt =====
-- A scan of a sound heap file returns, for each TID, what reading that TID and the visibility test
-- give.
use icedb.Storage.Heap
use icedb.Base.{
  nat_key, zero, suc, [], none, ok, refl, arith, ◌≡◌, ◌+◌, ℕ, List, ◌≤◌, length, Option,
  if◌then◌else◌, ◌==◌, leb, ◌++◌, ◌&&◌, ltb, ◌∙◌, ap, Outcome, ◌∷◌, inl, inr, err, subst,
  append-nil, sym, ◌⊎◌, Bool-cases,
}
use icedb.Txn.Snapshot.{Snapshot}
use icedb.Storage.Tuple.{Tuple, Tid}
use icedb.Storage.Page.{Page, num_slots}
use icedb.Storage.Heap.Pages.{IsSound, num_pages-eq, read_page_total}
use native.Mathlib.Decide.{ℕ_discrete}
use icedb.Storage.Heap.{read_page, HeapFile, num_pages, HeapError}
use icedb.Txn.Manager.Scan.{scan_visible_tuples, scan_pages, scan_slots, track_reads, is_visible_to}
use icedb.Txn.Manager.{Manager, current_snapshot}
use icedb.Txn.Manager.Scan.Reads.{seen, found_at, page_found, shown, found_at-append, listed}
use icedb.Storage.Heap.Insert.{get_tuple-at}
use icedb.Txn.Manager.Scan.Rule.{Sees, is_visible_to-Sees}

module _ (xid : ℕ) (snapshot : Snapshot) (committed : List ℕ) (h : HeapFile) (v : IsSound h) where
  abbrev seen_at : ℕ → ℕ → Option Tuple
  seen_at p q = seen xid snapshot committed (Heap.get_tuple h (record { page_no = p; slot = q }))

  abbrev from_page : ℕ → ℕ → ℕ → ℕ → List Tuple
  from_page rounds page_no p q =
      if leb page_no p && ltb p (page_no + rounds) then listed (seen_at p q) else []

  scan_pages-step :
      (rounds page_no : ℕ) (page : Page) (here rest : List (Tid × Tuple))
      → read_page h page_no ≡ ok page
      → scan_slots (num_slots page) xid snapshot committed page page_no 0 ≡ ok here
      → scan_pages rounds xid snapshot committed h (page_no + 1) ≡ ok rest
      → scan_pages (suc rounds) xid snapshot committed h page_no ≡ ok (here ++ rest)
  unfolding scan_pages
  scan_pages-step rounds page_no page here rest r s e = rw (r, s, e, scan_pages) refl

  from_page-step :
      (rounds page_no p q : ℕ) (page : Page) (here rest : List (Tid × Tuple))
      → read_page h page_no ≡ ok page
      → found_at p q here
        ≡ (if p == page_no then listed (shown xid snapshot committed page q) else [])
      → found_at p q rest ≡ from_page rounds (page_no + 1) p q
      → found_at p q (here ++ rest) ≡ from_page (suc rounds) page_no p q
  from_page-step rounds page_no p q page here rest r s e =
      found_at-append p q here rest ∙ elim (ℕ_discrete p page_no) [
        | yes same ↦
            let tid : Tid = record { page_no = p; slot = q } in
            let there : seen_at p q ≡ shown xid snapshot committed page q =
              ap (λ (o : Outcome HeapError Tuple). seen xid snapshot committed o)
                (get_tuple-at h tid page (rw same r)) in
            ground (arith, s, e, same, there, append-nil (listed (seen_at p q)))
        | no ne ↦ ground (arith, s, e, ne)
      ]

  scan_pages-found :
      (rounds page_no : ℕ)
      → page_no + rounds ≤ length h.pages
      → (xs : List (Tid × Tuple)) × (scan_pages rounds xid snapshot committed h page_no ≡ ok xs)
        × ((p q : ℕ) → found_at p q xs ≡ from_page rounds page_no p q)
  scan_pages-found zero page_no below =
      ([], unfold scan_pages in refl, λ p q. unfold found_at in ground arith)
  scan_pages-found (suc rounds) page_no below =
      let (page, r, stamped) = read_page_total v page_no (omega (arith, below)) in
      let (here, s, reads) = page_found xid snapshot committed stamped.valid page_no in
      let (rest, e, later) = scan_pages-found rounds (page_no + 1) (omega (arith, below)) in
      (
        here ++ rest,
        scan_pages-step rounds page_no page here rest r s e,
        λ p q. from_page-step rounds page_no p q page here rest r (reads p q) (later p q),
      )

  seen_out : (p q : ℕ) → length h.pages ≤ p → seen_at p q ≡ none
  unfolding Heap.get_tuple read_page
  seen_out p q out = ground (arith, num_pages-eq v)

-- Where a TID cannot be read or its tuple is not visible, the result has no tuple for it, else this one.
abbrev pub ReadsAs : ℕ → Snapshot → List ℕ → Outcome HeapError Tuple → List Tuple → Type 0
ReadsAs xid snapshot committed r ts =
    ((t : Tuple) × (r ≡ ok t) × Sees xid snapshot committed t.header × (ts ≡ t ∷ []))
    ⊎ ((ts ≡ []) × ((t : Tuple) → r ≡ ok t → ¬ Sees xid snapshot committed t.header))

tuple_or : Tuple → Outcome HeapError Tuple → Tuple
tuple_or t (ok u) = u
tuple_or t r = t

seen-ReadsAs :
    (xid : ℕ) (snapshot : Snapshot) (committed : List ℕ) (r : Outcome HeapError Tuple)
    → ReadsAs xid snapshot committed r (listed (seen xid snapshot committed r))
unfolding tuple_or
seen-ReadsAs xid snapshot committed (ok t) =
    let (sound, complete) = is_visible_to-Sees xid snapshot committed t.header in
    elim (Bool-cases (is_visible_to xid snapshot committed t.header)) [
      | inl e ↦ inl (t, refl, sound e, rw e refl)
      | inr e ↦ inr (
        rw e refl,
        λ u q sees.
            let shown_anyway = complete (
              subst (λ (v : Tuple). Sees xid snapshot committed v.header) (sym (ap (tuple_or t) q))
                sees) in
            absurd (ground (arith, e, shown_anyway)),
      )
    ]
seen-ReadsAs xid snapshot committed (err e) = inr (refl, λ t q. absurd (ground (arith, q)))
seen-ReadsAs xid snapshot committed Outcome.panic = inr (refl, λ t q. absurd (ground (arith, q)))

-- On a sound file a scan succeeds, and its result has, for each TID, just one entry with the tuple
-- that `get_tuple` of the heap file reads there, if the transaction sees it, and no entry if it does
-- not. It sees its own version that it has not deleted, and a version of a transaction that has
-- committed and had ended when the snapshot was taken, unless such a transaction, or itself, has
-- deleted it.
pub scan_visible_tuples-found :
    (m : Manager) (xid : ℕ) (h : HeapFile)
    → IsSound h
    → (found : List (Tid × Tuple)) × (m' : Manager) × (scan_visible_tuples m xid h ≡ (ok found, m'))
      × ((tid : Tid)
          → ReadsAs xid
              (current_snapshot m xid)
              m.committed
              (Heap.get_tuple h tid)
              (found_at tid.page_no tid.slot found))
unfolding scan_visible_tuples
scan_visible_tuples-found m xid h v =
    let s = current_snapshot m xid in
    let (found, e, reads) =
      scan_pages-found xid s m.committed h v (num_pages h) 0 (omega (arith, num_pages-eq v)) in
    (
      found,
      record m { active = track_reads m.active xid found },
      rw e refl,
      λ tid.
          let same : found_at tid.page_no tid.slot found
              ≡ listed (seen xid s m.committed (Heap.get_tuple h tid)) =
            ground (
              arith,
              reads tid.page_no tid.slot,
              num_pages-eq v,
              seen_out xid s m.committed h v tid.page_no tid.slot,
            ) in
          subst (ReadsAs xid s m.committed (Heap.get_tuple h tid)) (sym same)
            (seen-ReadsAs xid s m.committed (Heap.get_tuple h tid)),
    )
