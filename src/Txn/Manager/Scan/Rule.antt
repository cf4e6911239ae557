-- ===== src/Txn/Manager/Scan/Rule.antt =====
-- Which tuple versions a scan shows, as a rule on the transactions that wrote them.
use icedb.Txn.Snapshot.{Snapshot, is_tuple_visible, xid_is_visible}
use icedb.Txn.Manager.Scan.{is_visible_to}
use icedb.Txn.Xid.{invalid_xid}
use icedb.Storage.Tuple.{TupleHeader}
use icedb.Base.{
  nat_key, true, false, inl, inr, arith, ◌≡◌, ℕ, List, contains, ◌↔◌, ◌≢◌, ◌⊎◌, ◌<◌, ◌&&◌,
  Bool-cases,
}
use native.Mathlib.Decide.{dec_lt, ℕ_discrete}

-- A transaction that has committed, and had ended when the snapshot was taken.
abbrev pub IsPast : Snapshot → List ℕ → ℕ → Type 0
IsPast s committed x =
    (contains committed x ≡ true)
    × (x ≢ invalid_xid)
    × ((x < s.xmin) ⊎ ((x < s.xmax) × (contains s.in_progress x ≡ false)))

-- The reader's own version that it has not deleted itself, or a version of the past that no
-- transaction of the past, nor the reader, has deleted.
abbrev pub Sees : ℕ → Snapshot → List ℕ → TupleHeader → Type 0
Sees xid s committed h =
    (h.t_xmax ≢ xid)
    × ((h.t_xmin ≡ xid)
        ⊎ (IsPast s committed h.t_xmin
            × ((h.t_xmax ≡ invalid_xid) ⊎ (¬ IsPast s committed h.t_xmax))))

xid_is_visible-IsPast :
    (s : Snapshot) (committed : List ℕ) (x : ℕ)
    → (contains committed x && xid_is_visible s x ≡ true) ↔ IsPast s committed x
unfolding xid_is_visible
xid_is_visible-IsPast s committed x = (
  λ h. (
    ground (arith, h),
    λ e. absurd (ground (arith, h, e)),
    elim (dec_lt x s.xmin) [
      | yes before ↦ inl before
      | no later ↦ inr (ground (arith, h, later), ground (arith, h, later))
    ],
  ),
  λ (done, real, past). elim past [
    | inl before ↦ ground (arith, done, real, before)
    | inr (below, out) ↦ ground (arith, done, real, below, out)
  ],
)

-- The code's test decides the rule.
pub is_visible_to-Sees :
    (xid : ℕ) (s : Snapshot) (committed : List ℕ) (h : TupleHeader)
    → (is_visible_to xid s committed h ≡ true) ↔ Sees xid s committed h
unfolding is_visible_to is_tuple_visible
is_visible_to-Sees xid s committed h =
    let min_past = xid_is_visible-IsPast s committed h.t_xmin in
    let max_past = xid_is_visible-IsPast s committed h.t_xmax in
    (
      λ e. (
        λ own. absurd (ground (arith, e, own)),
        elim (ℕ_discrete h.t_xmin xid) [
          | yes own ↦ inl own
          | no other ↦ inr (
            min_past.0 (ground (arith, e, other)),
            elim (ℕ_discrete h.t_xmax invalid_xid) [
              | yes kept ↦ inl kept
              | no deleted ↦
                  inr (λ past.
                    let q = max_past.1 past in absurd (ground (arith, e, other, deleted, q)))
            ],
          )
        ],
      ),
      λ (open_end, written). elim written [
        | inl own ↦ ground (arith, open_end, own)
        | inr (past, kept) ↦
            let q = min_past.1 past in
            elim kept [
              | inl zero_end ↦ ground (arith, open_end, q, zero_end)
              | inr lasting ↦
                  elim (Bool-cases (contains committed h.t_xmax && xid_is_visible s h.t_xmax)) [
                    | inl b ↦ absurd (lasting (max_past.0 b))
                    | inr b ↦ ground (arith, open_end, q, b)
                  ]
            ]
      ],
    )
