-- ===== src/Txn/Manager/Races.antt =====
-- Interleavings of `begin` and `commit` with a snapshot: both take the manager's locks one after
-- the other, and a snapshot can be taken in between.
use icedb.Base.{
  ℕ, ◌+◌, ◌%◌, ◌^◌, ◌<◌, ◌≡◌, ◌≢◌, refl, ◌∙◌, inl, inr, true, false, none, some, arith, Bool-cases,
  Option-cases, Map, lookup, insert, erase, lookup-insert, lookup-erase, contains,
  contains-keys-none, nat_key, ok, Option, take, Outcome, ap, sym, List,
}
use icedb.Txn.Snapshot.{Snapshot, xid_is_visible, is_tuple_visible}
use icedb.Txn.Transaction.{
  Transaction, IsolationLevel, repeatable_read, keeps_snapshot, new_transaction, TxnError,
}
use icedb.Txn.Manager.{
  Manager, take_snapshot, register, leave_active, mark_committed, current_snapshot, finish_commit,
  commit, run_steps, commit_steps,
}
use icedb.Txn.Manager.History.{IsSound}
use icedb.Storage.Tuple.{TupleHeader}
use icedb.Txn.Manager.Serializable.{commit_total}
use icedb.Txn.Xid.{invalid_xid}

-- The state in which `commit` has taken the transaction out of the active ones, but has not yet added
-- it to the committed ones.
abbrev pub inside_commit : Manager → ℕ → Manager
inside_commit m xid = run_steps (take 2 commit_steps) m xid

kept_manager : Manager → Option (Outcome TxnError (Unit {0}) × Manager) → Manager
kept_manager m none = m
kept_manager m (some (r, m')) = m'

committed_state :
    (m m' : Manager) (xid : ℕ)
    → commit m xid ≡ some (ok tt, m')
    → ((t : Transaction) × (lookup xid m.active ≡ some t)) × (m' ≡ finish_commit m xid)
unfolding kept_manager
committed_state m m' xid e = elim (commit_total m xid) [
  | inl (gone, f) ↦ absurd (ground (arith, e, f))
  | inr (t, live, inl (dead, f)) ↦ absurd (ground (arith, e, f))
  | inr (t, live, inr (inl (active, refused, f))) ↦ absurd (ground (arith, e, f))
  | inr (t, live, inr (inr (active, passed, f))) ↦ ((t, live), ap (kept_manager m) (sym e ∙ f))
]

uncommitted_hidden :
    (header : TupleHeader) (snapshot : Snapshot) (committed : List ℕ)
    → contains committed header.t_xmin ≡ false
    → is_tuple_visible header snapshot committed ≡ false
unfolding is_tuple_visible
uncommitted_hidden header snapshot committed h = rw h refl

undeleted_shown :
    (header : TupleHeader) (snapshot : Snapshot) (committed : List ℕ)
    → contains committed header.t_xmin ≡ true
    → xid_is_visible snapshot header.t_xmin ≡ true
    → header.t_xmax ≡ invalid_xid
    → is_tuple_visible header snapshot committed ≡ true
unfolding is_tuple_visible
undeleted_shown header snapshot committed h k e = ground (arith, h, k, e)

inside_commit-uncommitted :
    {m : Manager} (xid : ℕ) {t : Transaction}
    → IsSound m
    → lookup xid m.active ≡ some t
    → contains (inside_commit m xid).committed xid ≡ false
unfolding leave_active
inside_commit-uncommitted {m} xid v live = elim (Bool-cases (contains m.committed xid)) [
  | inl done ↦ absurd (ground (arith, live, v.ended xid done))
  | inr still ↦ still
]

finish_commit-committed :
    (m : Manager) (xid : ℕ) → contains (finish_commit m xid).committed xid ≡ true
unfolding finish_commit leave_active mark_committed contains
finish_commit-committed m xid = ground arith

inside_commit-visible :
    {m : Manager} (cur xid : ℕ) {t : Transaction}
    → IsSound m
    → lookup xid m.active ≡ some t
    → xid_is_visible (take_snapshot (inside_commit m xid) cur) xid ≡ true
unfolding leave_active take_snapshot xid_is_visible
inside_commit-visible {m} cur xid v live = ground (
  arith,
  v.active_used xid _ live,
  contains-keys-none xid (erase xid m.active) (lookup-erase xid xid m.active ∙ ground arith),
)

-- On a sound manager, a `commit` that succeeds takes the transaction out of the active ones before it adds it to the
-- committed ones. With a snapshot taken in between, a tuple that the transaction inserted and nobody
-- deleted is not visible at first, and is visible once `commit` is done: two reads with that one
-- snapshot differ.
pub snapshot_inside_commit :
    {m m' : Manager} (cur xid : ℕ) (header : TupleHeader)
    → IsSound m
    → commit m xid ≡ some (ok tt, m')
    → header.t_xmin ≡ xid
    → header.t_xmax ≡ invalid_xid
    → let between = inside_commit m xid in
      let snapshot = take_snapshot between cur in
      (is_tuple_visible header snapshot between.committed ≡ false)
      × (is_tuple_visible header snapshot m'.committed ≡ true)
snapshot_inside_commit {m} {m'} cur xid header v e inserted kept =
    let ((t, live), done) = committed_state m m' xid e in
    let between = inside_commit m xid in
    let snapshot = take_snapshot between cur in
    (
      uncommitted_hidden header snapshot between.committed
          (rw inserted (inside_commit-uncommitted xid v live)),
      undeleted_shown header snapshot m'.committed
          (rw (inserted, done) (finish_commit-committed m xid))
          (rw inserted (inside_commit-visible cur xid v live)) kept,
    )

-- The snapshot of the transaction that begins in between.
abbrev early_snapshot : Manager → Snapshot
early_snapshot m =
    take_snapshot (record m { next_xid = (m.next_xid + 1 + 1) % 2 ^ 32 }) (m.next_xid + 1)

early_snapshot-sees :
    {m : Manager}
    → IsSound m
    → m.next_xid + 2 < 2 ^ 32
    → xid_is_visible (early_snapshot m) m.next_xid ≡ true
unfolding take_snapshot xid_is_visible
early_snapshot-sees {m} v room =
    ground (arith, v.started, room, contains-keys-none m.next_xid m.active gone)
  where
    gone : lookup m.next_xid m.active ≡ none
    gone = elim (Option-cases (lookup m.next_xid m.active)) [
      | inl none_there ↦ none_there
      | inr (t, there) ↦ absurd (omega (arith, v.active_used m.next_xid t there))
    ]

lookup-other :
    (a b : ℕ) (ta tb : Transaction) (m : Map ℕ Transaction)
    → b ≢ a
    → lookup b (erase a (insert a ta (insert b tb m))) ≡ some tb
lookup-other a b ta tb m ne = ground (
  arith,
  ne,
  lookup-erase a b (insert a ta (insert b tb m)),
  lookup-insert a b ta (insert b tb m),
  lookup-insert b b tb m,
)

-- The answer of `current_snapshot` for a transaction that keeps a snapshot.
current_snapshot-own :
    (m : Manager) (xid : ℕ) (t : Transaction) (s : Snapshot)
    → lookup xid m.active ≡ some t
    → keeps_snapshot t.isolation ≡ true
    → t.snapshot ≡ some s
    → current_snapshot m xid ≡ s
unfolding current_snapshot
current_snapshot-own m xid t s e k q = rw (e, k, q, current_snapshot) refl

current_snapshot-kept :
    (m : Manager) (level : IsolationLevel)
    → current_snapshot
        (finish_commit
          (register (register m (m.next_xid + 1) repeatable_read) m.next_xid level)
          m.next_xid)
        (m.next_xid + 1)
      ≡ early_snapshot m
unfolding finish_commit leave_active mark_committed register new_transaction
current_snapshot-kept m level =
    current_snapshot-own
      (finish_commit (register (register m (m.next_xid + 1) repeatable_read) m.next_xid level)
        m.next_xid)
      (m.next_xid + 1) _ (early_snapshot m)
      (lookup-other m.next_xid (m.next_xid + 1) _ _ m.active (omega arith)) refl refl

-- `begin` allocates its id before it takes the lock. If another transaction with a snapshot of its
-- own begins in between, then its snapshot takes the id for one that has ended, and shows what that
-- transaction does as soon as it commits, though it committed after the snapshot was taken.
pub begin_inside_begin :
    {m : Manager} (level : IsolationLevel)
    → IsSound m
    → m.next_xid + 2 < 2 ^ 32
    → let a = m.next_xid in
      let b = m.next_xid + 1 in
      let both = register (register m b repeatable_read) a level in
      (contains both.committed a ≡ false)
      × (contains (finish_commit both a).committed a ≡ true)
      × (xid_is_visible (current_snapshot (finish_commit both a) b) a ≡ true)
unfolding finish_commit leave_active mark_committed register contains
begin_inside_begin {m} level v room = (
  elim (Bool-cases (contains m.committed m.next_xid)) [
    | inl early ↦ absurd (ground (arith, v.committed_used m.next_xid early))
    | inr still ↦ still
  ],
  ground arith,
  rw (current_snapshot-kept m level) (early_snapshot-sees v room),
)
