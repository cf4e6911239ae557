-- ===== src/Txn/Manager/Isolation.antt =====
-- What a snapshot of the manager shows, whatever the other transactions do afterwards.
use icedb.Base.{
  ℕ, ◌+◌, ◌^◌, ◌≤◌, ◌<◌, ◌≡◌, ◌≢◌, refl, sym, ◌∙◌, inl, inr, Bool, true, false, not, ◌&&◌, Option,
  none, some, List, [], ◌∷◌, arith, length, min, ltb, ◌==◌, Bool-cases, Option-cases, lookup, keys,
  contains, contains-keys-none, contains-keys-some, nat_key,
}
use icedb.Storage.Tuple.{TupleHeader}
use icedb.Txn.Snapshot.{xid_is_visible, is_tuple_visible}
use icedb.Txn.Transaction.{Transaction}
use icedb.Txn.Manager.{Manager, others, minimum, min_with, take_snapshot}
use icedb.Txn.Manager.History.{Call, run, IsSound, IsOver, run-IsSound}

min_with-≤ : (y x : ℕ) (o : Option ℕ) → y ≤ x → min_with y o ≤ x
min_with-≤ y x none h = h
min_with-≤ y x (some z) h = ground (arith, h)

-- The smallest other id is not above any listed id but the snapshot's own.
minimum-others :
    (cur x : ℕ) (xs : List ℕ)
    → contains xs x ≡ true
    → x ≢ cur
    → (z : ℕ) × (minimum (others cur xs) ≡ some z) × (z ≤ x)
unfolding contains others minimum
minimum-others cur x [] e ne = absurd (ground arith)
minimum-others cur x (y ∷ ys) e ne = elim (Bool-cases (y == cur)) [
  | inl own ↦ rw (own, others) (minimum-others cur x ys (ground (arith, e, own, ne)) ne)
  | inr other ↦
      rw (other, others)
        (elim (Bool-cases (y == x)) [
          | inl here ↦ (
            min_with y (minimum (others cur ys)),
            refl,
            min_with-≤ y x (minimum (others cur ys)) (ground (arith, here)),
          )
          | inr there ↦ further (minimum-others cur x ys (ground (arith, e, there)) ne)
        ])
]
  where
    further :
        ((z : ℕ) × (minimum (others cur ys) ≡ some z) × (z ≤ x))
        → (z : ℕ) × (some (min_with y (minimum (others cur ys))) ≡ some z) × (z ≤ x)
    further (z, q, le) = rw q (min y z, refl, ground (arith, le))

-- The smallest other id is listed.
minimum-listed : (cur z : ℕ) (xs : List ℕ) → minimum (others cur xs) ≡ some z → contains xs z ≡ true
unfolding contains others minimum
minimum-listed cur z [] e = absurd (ground arith)
minimum-listed cur z (y ∷ ys) e = elim (Bool-cases (y == cur)) [
  | inl own ↦ ground (arith, minimum-listed cur z ys (sym (rw own refl) ∙ e))
  | inr other ↦ elim (Option-cases (minimum (others cur ys))) [
    | inl alone ↦ ground (arith, e, other, alone)
    | inr (w, q) ↦ ground (arith, e, other, q, minimum-listed cur w ys q)
  ]
]

-- So a snapshot's `xmin` is not above its `xmax`.
xmin-≤ : {m : Manager} (cur : ℕ) → IsSound m → (take_snapshot m cur).xmin ≤ m.next_xid
unfolding take_snapshot
xmin-≤ {m} cur v = elim (Option-cases (minimum (others cur (keys m.active)))) [
  | inl e ↦ rw e (omega arith)
  | inr (z, e) ↦ elim (Option-cases (lookup z m.active)) [
    | inl gone ↦
        absurd (
          ground
            (arith, contains-keys-none z m.active gone, minimum-listed cur z (keys m.active) e))
    | inr (t, live) ↦ rw e (omega (arith, v.active_used z t live))
  ]
]

-- An id that is not committed when the snapshot is taken is not seen in it and committed later.
pub hidden :
    {m : Manager} (cur x : ℕ) (cs : List Call)
    → IsSound m
    → m.next_xid + length cs < 2 ^ 32
    → x ≢ cur
    → contains m.committed x ≡ false
    → contains (run m cs).committed x && xid_is_visible (take_snapshot m cur) x ≡ false
unfolding xid_is_visible take_snapshot
hidden {m} cur x cs v room ne not_yet = elim (Option-cases (lookup x m.active)) [
  | inl gone ↦ elim (Bool-cases (ltb x m.next_xid)) [
    | inl used ↦
        ground (arith, ((run-IsSound cs v room).2 x (over gone (ground (arith, used)))).uncommitted)
    | inr fresh ↦ ground (arith, xmin-≤ cur v, fresh)
  ]
  | inr (t, live) ↦
      running t live
        (minimum-others cur x (keys m.active) (contains-keys-some x t m.active live) ne)
]
  where
    over : lookup x m.active ≡ none → x < m.next_xid → IsOver m x
    over gone used = record { used = used; inactive = gone; uncommitted = not_yet }

    running :
        (t : Transaction)
        → lookup x m.active ≡ some t
        → (z : ℕ) × (minimum (others cur (keys m.active)) ≡ some z) × (z ≤ x)
        → contains (run m cs).committed x && xid_is_visible (take_snapshot m cur) x ≡ false
    running t live (z, q, le) = ground (arith, q, le, contains-keys-some x t m.active live)

-- An id that is committed when the snapshot is taken is seen in it.
pub shown :
    {m : Manager} (cur x : ℕ)
    → IsSound m
    → contains m.committed x ≡ true
    → xid_is_visible (take_snapshot m cur) x ≡ true
unfolding xid_is_visible take_snapshot
shown {m} cur x v e =
    ground (arith, v.committed_used x e, contains-keys-none x m.active (v.ended x e))

-- A snapshot does not change under the transaction that reads with it: whatever calls follow, a
-- tuple version whose `t_xmin` and `t_xmax` are not the reader's own is visible exactly when its
-- inserter had committed, and its deleter had not, at the time the snapshot was taken. The calls
-- may begin, commit and abort any transactions and change their levels, each as one step, as long
-- as the ids do not wrap around.
pub is_tuple_visible-run :
    {m : Manager} (cur : ℕ) (header : TupleHeader) (cs : List Call)
    → IsSound m
    → m.next_xid + length cs < 2 ^ 32
    → header.t_xmin ≢ cur
    → header.t_xmax ≢ cur
    → is_tuple_visible header (take_snapshot m cur) (run m cs).committed
      ≡ (contains m.committed header.t_xmin && not (contains m.committed header.t_xmax))
unfolding is_tuple_visible
is_tuple_visible-run {m} cur header cs v room ne_min ne_max =
    visible (contains m.committed header.t_xmin) (contains m.committed header.t_xmax) refl refl
  where
    keep : (x : ℕ) → contains m.committed x ≡ true → contains (run m cs).committed x ≡ true
    keep = (run-IsSound cs v room).1

    visible :
        (a b : Bool)
        → contains m.committed header.t_xmin ≡ a
        → contains m.committed header.t_xmax ≡ b
        → is_tuple_visible header (take_snapshot m cur) (run m cs).committed ≡ (a && not b)
    visible false b e d = ground (arith, hidden cur header.t_xmin cs v room ne_min e)
    visible true false e d = ground (
      arith,
      keep header.t_xmin e,
      shown cur header.t_xmin v e,
      hidden cur header.t_xmax cs v room ne_max d,
    )
    visible true true e d = ground (
      arith,
      keep header.t_xmin e,
      shown cur header.t_xmin v e,
      keep header.t_xmax d,
      shown cur header.t_xmax v d,
      v.committed_used header.t_xmax d,
    )
