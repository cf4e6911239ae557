-- ===== src/Txn/Lock/Laws.antt =====
-- What the lock table promises. The table of waiting transactions is empty between calls, so the
-- walk along it ends at once and `Deadlock` is never the answer.
use icedb.Base.{
  ℕ, suc, ◌≡◌, ◌≢◌, refl, subst, ◌↔◌, ◌⊎◌, inl, inr, false, Option, none, some, [], ◌∷◌, arith,
  ◌==◌, if◌then◌else◌, Bool-cases, Option-cases, Map, lookup, insert, erase, lookup-insert,
  lookup-erase, IsUnique, insert-IsUnique, nat_key, pair_key, Outcome, ok, err,
}
use icedb.Storage.Tuple.{Tid}
use icedb.Txn.Transaction.{TxnError, write_write_conflict, deadlock}
use icedb.Txn.Lock.{
  LockState, new_locks, key_of, walk, conflict, grant, acquire_write_lock, retain_others,
  release_all,
}

-- The transaction that holds the lock on a tuple.
abbrev pub holder_of : LockState → Tid → Option ℕ
holder_of s tid = lookup (key_of tid) s.write_locks

pub record IsIdle (s : LockState) : Type 0 where
  pub nobody_waits : (x : ℕ) → lookup x s.wait_for ≡ none
  pub unique : IsUnique s.write_locks

-- The lock is free for `xid`, or another transaction has it.
pub data Access (s : LockState) (xid : ℕ) (tid : Tid) : Type 0 where
  free : holder_of s tid ≡ none → Access s xid tid
  own : holder_of s tid ≡ some xid → Access s xid tid
  taken : (holder : ℕ) → holder_of s tid ≡ some holder → holder ≢ xid → Access s xid tid

pub access : (s : LockState) (xid : ℕ) (tid : Tid) → Access s xid tid
access s xid tid = elim (Option-cases (holder_of s tid)) [
  | inl e ↦ free e
  | inr (holder, e) ↦ elim (Bool-cases (holder == xid)) [
    | inl same ↦ own (ground (arith, e))
    | inr other ↦ taken holder e (ground arith)
  ]
]

walk-idle :
    (fuel : ℕ) (s : LockState) (xid holder : ℕ)
    → IsIdle s
    → holder ≢ xid
    → walk (suc fuel) xid holder (insert xid holder s.wait_for) ≡ some false
unfolding walk
walk-idle fuel s xid holder v ne =
    ground (arith, lookup-insert xid holder holder s.wait_for, v.nobody_waits holder)

conflict-idle :
    (fuel : ℕ) (s : LockState) (xid holder : ℕ)
    → IsIdle s
    → holder ≢ xid
    → conflict (suc fuel) s xid holder
      ≡ some (
        err (write_write_conflict holder),
        record s { wait_for = erase xid (insert xid holder s.wait_for) },
      )
unfolding conflict
conflict-idle fuel s xid holder v ne = rw (walk-idle fuel s xid holder v ne, conflict)

conflict-IsIdle :
    (s : LockState) (xid holder : ℕ)
    → IsIdle s
    → IsIdle (record s { wait_for = erase xid (insert xid holder s.wait_for) })
conflict-IsIdle s xid holder v = record {
  nobody_waits = λ x. ground (
    arith,
    lookup-erase xid x (insert xid holder s.wait_for),
    lookup-insert xid x holder s.wait_for,
    v.nobody_waits x,
  );
  unique = v.unique;
}

-- What one call of `acquire_write_lock` does to an idle table: with a round of the walk for fuel
-- it answers; it grants the lock unless another transaction holds it, and then the conflict names
-- the holder and no lock changes. The table is idle again in both cases.
pub acquire_write_lock_total :
    (fuel : ℕ) (s : LockState) (xid : ℕ) (tid : Tid)
    → IsIdle s
    → ((s' : LockState) × (acquire_write_lock (suc fuel) s xid tid ≡ some (ok tt, s'))
        × IsIdle s'
        × ((holder_of s tid ≡ none) ⊎ (holder_of s tid ≡ some xid))
        × ((other : Tid)
            → holder_of s' other ≡ (
                if pair_key.same (key_of tid) (key_of other) then some xid else holder_of s other)))
      ⊎ ((holder : ℕ) × (s' : LockState) × (acquire_write_lock (suc fuel) s xid tid
            ≡ some (err (write_write_conflict holder), s'))
          × IsIdle s'
          × (holder_of s tid ≡ some holder)
          × (holder ≢ xid)
          × (s'.write_locks ≡ s.write_locks))
unfolding acquire_write_lock
acquire_write_lock_total fuel s xid tid v = elim (access s xid tid) [
  | free e ↦ inl (grant s xid tid, rw (e, acquire_write_lock), granted, inl e, holders)
  | own e ↦ inl (grant s xid tid, ground (arith, e), granted, inr e, holders)
  | taken holder e ne ↦ inr (
    holder,
    record s { wait_for = erase xid (insert xid holder s.wait_for) },
    ground (arith, e, conflict-idle fuel s xid holder v ne),
    conflict-IsIdle s xid holder v,
    e,
    ne,
    refl,
  )
]
  where
    granted : IsIdle (grant s xid tid)
    granted = record {
      nobody_waits = v.nobody_waits;
      unique = insert-IsUnique (key_of tid) xid s.write_locks v.unique;
    }

    holders :
        (other : Tid)
        → holder_of (grant s xid tid) other
          ≡ (if pair_key.same (key_of tid) (key_of other) then some xid else holder_of s other)
    holders other = lookup-insert (key_of tid) (key_of other) xid s.write_locks

lookup-retain_none :
    (xid : ℕ) (k : ℕ × ℕ) (m : Map (ℕ × ℕ) ℕ)
    → lookup k m ≡ none
    → lookup k (retain_others xid m) ≡ none
unfolding lookup retain_others
lookup-retain_none xid k [] e = refl
lookup-retain_none xid k ((j, v) ∷ m) e = ground (arith, e, lookup-retain_none xid k m)

retain-IsUnique : (xid : ℕ) (m : Map (ℕ × ℕ) ℕ) → IsUnique m → IsUnique (retain_others xid m)
unfolding retain_others
retain-IsUnique xid [] u = tt
retain-IsUnique xid ((k, v) ∷ m) u = elim (Bool-cases (v == xid)) [
  | inl hit ↦ rw hit (retain-IsUnique xid m u.1)
  | inr miss ↦ rw miss (lookup-retain_none xid k m u.0, retain-IsUnique xid m u.1)
]

-- What `release_all` leaves of the lock on one tuple.
abbrev unless_own : ℕ → Option ℕ → Option ℕ
unless_own xid none = none
unless_own xid (some v) = if v == xid then none else some v

lookup-retain :
    (xid : ℕ) (k : ℕ × ℕ) (m : Map (ℕ × ℕ) ℕ)
    → IsUnique m
    → lookup k (retain_others xid m) ≡ unless_own xid (lookup k m)
unfolding lookup retain_others
lookup-retain xid k [] u = refl
lookup-retain xid k ((j, v) ∷ m) u = elim (Bool-cases (pair_key.same j k)) [
  | inr miss ↦ ground (arith, miss, lookup-retain xid k m u.1)
  | inl hit ↦
      let same : j ≡ k = (pair_key.same_iff j k).0 hit in
      ground (arith, hit, lookup-retain_none xid k m, u.0, same)
]

-- On an idle table `release_all` frees exactly the locks of `xid`: a tuple that another transaction
-- holds keeps its holder, and the table is idle again.
pub holder_of-release_all :
    (s : LockState) (xid : ℕ) (tid : Tid)
    → IsIdle s
    → IsIdle (release_all s xid)
      × (holder_of (release_all s xid) tid ≢ some xid)
      × ((other : ℕ)
          → other ≢ xid
          → (holder_of (release_all s xid) tid ≡ some other) ↔ (holder_of s tid ≡ some other))
unfolding release_all
holder_of-release_all s xid tid v = (
  record {
    nobody_waits = λ x. ground (arith, lookup-erase xid x s.wait_for, v.nobody_waits x);
    unique = retain-IsUnique xid s.write_locks v.unique;
  },
  λ e. ground (arith, e, lookup-retain xid (key_of tid) s.write_locks v.unique),
  λ other ne. (
    λ e. ground (arith, e, ne, lookup-retain xid (key_of tid) s.write_locks v.unique),
    λ e. ground (arith, e, ne, lookup-retain xid (key_of tid) s.write_locks v.unique),
  ),
)

-- The states of a lock table: any calls, in any order, from a new one.
pub data Reach : LockState → Type 0 where
  start : Reach new_locks
  acquired :
      {s s' : LockState} (fuel xid : ℕ) (tid : Tid) (r : Outcome TxnError (Unit {0}))
      → Reach s
      → acquire_write_lock (suc fuel) s xid tid ≡ some (r, s')
      → Reach s'
  released : {s : LockState} (xid : ℕ) → Reach s → Reach (release_all s xid)

after-IsIdle :
    {s s' : LockState} (fuel xid : ℕ) (tid : Tid) (r : Outcome TxnError (Unit {0}))
    → IsIdle s
    → acquire_write_lock (suc fuel) s xid tid ≡ some (r, s')
    → IsIdle s'
after-IsIdle {s} {s'} fuel xid tid r v e = elim (acquire_write_lock_total fuel s xid tid v) [
  | inl (t, e', idle, was, holders) ↦ subst IsIdle (cc (e, e')) idle
  | inr (holder, t, e', idle, was, ne, same) ↦ subst IsIdle (cc (e, e')) idle
]

pub Reach-IsIdle : {s : LockState} → Reach s → IsIdle s
Reach-IsIdle start = record { nobody_waits = λ x. unfold lookup in refl; unique = tt }
Reach-IsIdle (acquired fuel xid tid r before e) =
    after-IsIdle fuel xid tid r (Reach-IsIdle before) e
Reach-IsIdle (released {s} xid before) =
    (holder_of-release_all s xid (record { page_no = 0; slot = 0 }) (Reach-IsIdle before)).0

-- In every state that calls of `acquire_write_lock` and `release_all` reach, whatever their order,
-- `acquire_write_lock` never answers `Deadlock`, for any transactions and any tuple.
pub never_deadlock :
    {s s' : LockState} (fuel xid : ℕ) (tid : Tid) (a b : ℕ)
    → Reach s
    → acquire_write_lock (suc fuel) s xid tid ≢ some (err (deadlock a b), s')
never_deadlock {s} {s'} fuel xid tid a b reach e =
    elim (acquire_write_lock_total fuel s xid tid (Reach-IsIdle reach)) [
      | inl (t, e', idle, was, holders) ↦ cc (e, e')
      | inr (holder, t, e', idle, was, ne, same) ↦ cc (e, e')
    ]
