-- ===== src/Txn/Manager/Serializable.antt =====
-- The check that `commit` makes for Serializable transactions.
use icedb.Base.{
  ℕ, ◌≡◌, refl, ◌⊎◌, inl, inr, Bool, true, false, ◌||◌, none, some, List, [], ◌∷◌, arith,
  Bool-cases, Option-cases, Map, lookup, contains, nat_key, pair_key, ok, err,
}
use icedb.Txn.Transaction.{
  Transaction, not_found, not_active, serialization_failure, is_active_state, is_serializable,
}
use icedb.Txn.Cycle.{has_cycle, dfs, try_all}
use icedb.Txn.Cycle.Decides.{CycleFrom, has_cycle_correct}
use icedb.Txn.Cycle.Total.{has_cycle_total}
use icedb.Txn.Manager.{
  Manager, commit, check_serializable_conflict, finish_commit, serializables, edges_of,
  writers_after, is_empty,
}

-- Among the active Serializable transactions: `a` read something that `b` wrote.
abbrev pub dependencies : Manager → Map ℕ (List ℕ)
dependencies m = edges_of (serializables m.active) (serializables m.active)

-- What `commit` refuses: a Serializable transaction that read and wrote something, with a cycle.
abbrev pub IsRefused : Manager → ℕ → Transaction → Type 0
IsRefused m xid t =
    (is_serializable t.isolation ≡ true)
    × ((is_empty t.write_set || is_empty t.read_set) ≡ false)
    × CycleFrom (dependencies m) xid

-- What the check says of a transaction.
check_total :
    (m : Manager) (xid : ℕ) (t : Transaction)
    → lookup xid m.active ≡ some t
    → ((check_serializable_conflict m xid ≡ some true) × IsRefused m xid t)
      ⊎ ((check_serializable_conflict m xid ≡ some false) × ¬ IsRefused m xid t)
unfolding check_serializable_conflict
check_total m xid t e = elim (Bool-cases (is_serializable t.isolation)) [
  | inr weaker ↦ inr (
    rw (e, weaker, check_serializable_conflict) refl,
    λ (level, busy, cycle). absurd (ground (arith, weaker, level)),
  )
  | inl serializable_level ↦ elim (Bool-cases (is_empty t.write_set || is_empty t.read_set)) [
    | inl idle ↦ inr (
      rw (e, serializable_level, idle, check_serializable_conflict) refl,
      λ (level, busy, cycle). absurd (ground (arith, idle, busy)),
    )
    | inr busy ↦ searched serializable_level busy (has_cycle_total xid (dependencies m))
  ]
]
  where
    searched :
        is_serializable t.isolation ≡ true
        → (is_empty t.write_set || is_empty t.read_set) ≡ false
        → (b : Bool) × (has_cycle xid (dependencies m) ≡ some b)
        → ((check_serializable_conflict m xid ≡ some true) × IsRefused m xid t)
          ⊎ ((check_serializable_conflict m xid ≡ some false) × ¬ IsRefused m xid t)
    searched level busy (true, q) = inl (
      rw (e, level, busy, check_serializable_conflict) q,
      (level, busy, (has_cycle_correct xid (dependencies m)).0 q),
    )
    searched level busy (false, q) = inr (
      rw (e, level, busy, check_serializable_conflict) q,
      λ (level, busy, cycle). (has_cycle_correct xid (dependencies m)).1 q cycle,
    )

pub commit_total :
    (m : Manager) (xid : ℕ)
    → ((lookup xid m.active ≡ none) × (commit m xid ≡ some (err (not_found xid), m)))
      ⊎ (((t : Transaction) × (lookup xid m.active ≡ some t)
          × (((is_active_state t.state ≡ false) × (commit m xid ≡ some (err (not_active xid), m)))
              ⊎ (((is_active_state t.state ≡ true)
                    × IsRefused m xid t
                    × (commit m xid ≡ some (err serialization_failure, m)))
                  ⊎ ((is_active_state t.state ≡ true)
                      × (¬ IsRefused m xid t)
                      × (commit m xid ≡ some (ok tt, finish_commit m xid)))))))
unfolding commit
commit_total m xid = elim (Option-cases (lookup xid m.active)) [
  | inl e ↦ inl (e, rw (e, commit) refl)
  | inr (t, e) ↦ inr (
    t,
    e,
    elim (Bool-cases (is_active_state t.state)) [
      | inr dead ↦ inl (dead, rw (e, dead, commit) refl)
      | inl live ↦ inr (elim (check_total m xid t e) [
        | inl (c, refused) ↦ inl (live, refused, rw (e, live, c, commit) refl)
        | inr (c, passed) ↦ inr (live, passed, rw (e, live, c, commit) refl)
      ])
    ],
  )
]

-- One transaction alone depends on nothing.
edges_of-alone :
    (xid : ℕ) (t : Transaction) → edges_of ((xid, t) ∷ []) ((xid, t) ∷ []) ≡ (xid, []) ∷ []
unfolding edges_of writers_after
edges_of-alone xid t = ground arith

has_cycle-alone : (xid : ℕ) → has_cycle xid ((xid, []) ∷ []) ≡ some false
unfolding has_cycle dfs try_all contains lookup
has_cycle-alone xid = ground arith

check-alone :
    (m : Manager) (xid : ℕ) (t : Transaction)
    → lookup xid m.active ≡ some t
    → serializables m.active ≡ (xid, t) ∷ []
    → check_serializable_conflict m xid ≡ some false
unfolding check_serializable_conflict
check-alone m xid t e alone = ground (arith, e, alone, edges_of-alone xid t, has_cycle-alone xid)

-- A Serializable transaction that is the only active one passes the check, whatever it read and
-- wrote: what transactions that have committed meanwhile wrote and read does not count. So of two
-- transactions that each read what the other writes, the second commits if the first has committed
-- before the second writes.
pub commit_alone :
    (m : Manager) (xid : ℕ) (t : Transaction)
    → lookup xid m.active ≡ some t
    → is_active_state t.state ≡ true
    → serializables m.active ≡ (xid, t) ∷ []
    → commit m xid ≡ some (ok tt, finish_commit m xid)
unfolding commit
commit_alone m xid t e live alone = rw (e, live, check-alone m xid t e alone, commit) refl
