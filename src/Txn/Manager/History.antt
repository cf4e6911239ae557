-- ===== src/Txn/Manager/History.antt =====
-- Histories of a manager: any calls in any order, and the invariant that they keep.
use icedb.Base.{
  ℕ, ◌+◌, ◌^◌, ◌≤◌, ◌<◌, ◌≡◌, refl, sym, subst, ◌⊎◌, inl, inr, true, false, Option, none, some,
  List, [], ◌∷◌, arith, length, ◌==◌, Bool-cases, Option-cases, Map, lookup, insert, erase,
  lookup-insert, lookup-erase, contains, nat_key, Outcome,
}
use icedb.Txn.Xid.{first_xid, allocate_xid}
use icedb.Txn.Transaction.{Transaction, IsolationLevel, TxnError, is_active_state}
use icedb.Wal.Record.{RecordType}
use icedb.Wal.Writer
use icedb.Wal.Writer.{Writer}
use icedb.Txn.Lock.{release_all}
use icedb.Txn.Manager.{
  Manager, new, register, begin, check_serializable_conflict, finish_commit, leave_active,
  mark_committed, end_entry, commit, abort, set_isolation_level, with_level,
}

-- A call that changes the manager.
pub data Call : Type 0 where
  begin_call : IsolationLevel → Call
  commit_call : ℕ → Call
  abort_call : ℕ → Call
  level_call : ℕ → IsolationLevel → Call

abbrev keep_state : Manager → Option (Outcome TxnError (Unit {0}) × Manager) → Manager
keep_state m none = m
keep_state m (some (r, m')) = m'

-- The state after a call, whether it succeeded or failed.
unfoldable pub step : Manager → Call → Manager
step m (begin_call level) = (begin m level).1
step m (commit_call xid) = keep_state m (commit m xid)
step m (abort_call xid) = (abort m xid).1
step m (level_call xid level) = set_isolation_level m xid level

unfoldable pub run : Manager → List Call → Manager
run m [] = m
run m (c ∷ cs) = run (step m c) cs

-- The two counters agree; every id in use was handed out; a committed transaction is not active.
pub record IsSound (m : Manager) : Type 0 where
  pub counters : m.counter ≡ m.next_xid
  pub started : first_xid ≤ m.next_xid
  pub active_used :
      (x : ℕ) (t : Transaction) → lookup x m.active ≡ some t → (first_xid ≤ x) × (x < m.next_xid)
  pub committed_used : (x : ℕ) → contains m.committed x ≡ true → (first_xid ≤ x) × (x < m.next_xid)
  pub ended : (x : ℕ) → contains m.committed x ≡ true → lookup x m.active ≡ none

-- How one call changes which transactions are active and committed.
pub record Change (m m' : Manager) : Type 0 where
  pub counters : m'.counter ≡ m'.next_xid
  pub grows : m.next_xid ≤ m'.next_xid
  pub fits : m'.next_xid ≤ m.next_xid + 1
  pub active_from :
      (x : ℕ) (t : Transaction)
      → lookup x m'.active ≡ some t
      → ((u : Transaction) × (lookup x m.active ≡ some u))
        ⊎ ((x ≡ m.next_xid) × (m'.next_xid ≡ m.next_xid + 1))
  pub committed_from :
      (x : ℕ)
      → contains m'.committed x ≡ true
      → (contains m.committed x ≡ true)
        ⊎ (((u : Transaction) × (lookup x m.active ≡ some u)) × (lookup x m'.active ≡ none))
  pub committed_stays : (x : ℕ) → contains m.committed x ≡ true → contains m'.committed x ≡ true

pub Change-refl : {m : Manager} → IsSound m → Change m m
Change-refl v = record {
  counters = v.counters;
  grows = omega arith;
  fits = omega arith;
  active_from = λ x t e. inl (t, e);
  committed_from = λ x e. inl e;
  committed_stays = λ x e. e;
}

pub Change-IsSound : {m m' : Manager} → IsSound m → Change m m' → IsSound m'
Change-IsSound {m} {m'} v c = record {
  counters = c.counters;
  started = omega (arith, v.started, c.grows);
  active_used = λ x t e. elim (c.active_from x t e) [
    | inl (u, old) ↦ omega (arith, v.active_used x u old, c.grows)
    | inr (at, next) ↦ omega (arith, v.started, at, next)
  ];
  committed_used = λ x e. elim (c.committed_from x e) [
    | inl old ↦ omega (arith, v.committed_used x old, c.grows)
    | inr ((u, old), gone) ↦ omega (arith, v.active_used x u old, c.grows)
  ];
  ended = λ x e. elim (c.committed_from x e) [
    | inl old ↦ elim (Option-cases (lookup x m'.active)) [
      | inl gone ↦ gone
      | inr (t, now) ↦ elim (c.active_from x t now) [
        | inl (u, was) ↦ absurd (ground (arith, v.ended x old, was))
        | inr (at, next) ↦ absurd (ground (arith, v.committed_used x old, at))
      ]
    ]
    | inr (old, gone) ↦ gone
  ];
}

inserted_from :
    (k x : ℕ) (t u : Transaction) (m : Map ℕ Transaction)
    → lookup x (insert k t m) ≡ some u
    → (lookup x m ≡ some u) ⊎ (x ≡ k)
inserted_from k x t u m e = ground (arith, e, lookup-insert k x t m)

register-Change :
    (m : Manager) (level : IsolationLevel)
    → IsSound m
    → m.next_xid + 1 < 2 ^ 32
    → Change m (begin m level).1
unfolding begin register allocate_xid
register-Change m level v room = record {
  counters = omega (arith, v.counters);
  grows = omega (arith, v.counters, room);
  fits = omega (arith, v.counters, room);
  active_from = λ x t e. elim (inserted_from m.counter x _ t m.active e) [
    | inl old ↦ inl (t, old)
    | inr at ↦ inr (omega (arith, at, v.counters), omega (arith, v.counters, room))
  ];
  committed_from = λ x e. inl e;
  committed_stays = λ x e. e;
}

finish_commit-Change :
    (m : Manager) (xid : ℕ) (u : Transaction)
    → IsSound m
    → lookup xid m.active ≡ some u
    → Change m (finish_commit m xid)
unfolding finish_commit leave_active mark_committed
finish_commit-Change m xid u v found = record {
  counters = v.counters;
  grows = omega arith;
  fits = omega arith;
  active_from = λ x t e. inl (t, ground (arith, e, lookup-erase xid x m.active));
  committed_from = λ x e. elim (Bool-cases (xid == x)) [
    | inl hit ↦
        inr ((u, ground (arith, found, hit)), ground (arith, hit, lookup-erase xid x m.active))
    | inr miss ↦ inl (unfold contains in ground (arith, e, miss))
  ];
  committed_stays = λ x e. unfold contains in ground (arith, e);
}

-- The record that a successful `abort` leaves.
abbrev finish_abort : Manager → ℕ → Manager
finish_abort m xid = record m {
  wal = Writer.append m.wal (end_entry xid RecordType.abort);
  active = erase xid m.active;
  aborted = xid ∷ m.aborted;
  locks = release_all m.locks xid;
}

finish_abort-Change : (m : Manager) (xid : ℕ) → IsSound m → Change m (finish_abort m xid)
finish_abort-Change m xid v = record {
  counters = v.counters;
  grows = omega arith;
  fits = omega arith;
  active_from = λ x t e. inl (t, ground (arith, e, lookup-erase xid x m.active));
  committed_from = λ x e. inl e;
  committed_stays = λ x e. e;
}

abort-cases :
    (m : Manager) (xid : ℕ) → ((abort m xid).1 ≡ m) ⊎ ((abort m xid).1 ≡ finish_abort m xid)
unfolding abort
abort-cases m xid = elim (Option-cases (lookup xid m.active)) [
  | inl e ↦ inl (rw (e, abort) refl)
  | inr (t, e) ↦ elim (Bool-cases (is_active_state t.state)) [
    | inl live ↦ inr (rw (e, live, abort) refl)
    | inr dead ↦ inl (rw (e, dead, abort) refl)
  ]
]

-- A committed transaction was active, and its check found no cycle.
commit-cases :
    (m : Manager) (xid : ℕ)
    → (keep_state m (commit m xid) ≡ m)
      ⊎ (((u : Transaction) × (lookup xid m.active ≡ some u))
          × (keep_state m (commit m xid) ≡ finish_commit m xid))
unfolding commit
commit-cases m xid = elim (Option-cases (lookup xid m.active)) [
  | inl e ↦ inl (rw (e, commit) refl)
  | inr (t, e) ↦ elim (Bool-cases (is_active_state t.state)) [
    | inr dead ↦ inl (rw (e, dead, commit) refl)
    | inl live ↦ elim (Option-cases (check_serializable_conflict m xid)) [
      | inl c ↦ inl (rw (e, live, c, commit) refl)
      | inr (true, c) ↦ inl (rw (e, live, c, commit) refl)
      | inr (false, c) ↦ inr ((t, e), rw (e, live, c, commit) refl)
    ]
  ]
]

-- A transaction that is active already gets a new level.
level-cases :
    (m : Manager) (xid : ℕ) (level : IsolationLevel)
    → (set_isolation_level m xid level ≡ m)
      ⊎ (((u : Transaction) × (lookup xid m.active ≡ some u))
          × ((t : Transaction) × (set_isolation_level m xid level
                ≡ record m { active = insert xid t m.active })))
unfolding set_isolation_level
level-cases m xid level = elim (Option-cases (lookup xid m.active)) [
  | inl e ↦ inl (rw (e, set_isolation_level) refl)
  | inr (t, e) ↦ inr ((t, e), (with_level m xid level t, rw (e, set_isolation_level) refl))
]

level-Change :
    (m : Manager) (xid : ℕ) (t u : Transaction)
    → IsSound m
    → lookup xid m.active ≡ some u
    → Change m (record m { active = insert xid t m.active })
level-Change m xid t u v found = record {
  counters = v.counters;
  grows = omega arith;
  fits = omega arith;
  active_from = λ x w e. elim (inserted_from xid x t w m.active e) [
    | inl old ↦ inl (w, old)
    | inr at ↦ inl (u, ground (arith, at, found))
  ];
  committed_from = λ x e. inl e;
  committed_stays = λ x e. e;
}

pub step-Change :
    (m : Manager) (c : Call) → IsSound m → m.next_xid + 1 < 2 ^ 32 → Change m (step m c)
unfolding step
step-Change m (begin_call level) v room = register-Change m level v room
step-Change m (commit_call xid) v room = elim (commit-cases m xid) [
  | inl e ↦ subst (Change m) (sym e) (Change-refl v)
  | inr ((u, found), e) ↦ subst (Change m) (sym e) (finish_commit-Change m xid u v found)
]
step-Change m (abort_call xid) v room = elim (abort-cases m xid) [
  | inl e ↦ subst (Change m) (sym e) (Change-refl v)
  | inr e ↦ subst (Change m) (sym e) (finish_abort-Change m xid v)
]
step-Change m (level_call xid level) v room = elim (level-cases m xid level) [
  | inl e ↦ subst (Change m) (sym e) (Change-refl v)
  | inr ((u, found), (t, e)) ↦ subst (Change m) (sym e) (level-Change m xid t u v found)
]

-- A transaction that ended without a commit, as far as the manager knows.
pub record IsOver (m : Manager) (x : ℕ) : Type 0 where
  pub used : x < m.next_xid
  pub inactive : lookup x m.active ≡ none
  pub uncommitted : contains m.committed x ≡ false

Change-IsOver : {m m' : Manager} (x : ℕ) → Change m m' → IsOver m x → IsOver m' x
Change-IsOver {m} {m'} x c o = record {
  used = omega (arith, o.used, c.grows);
  inactive = elim (Option-cases (lookup x m'.active)) [
    | inl gone ↦ gone
    | inr (t, now) ↦ elim (c.active_from x t now) [
      | inl (u, was) ↦ absurd (ground (arith, o.inactive, was))
      | inr (at, next) ↦ absurd (omega (arith, o.used, at))
    ]
  ];
  uncommitted = elim (Bool-cases (contains m'.committed x)) [
    | inr still ↦ still
    | inl now ↦ elim (c.committed_from x now) [
      | inl old ↦ absurd (ground (arith, o.uncommitted, old))
      | inr ((u, was), gone) ↦ absurd (ground (arith, o.inactive, was))
    ]
  ];
}

-- Calls that hand out no more ids than there are keep the invariant, keep what is committed, and
-- commit nothing that is over.
pub run-IsSound :
    (cs : List Call) {m : Manager}
    → IsSound m
    → m.next_xid + length cs < 2 ^ 32
    → IsSound (run m cs)
      × ((x : ℕ) → contains m.committed x ≡ true → contains (run m cs).committed x ≡ true)
      × ((x : ℕ) → IsOver m x → IsOver (run m cs) x)
unfolding run
run-IsSound [] v room = (v, λ x e. e, λ x o. o)
run-IsSound (c ∷ cs) {m} v room =
    let s = step-Change m c v (omega arith) in
    let (sound, keep, over) = run-IsSound cs (Change-IsSound v s) (omega (arith, room, s.fits)) in
    (sound, λ x e. keep x (s.committed_stays x e), λ x o. over x (Change-IsOver x s o))

-- A new manager is sound if the counter stands at the first id.
pub new-IsSound : (wal : Writer) → IsSound (new first_xid wal)
unfolding new contains lookup
new-IsSound wal = record {
  counters = refl;
  started = omega arith;
  active_used = λ x t e. absurd (ground (arith, e));
  committed_used = λ x e. absurd (ground (arith, e));
  ended = λ x e. refl;
}
