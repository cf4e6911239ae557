-- ===== src/Txn/Manager/Recovery.antt =====
-- `TransactionManager::new_with_wal_recovery`: which transactions a restarted process takes for
-- committed and aborted, and where it goes on with the ids.
use icedb.Base.{
  ℕ, ◌+◌, ◌^◌, ◌-◌, ◌≤◌, ◌<◌, ◌≡◌, refl, sym, subst, min, Bool, true, false, not, ◌||◌, ◌&&◌, List,
  [], ◌∷◌, arith, length, ltb, ◌==◌, if◌then◌else◌, All, contains, discard, nat_key,
}
use icedb.Wal.Record.{WalRecord, RecordType, encode}
use icedb.Wal.Record.RoundTrip.{IsWellFormed}
use icedb.Wal.Reader.{ReadEnd, read_all}
use icedb.Wal.Writer.{Writer, Entry, files, append_all, open_fresh}
use icedb.Wal.Log.Append.{EntryFits, numbered}
use icedb.Wal.Log.Torn.{torn_write, read_all-torn_write}
use icedb.Txn.Xid.{frozen_xid, advance_next_xid}
use icedb.Txn.Manager
use icedb.Txn.Manager.{Manager}

-- One round of the loop on the two sets.
unfoldable pub recover_record : RecordType → ℕ → Manager → Manager
recover_record RecordType.commit xid m = record m {
  committed = xid ∷ m.committed;
  aborted = discard xid m.aborted;
}
recover_record RecordType.abort xid m = record m { aborted = xid ∷ m.aborted }
recover_record _ xid m = m

abbrev pub larger : ℕ → ℕ → ℕ
larger max_xid xid = if ltb max_xid xid then xid else max_xid

-- The loop; beside the manager it carries `max_xid`.
unfoldable pub recover_records : List WalRecord → Manager → ℕ → Manager × ℕ
recover_records [] m max_xid = (m, max_xid)
recover_records (r ∷ rs) m max_xid =
    recover_records rs (recover_record r.record_type r.xid m) (larger max_xid r.xid)

abbrev pub saturating_add_one : ℕ → ℕ
saturating_add_one max_xid = min (max_xid + 1) (2 ^ 32 - 1)

-- The manager that the records of the log make, and the ids that it goes on with.
unfoldable pub recover_from : ℕ → Writer → List WalRecord → Manager
recover_from counter wal records =
    let (m, max_xid) = recover_records records (Manager.new counter wal) frozen_xid in
    let recovered_next = saturating_add_one max_xid in
    record m {
      counter = advance_next_xid counter recovered_next;
      next_xid = if ltb m.next_xid recovered_next then recovered_next else m.next_xid;
    }

-- The loop ends at the end of the log and at the first error alike; `fuel` bounds its rounds.
unfoldable pub new_with_wal_recovery : ℕ → ℕ → Writer → Manager
new_with_wal_recovery fuel counter wal = recover_from counter wal (read_all fuel (files wal)).0

-- Some entry ends the transaction `xid` with a record of this type.
abbrev pub is_commit : RecordType → Bool
is_commit RecordType.commit = true
is_commit _ = false

unfoldable pub commits : List Entry → ℕ → Bool
commits [] xid = false
commits (e ∷ es) xid = (is_commit e.record_type && (e.xid == xid)) || commits es xid

abbrev pub is_abort : RecordType → Bool
is_abort RecordType.abort = true
is_abort _ = false

-- `xid` aborted, and did not commit later on.
unfoldable pub aborts : List Entry → ℕ → Bool
aborts [] xid = false
aborts (e ∷ es) xid =
    aborts es xid || (is_abort e.record_type && (e.xid == xid) && not (commits es xid))

contains-discard :
    (a x : ℕ) (xs : List ℕ) → contains (discard a xs) x ≡ (contains xs x && not (a == x))
unfolding contains discard
contains-discard a x [] = refl
contains-discard a x (y ∷ ys) = ground (arith, contains-discard a x ys)

-- The effect of one record on the two sets.
recover_record-committed :
    (t : RecordType) (xid : ℕ) (m : Manager) (x : ℕ)
    → contains (recover_record t xid m).committed x
      ≡ ((is_commit t && (xid == x)) || contains m.committed x)
unfolding contains recover_record
recover_record-committed RecordType.insert xid m x = refl
recover_record-committed RecordType.delete xid m x = refl
recover_record-committed RecordType.update xid m x = refl
recover_record-committed RecordType.commit xid m x = refl
recover_record-committed RecordType.abort xid m x = refl
recover_record-committed RecordType.checkpoint xid m x = refl
recover_record-committed RecordType.page_image xid m x = refl

recover_record-aborted :
    (t : RecordType) (xid : ℕ) (m : Manager) (x : ℕ)
    → contains (recover_record t xid m).aborted x
      ≡ ((is_abort t && (xid == x)) || (contains m.aborted x && not (is_commit t && (xid == x))))
unfolding contains recover_record
recover_record-aborted RecordType.insert xid m x = ground (arith, contains-discard xid x m.aborted)
recover_record-aborted RecordType.delete xid m x = ground (arith, contains-discard xid x m.aborted)
recover_record-aborted RecordType.update xid m x = ground (arith, contains-discard xid x m.aborted)
recover_record-aborted RecordType.commit xid m x = ground (arith, contains-discard xid x m.aborted)
recover_record-aborted RecordType.abort xid m x = ground (arith, contains-discard xid x m.aborted)
recover_record-aborted RecordType.checkpoint xid m x =
    ground (arith, contains-discard xid x m.aborted)
recover_record-aborted RecordType.page_image xid m x =
    ground (arith, contains-discard xid x m.aborted)

commit_xor_abort : (t : RecordType) → (is_commit t && is_abort t) ≡ false
commit_xor_abort RecordType.insert = refl
commit_xor_abort RecordType.delete = refl
commit_xor_abort RecordType.update = refl
commit_xor_abort RecordType.commit = refl
commit_xor_abort RecordType.abort = refl
commit_xor_abort RecordType.checkpoint = refl
commit_xor_abort RecordType.page_image = refl

recover_records-committed :
    (es : List Entry) (n : ℕ) (m : Manager) (k x : ℕ)
    → contains (recover_records (numbered n es) m k).0.committed x
      ≡ (commits es x || contains m.committed x)
unfolding recover_records commits
recover_records-committed [] n m k x = refl
recover_records-committed (e ∷ es) n m k x = ground (
  arith,
  recover_records-committed es (n + 1) (recover_record e.record_type e.xid m) (larger k e.xid) x,
  recover_record-committed e.record_type e.xid m x,
)

recover_records-aborted :
    (es : List Entry) (n : ℕ) (m : Manager) (k x : ℕ)
    → contains (recover_records (numbered n es) m k).0.aborted x
      ≡ (aborts es x || (contains m.aborted x && not (commits es x)))
unfolding recover_records commits aborts
recover_records-aborted [] n m k x = ground arith
recover_records-aborted (e ∷ es) n m k x = ground (
  arith,
  recover_records-aborted es (n + 1) (recover_record e.record_type e.xid m) (larger k e.xid) x,
  recover_record-aborted e.record_type e.xid m x,
  commit_xor_abort e.record_type,
)

recover_records-max :
    (es : List Entry) (n : ℕ) (m : Manager) (k : ℕ)
    → (k ≤ (recover_records (numbered n es) m k).1)
      × All (λ (e : Entry). e.xid ≤ (recover_records (numbered n es) m k).1) es
unfolding recover_records
recover_records-max [] n m k = (omega arith, tt)
recover_records-max (e ∷ es) n m k =
    let (bound, all) =
      recover_records-max es (n + 1) (recover_record e.record_type e.xid m) (larger k e.xid) in
    (ground (arith, bound), (ground (arith, bound), all))

-- The ids that `new_with_wal_recovery` goes on with are above those of the log.
All-below :
    (es : List Entry) (bound next : ℕ)
    → All (λ (e : Entry). e.xid ≤ bound) es
    → saturating_add_one bound ≤ next
    → All (λ (e : Entry). e.xid + 1 < 2 ^ 32 → e.xid < next) es
All-below [] bound next h le = tt
All-below (e ∷ es) bound next h le =
    (λ room. ground (arith, h.0, le, room), All-below es bound next h.1 le)

-- What a manager that was recovered knows of the entries of a log.
pub record IsRecovered (m : Manager) (es : List Entry) : Type 0 where
  pub committed : (xid : ℕ) → contains m.committed xid ≡ commits es xid
  pub aborted : (xid : ℕ) → contains m.aborted xid ≡ aborts es xid
  pub above : All (λ (e : Entry). e.xid + 1 < 2 ^ 32 → e.xid < m.next_xid) es
  pub handed_out : All (λ (e : Entry). e.xid + 1 < 2 ^ 32 → e.xid < m.counter) es

new-knows_none :
    (counter : ℕ) (wal : Writer) (x : ℕ)
    → (contains (Manager.new counter wal).committed x ≡ false)
      × (contains (Manager.new counter wal).aborted x ≡ false)
unfolding Manager.new contains
new-knows_none counter wal x = (refl, refl)

recover_from-IsRecovered :
    (counter : ℕ) (wal : Writer) (es : List Entry)
    → IsRecovered (recover_from counter wal (numbered 0 es)) es
unfolding recover_from advance_next_xid
recover_from-IsRecovered counter wal es =
    let start = Manager.new counter wal in
    let max = recover_records-max es 0 start frozen_xid in
    record {
      committed = λ xid. ground (
        arith,
        recover_records-committed es 0 start frozen_xid xid,
        new-knows_none counter wal xid,
      );
      aborted = λ xid. ground (
        arith,
        recover_records-aborted es 0 start frozen_xid xid,
        new-knows_none counter wal xid,
      );
      above = All-below es _ _ max.1 (ground arith);
      handed_out = All-below es _ _ max.1 (ground arith);
    }

-- A process that restarts after a crash in the middle of a log write takes a transaction for
-- committed exactly when a commit record of it was written before, and for aborted exactly when an
-- abort record was written and no commit record after it; and the id that it hands out next, and
-- the one that its snapshots end before, are above every id in the log but the largest of 32 bits.
pub new_with_wal_recovery-torn_write :
    (counter size : ℕ) (es : List Entry) (n : ℕ) (r : WalRecord)
    → length es < 2 ^ 64
    → All EntryFits es
    → IsWellFormed r
    → n < length (encode r)
    → IsRecovered
        (new_with_wal_recovery
          (length es + 1)
          counter
          (torn_write (append_all (open_fresh size) es) n r))
        es
unfolding new_with_wal_recovery
new_with_wal_recovery-torn_write counter size es n r few fit w cut =
    let wal = torn_write (append_all (open_fresh size) es) n r in
    subst (λ (read : List WalRecord × ReadEnd). IsRecovered (recover_from counter wal read.0) es)
      (sym (read_all-torn_write size es n r few fit w cut))
      (recover_from-IsRecovered counter wal es)
