-- ===== src/Txn/Snapshot.antt =====
-- crates/txn/src/snapshot.rs and visibility.rs: which transactions and which tuple versions a
-- snapshot sees.
use icedb.Base.{
  ℕ, Bool, true, false, not, ◌&&◌, List, ltb, leb, ◌==◌, if◌then◌else◌, contains, nat_key,
}
use icedb.Storage.Tuple.{TupleHeader}
use icedb.Txn.Xid.{invalid_xid}

pub record Snapshot : Type 0 where
  pub xmin : ℕ
  pub xmax : ℕ
  pub in_progress : List ℕ

unfoldable pub xid_is_visible : Snapshot → ℕ → Bool
xid_is_visible s xid =
    if xid == invalid_xid
    then false
    else if ltb xid s.xmin
    then true
    else if leb s.xmax xid
    then false
    else not (contains s.in_progress xid)

unfoldable pub is_tuple_visible : TupleHeader → Snapshot → List ℕ → Bool
is_tuple_visible header snapshot committed =
    if not (contains committed header.t_xmin)
    then false
    else if not (xid_is_visible snapshot header.t_xmin)
    then false
    else if header.t_xmax == invalid_xid
    then true
    else if contains committed header.t_xmax && xid_is_visible snapshot header.t_xmax
    then false
    else true
