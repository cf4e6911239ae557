-- ===== src/Btree/Tree/Tests.antt =====
-- A small index, and the inputs of the theorems about the operations of crates/btree/src/tree.rs.
use icedb.Btree.State.{Index}
use icedb.Btree.Codec
use icedb.Btree.Codec.{BtreeNode, key_not_found, duplicate_key, is_full, encoded_size, leaf_size}
use icedb.Btree.Codec.RoundTrip.{decode-encode_node}
use icedb.Btree.Tree.Update.{new_leaf, insert, delete}
use icedb.Btree.Tree.Search.{search}
use icedb.Btree.Tree.Fresh.{
  opened, first_meta, opened-IsIndex, root-IsLeaf, root-Descends, new_leaf-IsWellFormed,
  new_leaf_small,
}
use icedb.Btree.Tree.Refine.Insert.{insert-Refines, insert-duplicate}
use icedb.Btree.Tree.Refine.Delete.{delete-Refines, delete-missing}
use icedb.Base.{nat_key, [], ◌∷◌, false, ok, err, refl, arith, ◌≡◌, List, ℕ, ap}
use icedb.Wal.Writer.{default_segment_size}
use icedb.Btree.Tree.Store.{IsIndex, IsLeaf, search-IsLeaf}
use icedb.Storage.Tuple.{Tid}
use icedb.Btree.Node.Lookup.{tid_for, place}
use icedb.Btree.Tree.Refine.{counting, Refines, with_leaf}
use icedb.Btree.Tree.Descent.{Descends}
use icedb.Btree.Codec.Entries.{LeafFits}

abbrev no_file : Index
no_file = record {
  pages = [];
  wal = record {
    closed = [];
    current_file = [];
    current_lsn = 0;
    prev_lsn = 0;
    current_segment = 1;
    segment_size = default_segment_size;
  };
  index_id = 3;
}

empty_page : (page : List ℕ) × (Codec.encode new_leaf ≡ ok page) × (Codec.decode page ≡ ok new_leaf)
empty_page = decode-encode_node new_leaf new_leaf-IsWellFormed new_leaf_small

abbrev start : Index
start = opened no_file refl (omega arith) empty_page.0

start-IsIndex : IsIndex start first_meta
start-IsIndex = opened-IsIndex no_file refl (omega arith) empty_page.0 empty_page.2

start-IsLeaf : IsLeaf start.pages 1 new_leaf
start-IsLeaf = root-IsLeaf no_file refl (omega arith) empty_page.0 empty_page.2

start-Descends : (key : List ℕ) → Descends start.pages 2 1 key 1
start-Descends = root-Descends no_file refl (omega arith) empty_page.0 empty_page.2

start_empty : (key : List ℕ) → (search key start).0 ≡ err key_not_found
unfolding tid_for
start_empty key =
    ap (λ r. r.0)
      (search-IsLeaf start first_meta start-IsIndex key 1 new_leaf start-IsLeaf
        (start-Descends key))

abbrev key : List ℕ
key = 2 ∷ 128 ∷ 0 ∷ 0 ∷ 7 ∷ []

abbrev tid : Tid
tid = record { page_no = 4; slot = 1 }

delete-missing_example : delete 9 key start ≡ (err key_not_found, start)
delete-missing_example =
    delete-missing start first_meta start-IsIndex 9 key 1 new_leaf start-IsLeaf (start-Descends key)
      (start_empty key)

entry_fits : LeafFits (record { key = key; tid = tid })
entry_fits = omega arith

room : is_full (with_leaf new_leaf (place [] (record { key = key; tid = tid }))) ≡ ok false
unfolding is_full place encoded_size leaf_size
room = refl

insert-Refines_example :
    (t' : Index) × (insert 9 key tid start ≡ (ok tt, t'))
    × IsIndex t' (counting first_meta 1)
    × Refines start key t' (ok tid)
insert-Refines_example =
    insert-Refines start first_meta start-IsIndex 9 key 1 new_leaf start-IsLeaf (start-Descends key)
      tid entry_fits (start_empty key) room (omega arith)

filled :
    (t' : Index) × (insert 9 key tid start ≡ (ok tt, t'))
    × IsIndex t' (counting first_meta 1)
    × Refines start key t' (ok tid)
filled =
    insert-Refines start first_meta start-IsIndex 9 key 1 new_leaf start-IsLeaf (start-Descends key)
      tid entry_fits (start_empty key) room (omega arith)

abbrev one : Index
one = filled.0

insert-duplicate_example :
    insert 10 key (record { page_no = 5; slot = 1 }) one ≡ (err duplicate_key, one)
insert-duplicate_example =
    insert-duplicate one (counting first_meta 1) filled.2 10 key (filled.2.leaves key).0
      (filled.2.leaves key).1 (filled.2.leaves key).2 (filled.2.leaves key).3
      (record { page_no = 5; slot = 1 }) tid filled.3.0

delete-Refines_example :
    (t' : Index) × (delete 11 key one ≡ (ok tt, t'))
    × IsIndex t' (counting (counting first_meta 1) 0)
    × Refines one key t' (err key_not_found)
delete-Refines_example =
    delete-Refines one (counting first_meta 1) filled.2 11 key (filled.2.leaves key).0
      (filled.2.leaves key).1 (filled.2.leaves key).2 (filled.2.leaves key).3 tid filled.3.0
