-- ===== src/Btree/Tree/Update.antt =====
-- crates/btree/src/tree.rs: `open`, `insert` and `delete`.
use icedb.Btree.State.{M, ◌>>=◌, ◌>>◌, lift, pure}
use icedb.Btree.Codec.{
  BtreeError, BtreeNode, NodeType, internal, leaf, key_not_found, duplicate_key, is_full,
}
use icedb.Btree.Codec
use icedb.Btree.Meta.{BtreeMeta}
use icedb.Btree.Node.{Found, found_at, missing, index_panic, LeafEntry, find_key, insert_leaf_entry}
use icedb.Btree.Tree.Search.{PagePath, find_leaf_path, rounds}
use icedb.Btree.Split.{split_leaf, split_internal, insert_internal_entry}
use icedb.Base.{
  nat_key, zero, suc, [], ◌∷◌, none, some, true, false, ok, err, ◌+◌, if◌then◌else◌, List, Option,
  ℕ, Outcome, ◌==◌, panic, ltb, ◌^◌, ◌-◌, Bool,
}
use icedb.Btree.Tree.{
  write_meta, allocate_through, write_page, read_node, num_pages, read_meta, write_node,
}
use icedb.Storage.Tuple.{Tid}

abbrev pub new_leaf : BtreeNode
new_leaf = record {
  node_type = leaf;
  right_sibling = 0;
  left_sibling = 0;
  internal_entries = [];
  leaf_entries = [];
}

-- The body of `open` for an empty file.
unfoldable pub initialize : M (Unit {0})
initialize = do
  write_meta (record { root_page = 1; height = 1; num_entries = 0; next_page = 2 })
  page ← lift (Codec.encode new_leaf)
  λ t. (ok tt, record t { pages = write_page t.pages 1 page })

-- `open` on the pages of a file.
unfoldable pub open_index : M (Unit {0})
open_index t = if num_pages t.pages == 0 then initialize t else (ok tt, t)

abbrev pub reject_duplicate : Found → Outcome BtreeError (Unit {0})
reject_duplicate (found_at i) = err duplicate_key
reject_duplicate missing = ok tt
reject_duplicate index_panic = panic
reject_duplicate Found.out_of_fuel = err BtreeError.out_of_fuel

abbrev pub with_entries : BtreeNode → Option (List LeafEntry) → Outcome BtreeError BtreeNode
with_entries node none = panic
with_entries node (some es) = ok (record node { leaf_entries = es })

-- `+= 1` on an integer of `bits` bits.
abbrev pub increment : ℕ → ℕ → Outcome BtreeError ℕ
increment bits n = if ltb (n + 1) (2 ^ bits) then ok (n + 1) else panic

-- The page `meta.next_page` is taken: the new meta record, with the file long enough for it.
unfoldable pub take_page : BtreeMeta → M BtreeMeta
take_page meta = do
  next ← lift (increment 32 meta.next_page)
  allocate_through meta.next_page
  pure (record meta { next_page = next })

unfoldable pub grow_root : ℕ → BtreeMeta → List ℕ → ℕ → M BtreeMeta
grow_root xid meta promoted right_child = do
  taken ← take_page meta
  write_node xid meta.next_page (record new_leaf {
    node_type = internal;
    internal_entries =
        record { key = []; child_page = meta.root_page }
        ∷ record { key = promoted; child_page = right_child }
        ∷ [];
  })
  height ← lift (increment 32 meta.height)
  pure (record taken { root_page = meta.next_page; height = height })

-- The loop that carries a promoted key up: the pages above, the lowest first.
unfoldable pub propagate : ℕ → List ℕ → BtreeMeta → List ℕ → ℕ → M BtreeMeta
propagate xid [] meta promoted right_child = grow_root xid meta promoted right_child
propagate xid (page_no ∷ parents) meta promoted right_child = do
  old ← read_node page_no
  let parent = record old {
    internal_entries =
        insert_internal_entry old.internal_entries
          (record { key = promoted; child_page = right_child });
  }
  full ← lift (is_full parent)
  elim full [
    | false ↦ write_node xid page_no parent >> pure meta
    | true ↦ lift (split_internal parent) >>= λ s. take_page meta >>= λ taken.
        write_node xid page_no s.left
        >> write_node xid meta.next_page s.right
        >> propagate xid parents taken s.middle_key meta.next_page
  ]

-- The left sibling of the page behind a split leaf, if there is one.
unfoldable pub relink : ℕ → ℕ → ℕ → M (Unit {0})
relink xid page_no left =
    if page_no == 0
    then pure tt
    else (read_node page_no >>= λ old. write_node xid page_no (record old { left_sibling = left }))

unfoldable pub split_and_insert : ℕ → BtreeMeta → PagePath → BtreeNode → M (Unit {0})
split_and_insert xid meta path full = do
  s ← lift (split_leaf full)
  taken ← take_page meta
  relink xid s.left.right_sibling meta.next_page
  write_node xid path.leaf_page (record s.left { right_sibling = meta.next_page })
  write_node xid meta.next_page
      (record s.right { left_sibling = path.leaf_page; right_sibling = s.left.right_sibling })
  grown ← propagate xid path.parents taken s.middle_key meta.next_page
  write_meta grown

-- The entry is in the leaf, which is written back, or split first when it is full.
unfoldable pub store_leaf : ℕ → BtreeMeta → PagePath → BtreeNode → Bool → M (Unit {0})
store_leaf xid meta path node true = split_and_insert xid meta path node
store_leaf xid meta path node false = write_node xid path.leaf_page node >> write_meta meta

unfoldable pub insert : ℕ → List ℕ → Tid → M (Unit {0})
insert xid key tid = do
  meta ← read_meta
  fuel ← rounds
  path ← find_leaf_path fuel [] meta.root_page key
  old ← read_node path.leaf_page
  lift (reject_duplicate (find_key old.leaf_entries key))
  let e : LeafEntry = record { key = key; tid = tid }
  new ← lift (with_entries old (insert_leaf_entry old.leaf_entries e))
  count ← lift (increment 64 meta.num_entries)
  full ← lift (is_full new)
  store_leaf xid (record meta { num_entries = count }) path new full

-- `Vec::remove`, in range.
abbrev pub remove : List LeafEntry → ℕ → List LeafEntry
remove [] i = []
remove (e ∷ es) zero = es
remove (e ∷ es) (suc i) = e ∷ remove es i

abbrev pub found_index : Found → Outcome BtreeError ℕ
found_index (found_at i) = ok i
found_index missing = err key_not_found
found_index index_panic = panic
found_index Found.out_of_fuel = err BtreeError.out_of_fuel

unfoldable pub delete : ℕ → List ℕ → M (Unit {0})
delete xid key = do
  meta ← read_meta
  fuel ← rounds
  path ← find_leaf_path fuel [] meta.root_page key
  old ← read_node path.leaf_page
  i ← lift (found_index (find_key old.leaf_entries key))
  write_node xid path.leaf_page (record old { leaf_entries = remove old.leaf_entries i })
  write_meta (record meta { num_entries = meta.num_entries - 1 })
