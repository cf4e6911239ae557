-- ===== src/Btree/Split.antt =====
-- crates/btree/src/node.rs and tree.rs: the children of an internal node, insertion among them, and
-- the splits. `partition_point` is the number of entries in front that pass its test.
pub mod Children
pub mod Tests
use icedb.Btree.Node.{LeafEntry, key_lt}
use icedb.Btree.Codec.{BtreeError, BtreeNode, InternalEntry, internal, leaf}
use icedb.Base.{
  nat_key, zero, suc, [], ◌∷◌, none, some, true, false, inl, inr, ok, err, refl, arith, ◌>>=◌, ◌>>◌,
  ◌≡◌, ◌+◌, Option, List, Outcome, ℕ, panic, length, take, Bool, if◌then◌else◌, ◌/◌, ◌++◌,
  get_elem?, min, drop, ◌-◌,
}

-- `partition_point(|e| e.key <= key)`
unfoldable pub entries_up_to : List InternalEntry → List ℕ → ℕ
entries_up_to [] key = 0
entries_up_to (e ∷ es) key =
    let rest = entries_up_to es key in if key_lt key e.key then 0 else suc rest

abbrev pub child_at : Option InternalEntry → Outcome BtreeError ℕ
child_at none = panic
child_at (some e) = ok e.child_page

-- `find_child` of tree.rs; a node with no children panics.
unfoldable pub find_child : List InternalEntry → List ℕ → Outcome BtreeError ℕ
find_child entries key =
    child_at (get_elem? entries (min (entries_up_to entries key - 1) (length entries - 1)))

-- `partition_point(|e| e.key < key)`
unfoldable pub internal_below : List InternalEntry → List ℕ → ℕ
internal_below [] key = 0
internal_below (e ∷ es) key =
    let rest = internal_below es key in if key_lt e.key key then suc rest else 0

abbrev pub is_empty : List ℕ → Bool
is_empty [] = true
is_empty (b ∷ bs) = false

-- The number of leading entries that stay in front of any other: the leftmost child's.
abbrev pub leftmost : List InternalEntry → ℕ
leftmost [] = 0
leftmost (e ∷ es) = if is_empty e.key then 1 else 0

unfoldable pub insert_position : List InternalEntry → List ℕ → ℕ
insert_position entries key =
    let start = leftmost entries in
    if is_empty key then 0 else start + internal_below (drop start entries) key

-- `Vec::insert` at a position in range.
unfoldable pub insert_internal_entry : List InternalEntry → InternalEntry → List InternalEntry
insert_internal_entry entries e =
    let pos = insert_position entries e.key in take pos entries ++ (e ∷ drop pos entries)

-- A split gives the left node, the right node and the key between them.
pub record SplitNodes : Type 0 where
  pub left : BtreeNode
  pub right : BtreeNode
  pub middle_key : List ℕ

abbrev pub split_leaf_at :
    BtreeNode → List LeafEntry → List LeafEntry → Outcome BtreeError SplitNodes
split_leaf_at n front [] = panic
split_leaf_at n front (e ∷ es) = ok (record {
  left = record n { leaf_entries = front };
  right = record {
    node_type = leaf;
    right_sibling = n.right_sibling;
    left_sibling = 0;
    internal_entries = [];
    leaf_entries = e ∷ es;
  };
  middle_key = e.key;
})

unfoldable pub split_leaf : BtreeNode → Outcome BtreeError SplitNodes
split_leaf n =
    let mid = length n.leaf_entries / 2 in
    split_leaf_at n (take mid n.leaf_entries) (drop mid n.leaf_entries)

-- The promoted entry's child becomes the leftmost child of the right node.
abbrev pub split_internal_at :
    BtreeNode → List InternalEntry → List InternalEntry → Outcome BtreeError SplitNodes
split_internal_at n front [] = panic
split_internal_at n front (promoted ∷ remaining) = ok (record {
  left = record n { internal_entries = front };
  right = record {
    node_type = internal;
    right_sibling = 0;
    left_sibling = 0;
    internal_entries = record { key = []; child_page = promoted.child_page } ∷ remaining;
    leaf_entries = [];
  };
  middle_key = promoted.key;
})

unfoldable pub split_internal : BtreeNode → Outcome BtreeError SplitNodes
split_internal n =
    let mid = length n.internal_entries / 2 in
    split_internal_at n (take mid n.internal_entries) (drop mid n.internal_entries)
