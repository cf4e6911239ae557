-- ===== src/Btree/Split/Tests.antt =====
-- A split of an internal node of crates/btree/src/node.rs.
use icedb.Btree.Codec.{BtreeNode, InternalEntry, internal}
use icedb.Btree.Split.{
  split_internal, SplitNodes, find_child, insert_internal_entry, insert_position, internal_below,
}
use icedb.Btree.Split.Children.{split_internal-children, child_of_halves, IsOrdered}
use icedb.Base.{nat_key, [], ◌∷◌, ok, refl, arith, ◌≡◌, List, ℕ}
use icedb.Btree.Node.{key_lt}

abbrev entry : List ℕ → ℕ → InternalEntry
entry key page = record { key = key; child_page = page }

abbrev parent : BtreeNode
parent = record {
  node_type = internal;
  right_sibling = 0;
  left_sibling = 0;
  internal_entries = entry [] 1 ∷ entry (5 ∷ []) 2 ∷ entry (9 ∷ []) 3 ∷ [];
  leaf_entries = [];
}

parent-IsOrdered : IsOrdered parent.internal_entries
unfolding key_lt
parent-IsOrdered = ((refl, (refl, tt)), ((refl, tt), (tt, tt)))

split_internal-children_example :
    (s : SplitNodes) × (split_internal parent ≡ ok s)
    × ((key : List ℕ)
        → find_child parent.internal_entries key
          ≡ child_of_halves s.left.internal_entries s.right.internal_entries s.middle_key key)
split_internal-children_example = split_internal-children parent parent-IsOrdered (omega arith)

inserted :
    insert_internal_entry parent.internal_entries (entry (7 ∷ []) 4)
    ≡ entry [] 1 ∷ entry (5 ∷ []) 2 ∷ entry (7 ∷ []) 4 ∷ entry (9 ∷ []) 3 ∷ []
unfolding insert_internal_entry insert_position internal_below key_lt
inserted = refl
