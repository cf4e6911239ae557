-- ===== src/Btree/Tree/Range.antt =====
-- crates/btree/src/tree.rs: `range_scan`, from the leaf of the lower bound along the right siblings.
-- A descent, and the chain of the leaves, read each page at most once.
use icedb.Btree.State.{M, ◌>>=◌, lift, pure}
use icedb.Btree.Codec.{BtreeError, BtreeNode, NodeType, InternalEntry, internal, leaf}
use icedb.Btree.Tree.Search.{rounds}
use icedb.Base.{
  nat_key, zero, suc, [], ◌∷◌, none, some, true, false, ok, err, ◌+◌, ℕ, Option, List, Bool,
  Outcome, ◌==◌, if◌then◌else◌, ◌++◌, panic,
}
use icedb.Btree.Tree.{read_node, read_meta}
use icedb.Btree.Node.{LeafEntry, key_lt}
use icedb.Btree.Split.{find_child}

-- The leaf for the start key; without one, the leftmost leaf (or an internal node with no entry).
abbrev pub child_towards : Option (List ℕ) → List InternalEntry → Outcome BtreeError ℕ
child_towards (some key) entries = find_child entries key
child_towards none [] = panic
child_towards none (e ∷ es) = ok e.child_page

abbrev pub stops_here : Option (List ℕ) → BtreeNode → NodeType → Bool
stops_here start node leaf = true
stops_here (some key) node internal = false
stops_here none node internal = elim node.internal_entries [ [] ↦ true | e ∷ es ↦ false ]

unfoldable pub first_leaf : ℕ → Option (List ℕ) → ℕ → M ℕ
first_leaf zero start current = lift (err BtreeError.out_of_fuel)
first_leaf (suc fuel) start current = do
  node ← read_node current
  elim (stops_here start node node.node_type) [
    | true ↦ pure current
    | false ↦
        lift (child_towards start node.internal_entries) >>= λ child. first_leaf fuel start child
  ]

abbrev pub below_start : Option (List ℕ) → List ℕ → Bool
below_start none key = false
below_start (some start) key = key_lt key start

abbrev pub above_end : Option (List ℕ) → List ℕ → Bool
above_end none key = false
above_end (some end_key) key = key_lt end_key key

-- The entries of a leaf in the range, and whether the end was passed.
unfoldable pub scan_leaf :
    Option (List ℕ) → Option (List ℕ) → List LeafEntry → List LeafEntry × Bool
scan_leaf start end_key [] = ([], false)
scan_leaf start end_key (e ∷ es) =
    let later = scan_leaf start end_key es in
    if below_start start e.key
    then later
    else if above_end end_key e.key
    then ([], true)
    else (e ∷ later.0, later.1)

-- The loop over the leaves. Page 0 ends the chain.
unfoldable pub scan_from :
    ℕ → Option (List ℕ) → Option (List ℕ) → ℕ → List LeafEntry → M (List LeafEntry)
scan_from zero start end_key current found = lift (err BtreeError.out_of_fuel)
scan_from (suc fuel) start end_key current found = elim (current == 0) [
  | true ↦ pure found
  | false ↦ read_node current >>= λ node. elim (scan_leaf start end_key node.leaf_entries).1 [
    | true ↦ pure (found ++ (scan_leaf start end_key node.leaf_entries).0)
    | false ↦
        scan_from fuel start end_key node.right_sibling
          (found ++ (scan_leaf start end_key node.leaf_entries).0)
  ]
]

unfoldable pub range_scan : Option (List ℕ) → Option (List ℕ) → M (List LeafEntry)
range_scan start end_key = do
  meta ← read_meta
  fuel ← rounds
  first ← first_leaf fuel start meta.root_page
  scan_from (fuel + 1) start end_key first []
