-- ===== src/Btree/Tree/Search.antt =====
-- crates/btree/src/tree.rs: `find_leaf_path` and `search`. A descent reads each page at most once, so
-- as many rounds as the file has pages are enough.
use icedb.Btree.State.{M, ◌>>=◌, lift, pure}
use icedb.Btree.Codec.{BtreeError, internal, leaf, key_not_found}
use icedb.Btree.Node.{Found, found_at, missing, index_panic, LeafEntry, find_key}
use icedb.Base.{
  nat_key, zero, suc, ◌∷◌, none, some, ok, err, List, ℕ, Option, Outcome, get_elem?, panic,
}
use icedb.Btree.Tree.{num_pages, read_meta, read_node}
use icedb.Storage.Tuple.{Tid}
use icedb.Btree.Split.{find_child}

-- The pages from the root to a leaf: the leaf, and the pages above it, the lowest first.
pub record PagePath : Type 0 where
  pub leaf_page : ℕ
  pub parents : List ℕ

unfoldable pub find_leaf_path : ℕ → List ℕ → ℕ → List ℕ → M PagePath
find_leaf_path zero parents current key = lift (err BtreeError.out_of_fuel)
find_leaf_path (suc fuel) parents current key = do
  node ← read_node current
  elim node.node_type [
    | leaf ↦ pure (record { leaf_page = current; parents = parents })
    | internal ↦ lift (find_child node.internal_entries key) >>= λ child.
        find_leaf_path fuel (current ∷ parents) child key
  ]

-- The rounds that the model gives a descent.
unfoldable pub rounds : M ℕ
rounds t = (ok (num_pages t.pages), t)

abbrev pub tid_of : Option LeafEntry → Outcome BtreeError Tid
tid_of none = panic
tid_of (some e) = ok e.tid

abbrev pub answer : List LeafEntry → Found → Outcome BtreeError Tid
answer es (found_at i) = tid_of (get_elem? es i)
answer es missing = err key_not_found
answer es index_panic = panic
answer es Found.out_of_fuel = err BtreeError.out_of_fuel

unfoldable pub search_from : ℕ → ℕ → List ℕ → M Tid
search_from zero current key = lift (err BtreeError.out_of_fuel)
search_from (suc fuel) current key = do
  node ← read_node current
  elim node.node_type [
    | leaf ↦ lift (answer node.leaf_entries (find_key node.leaf_entries key))
    | internal ↦ lift (find_child node.internal_entries key) >>= λ child. search_from fuel child key
  ]

unfoldable pub search : List ℕ → M Tid
search key = do meta ← read_meta; fuel ← rounds; search_from fuel meta.root_page key

unfoldable pub num_entries : M ℕ
num_entries = do meta ← read_meta; pure meta.num_entries
