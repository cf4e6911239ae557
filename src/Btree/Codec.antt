-- ===== src/Btree/Codec.antt =====
-- crates/btree/src/node.rs: a node and its page, and the errors of error.rs that occur there. The
-- buffer is written from its front on, so it is the bytes written and zeroes behind them; a position
-- in the buffer that is read is the list of the bytes from there on.

pub mod Entries
pub mod RoundTrip
pub mod Tests
use icedb.Base.{
  nat_key, zero, suc, [], ◌∷◌, none, some, true, false, inl, inr, ok, err, refl, arith, ◌>>=◌, ◌>>◌,
  ◌≡◌, ◌+◌, Outcome, ℕ, List, from_le, if◌then◌else◌, Bool, to_le, guard, length, leb, require,
  ◌++◌, slice, ◌==◌, replicate, get_or, drop, ltb, take, ◌-◌,
}
use icedb.Storage.Page.{page_size}
use icedb.Btree.Node.{LeafEntry}

abbrev pub node_header_size : ℕ
node_header_size = 11

abbrev pub full_threshold : ℕ
full_threshold = 300

-- The errors of this crate; input, storage and log errors do not occur here. `out_of_fuel` stands for
-- a loop of the model that was cut off.
pub data BtreeError : Type 0 where
  invalid_page : ℕ → BtreeError
  key_not_found duplicate_key empty_tree corrupt_meta out_of_fuel : BtreeError

pub data NodeType : Type 0 where
  internal leaf : NodeType

pub record InternalEntry : Type 0 where
  pub key : List ℕ
  pub child_page : ℕ

pub record BtreeNode : Type 0 where
  pub node_type : NodeType
  pub right_sibling : ℕ
  pub left_sibling : ℕ
  pub internal_entries : List InternalEntry
  pub leaf_entries : List LeafEntry

abbrev pub entry_size : ℕ → Bool → ℕ
entry_size key_len true = 2 + key_len + 4 + 2
entry_size key_len false = 2 + key_len + 4

unfoldable pub leaf_size : List LeafEntry → ℕ
leaf_size [] = 0
leaf_size (e ∷ es) = entry_size (length e.key) true + leaf_size es

unfoldable pub internal_size : List InternalEntry → ℕ
internal_size [] = 0
internal_size (e ∷ es) = entry_size (length e.key) false + internal_size es

abbrev pub entries_size : NodeType → BtreeNode → ℕ
entries_size leaf n = leaf_size n.leaf_entries
entries_size internal n = internal_size n.internal_entries

unfoldable pub encoded_size : BtreeNode → ℕ
encoded_size n = node_header_size + entries_size n.node_type n

-- The subtraction panics on a node that is larger than a page.
unfoldable pub is_full : BtreeNode → Outcome BtreeError Bool
is_full n =
    require (leb (encoded_size n) page_size) >> ok (ltb (page_size - encoded_size n) full_threshold)

abbrev pub node_type_byte : NodeType → ℕ
node_type_byte internal = 0
node_type_byte leaf = 1

abbrev pub num_entries : NodeType → BtreeNode → ℕ
num_entries leaf n = length n.leaf_entries
num_entries internal n = length n.internal_entries

unfoldable pub encode_leaf_entries : List LeafEntry → List ℕ
encode_leaf_entries [] = []
encode_leaf_entries (e ∷ es) =
    to_le 2 (length e.key)
    ++ (e.key ++ (to_le 4 e.tid.page_no ++ (to_le 2 e.tid.slot ++ encode_leaf_entries es)))

unfoldable pub encode_internal_entries : List InternalEntry → List ℕ
encode_internal_entries [] = []
encode_internal_entries (e ∷ es) =
    to_le 2 (length e.key) ++ (e.key ++ (to_le 4 e.child_page ++ encode_internal_entries es))

abbrev pub encode_entries : NodeType → BtreeNode → List ℕ
encode_entries leaf n = encode_leaf_entries n.leaf_entries
encode_entries internal n = encode_internal_entries n.internal_entries

unfoldable pub encode_header : BtreeNode → List ℕ
encode_header n =
    node_type_byte n.node_type
    ∷ (to_le 2 (num_entries n.node_type n) ++ (to_le 4 n.right_sibling ++ to_le 4 n.left_sibling))

unfoldable pub encode : BtreeNode → Outcome BtreeError (List ℕ)
encode n = do
  guard (leb (encoded_size n) page_size) (invalid_page 0)
  let written = encode_header n ++ encode_entries n.node_type n
  ok (written ++ replicate (page_size - length written) 0)

unfoldable pub node_type_of : ℕ → Outcome BtreeError NodeType
node_type_of byte =
    if byte == 0 then ok internal else if byte == 1 then ok leaf else err (invalid_page 0)

unfoldable pub decode_leaf_entries : ℕ → List ℕ → Outcome BtreeError (List LeafEntry)
decode_leaf_entries zero bytes = ok []
decode_leaf_entries (suc count) bytes =
    let key_len = from_le (slice bytes 0 2) in
    let rest = drop 2 bytes in
    let later = decode_leaf_entries count (drop 6 (drop key_len rest)) in
    guard (leb 2 (length bytes)) (invalid_page 0)
    >> guard (leb (key_len + 6) (length rest)) (invalid_page 0)
    >> later
    >>= λ entries. ok (
        record {
          key = take key_len rest;
          tid = record {
            page_no = from_le (slice (drop key_len rest) 0 4);
            slot = from_le (slice (drop key_len rest) 4 2);
          };
        }
        ∷ entries)

unfoldable pub decode_internal_entries : ℕ → List ℕ → Outcome BtreeError (List InternalEntry)
decode_internal_entries zero bytes = ok []
decode_internal_entries (suc count) bytes =
    let key_len = from_le (slice bytes 0 2) in
    let rest = drop 2 bytes in
    let later = decode_internal_entries count (drop 4 (drop key_len rest)) in
    guard (leb 2 (length bytes)) (invalid_page 0)
    >> guard (leb (key_len + 4) (length rest)) (invalid_page 0)
    >> later
    >>= λ entries. ok (
        record { key = take key_len rest; child_page = from_le (slice (drop key_len rest) 0 4) }
        ∷ entries)

-- The `match` on the node's type, with the header's fields.
unfoldable pub decode_entries : NodeType → List ℕ → Outcome BtreeError BtreeNode
decode_entries leaf bytes = do
  entries ← decode_leaf_entries (from_le (slice bytes 1 2)) (drop node_header_size bytes)
  ok (record {
    node_type = leaf;
    right_sibling = from_le (slice bytes 3 4);
    left_sibling = from_le (slice bytes 7 4);
    internal_entries = [];
    leaf_entries = entries;
  })
decode_entries internal bytes = do
  entries ← decode_internal_entries (from_le (slice bytes 1 2)) (drop node_header_size bytes)
  ok (record {
    node_type = internal;
    right_sibling = from_le (slice bytes 3 4);
    left_sibling = from_le (slice bytes 7 4);
    internal_entries = entries;
    leaf_entries = [];
  })

unfoldable pub decode : List ℕ → Outcome BtreeError BtreeNode
decode bytes = do
  guard (leb node_header_size (length bytes)) (invalid_page 0)
  node_type ← node_type_of (get_or bytes 0 0)
  decode_entries node_type bytes
