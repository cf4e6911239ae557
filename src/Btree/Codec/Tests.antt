-- ===== src/Btree/Codec/Tests.antt =====
-- Examples of nodes: the theorem about their bytes at a concrete node.
use icedb.Base.{nat_key, [], ◌∷◌, ok, refl, arith, ◌≡◌, List, ℕ}
use icedb.Btree.Codec.{encode, decode, leaf, BtreeNode, encoded_size, leaf_size}
use icedb.Btree.Codec.RoundTrip.{IsWellFormed, decode-encode_node}

abbrev two_entries : BtreeNode
two_entries = record {
  node_type = leaf;
  right_sibling = 9;
  left_sibling = 0;
  internal_entries = [];
  leaf_entries =
      record { key = 1 ∷ 7 ∷ []; tid = record { page_no = 70_000; slot = 2 } }
      ∷ record { key = []; tid = record { page_no = 3; slot = 300 } }
      ∷ [];
}

two_entries-IsWellFormed : IsWellFormed two_entries
two_entries-IsWellFormed = record {
  right_sibling = omega arith;
  left_sibling = omega arith;
  few = omega arith;
  entries = (
    (
      record { key = omega arith; page_no = omega arith; slot = omega arith },
      (record { key = omega arith; page_no = omega arith; slot = omega arith }, tt),
    ),
    refl,
  );
}

decode-encode_node_example :
    (bytes : List ℕ) × (encode two_entries ≡ ok bytes) × (decode bytes ≡ ok two_entries)
unfolding encoded_size leaf_size
decode-encode_node_example = decode-encode_node two_entries two_entries-IsWellFormed (omega arith)
