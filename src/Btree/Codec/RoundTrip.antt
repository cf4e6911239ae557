-- ===== src/Btree/Codec/RoundTrip.antt =====
-- A node decodes to itself.
use icedb.Base.{
  nat_key, [], true, ok, refl, arith, ◌≡◌, ◌<◌, All, List, ◌^◌, ℕ, leb, slice, to_le, get_or, ◌++◌,
  drop, from_le, length, ◌≤◌, from_le-to_le, append_assoc, replicate, ◌-◌, ◌∙◌, ap, sym,
}
use icedb.Btree.Codec.{
  encode, decode, node_type_of, NodeType, BtreeNode, node_type_byte, internal, num_entries,
  encode_header, leaf, decode_entries, encode_entries, node_header_size, InternalEntry,
  encoded_size, encode_leaf_entries, decode_leaf_entries, decode_internal_entries,
  encode_internal_entries,
}
use icedb.Btree.Codec.Entries.{LeafFits, InternalFits, decode-encode_leaf, decode-encode_internal}
use icedb.Storage.Page.{page_size}
use icedb.Btree.Node.{LeafEntry}

-- The fields fit their widths, and the list of the other kind is empty.
abbrev pub EntriesFit : NodeType → BtreeNode → Type 0
EntriesFit leaf n = All LeafFits n.leaf_entries × (n.internal_entries ≡ [])
EntriesFit internal n = All InternalFits n.internal_entries × (n.leaf_entries ≡ [])

pub record IsWellFormed (n : BtreeNode) : Type 0 where
  pub right_sibling : n.right_sibling < 2 ^ 32
  pub left_sibling : n.left_sibling < 2 ^ 32
  pub few : num_entries n.node_type n < 2 ^ 16
  pub entries : EntriesFit n.node_type n

-- The bytes of a node, with what follows its entries.
abbrev page_of : BtreeNode → List ℕ → List ℕ
page_of n after = encode_header n ++ (encode_entries n.node_type n ++ after)

module _ (n : BtreeNode) (after : List ℕ) (w : IsWellFormed n) where
  length-page_of : node_header_size ≤ length (page_of n after)
  unfolding encode_header to_le
  length-page_of = omega arith

  type-page_of : get_or (page_of n after) 0 0 ≡ node_type_byte n.node_type
  unfolding encode_header
  type-page_of = refl

  count-page_of : from_le (slice (page_of n after) 1 2) ≡ num_entries n.node_type n
  unfolding encode_header slice to_le
  count-page_of = from_le-to_le 2 (num_entries n.node_type n) w.few

  right-page_of : from_le (slice (page_of n after) 3 4) ≡ n.right_sibling
  unfolding encode_header slice to_le
  right-page_of = from_le-to_le 4 n.right_sibling w.right_sibling

  left-page_of : from_le (slice (page_of n after) 7 4) ≡ n.left_sibling
  unfolding encode_header slice to_le
  left-page_of = from_le-to_le 4 n.left_sibling w.left_sibling

  drop-page_of : drop node_header_size (page_of n after) ≡ encode_entries n.node_type n ++ after
  unfolding encode_header to_le
  drop-page_of = refl

node_type_of-byte : (t : NodeType) → node_type_of (node_type_byte t) ≡ ok t
unfolding node_type_of
node_type_of-byte internal = refl
node_type_of-byte leaf = refl

decode-page_of :
    (n : BtreeNode) (after : List ℕ)
    → IsWellFormed n
    → decode (page_of n after) ≡ decode_entries n.node_type (page_of n after)
unfolding decode
decode-page_of n after w =
    let long : leb node_header_size (length (page_of n after)) ≡ true =
      ground (arith, length-page_of n after w) in
    rw (long, type-page_of n after w, node_type_of-byte n.node_type) refl

module _ (bytes rest : List ℕ) (count r l : ℕ) (c : from_le (slice bytes 1 2) ≡ count)
    (d : drop node_header_size bytes ≡ rest) (right : from_le (slice bytes 3 4) ≡ r)
    (left : from_le (slice bytes 7 4) ≡ l) where
  decode_entries-leaf :
      (es : List LeafEntry)
      → decode_leaf_entries count rest ≡ ok es
      → decode_entries leaf bytes
        ≡ ok (record {
          node_type = leaf;
          right_sibling = r;
          left_sibling = l;
          internal_entries = [];
          leaf_entries = es;
        })
  unfolding decode_entries
  decode_entries-leaf es e = rw (c, d, e, right, left) refl

  decode_entries-internal :
      (es : List InternalEntry)
      → decode_internal_entries count rest ≡ ok es
      → decode_entries internal bytes
        ≡ ok (record {
          node_type = internal;
          right_sibling = r;
          left_sibling = l;
          internal_entries = es;
          leaf_entries = [];
        })
  unfolding decode_entries
  decode_entries-internal es e = rw (c, d, e, right, left) refl

abbrev node : NodeType → ℕ → ℕ → List InternalEntry → List LeafEntry → BtreeNode
node t r l is es = record {
  node_type = t;
  right_sibling = r;
  left_sibling = l;
  internal_entries = is;
  leaf_entries = es;
}

decode_entries-page_of :
    (t : NodeType) (r l : ℕ) (is : List InternalEntry) (es : List LeafEntry) (after : List ℕ)
    → IsWellFormed (node t r l is es)
    → decode_entries t (page_of (node t r l is es) after) ≡ ok (node t r l is es)
decode_entries-page_of leaf r l is es after w =
    let n = node leaf r l is es in
    decode_entries-leaf (page_of n after) (encode_leaf_entries es ++ after) (length es) r l
      (count-page_of n after w) (drop-page_of n after w) (right-page_of n after w)
      (left-page_of n after w) es (decode-encode_leaf es after w.entries.0)
    ∙ ap (λ (xs : List InternalEntry). ok (node leaf r l xs es)) (sym w.entries.1)
decode_entries-page_of internal r l is es after w =
    let n = node internal r l is es in
    decode_entries-internal (page_of n after) (encode_internal_entries is ++ after) (length is) r l
      (count-page_of n after w) (drop-page_of n after w) (right-page_of n after w)
      (left-page_of n after w) is (decode-encode_internal is after w.entries.0)
    ∙ ap (λ (xs : List LeafEntry). ok (node internal r l is xs)) (sym w.entries.1)

-- A node whose encoded size is at most a page, with fields that fit their widths and no entries of
-- the other kind, is encoded without error, and the bytes decode to it.
pub decode-encode_node :
    (n : BtreeNode)
    → IsWellFormed n
    → encoded_size n ≤ page_size
    → (bytes : List ℕ) × (encode n ≡ ok bytes) × (decode bytes ≡ ok n)
unfolding encode
decode-encode_node n w fits =
    let written = encode_header n ++ encode_entries n.node_type n in
    let zeroes : List ℕ = replicate (page_size - length written) 0 in
    let room : leb (encoded_size n) page_size ≡ true = ground (arith, fits) in
    (
      written ++ zeroes,
      rw room refl,
      ap decode (append_assoc (encode_header n) (encode_entries n.node_type n) zeroes)
          ∙ decode-page_of n zeroes w
          ∙ decode_entries-page_of n.node_type n.right_sibling n.left_sibling n.internal_entries
              n.leaf_entries zeroes w,
    )
