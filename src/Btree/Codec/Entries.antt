-- ===== src/Btree/Codec/Entries.antt =====
-- The entries of a node decode to themselves, whatever follows them.
use icedb.Base.{
  nat_key, suc, [], ◌∷◌, true, ok, refl, arith, ◌≡◌, ◌+◌, List, ℕ, length, ◌<◌, to_le, ◌^◌, ◌++◌,
  slice, drop, length-append, from_le, from_le-to_le, ◌≤◌, All, leb, drop-append, subst,
  take-append, append_assoc, ap, sym,
}
use icedb.Btree.Node.{LeafEntry}
use icedb.Btree.Codec.{
  InternalEntry, decode_leaf_entries, decode_internal_entries, encode_leaf_entries,
  encode_internal_entries,
}

-- The fields fit their widths.
pub record LeafFits (e : LeafEntry) : Type 0 where
  pub key : length e.key < 2 ^ 16
  pub page_no : e.tid.page_no < 2 ^ 32
  pub slot : e.tid.slot < 2 ^ 16

pub record InternalFits (e : InternalEntry) : Type 0 where
  pub key : length e.key < 2 ^ 16
  pub child_page : e.child_page < 2 ^ 32

-- A key behind its length, and what follows the key.
record Keyed (bytes key more : List ℕ) : Type 0 where
  key_len : from_le (slice bytes 0 2) ≡ length key
  rest : drop 2 bytes ≡ key ++ more
  long : 2 ≤ length bytes

keyed :
    (key more : List ℕ)
    → length key < 2 ^ 16
    → Keyed (to_le 2 (length key) ++ (key ++ more)) key more
unfolding slice to_le
keyed key more small = record {
  key_len = from_le-to_le 2 (length key) small;
  rest = refl;
  long = omega arith;
}

decode_leaf-step :
    (count : ℕ) (bytes more after : List ℕ) (e : LeafEntry) (es : List LeafEntry)
    → Keyed bytes e.key more
    → 6 ≤ length more
    → from_le (slice more 0 4) ≡ e.tid.page_no
    → from_le (slice more 4 2) ≡ e.tid.slot
    → drop 6 more ≡ after
    → decode_leaf_entries count after ≡ ok es
    → decode_leaf_entries (suc count) bytes ≡ ok (e ∷ es)
unfolding decode_leaf_entries
decode_leaf-step count bytes more after e es k long page slot behind later =
    let first : leb 2 (length bytes) ≡ true = ground (arith, k.long) in
    let second : leb (length e.key + 6) (length (e.key ++ more)) ≡ true =
      ground (arith, long, length-append e.key more) in
    rw
      (
        k.key_len,
        k.rest,
        first,
        second,
        drop-append e.key more,
        take-append e.key more,
        behind,
        later,
        page,
        slot,
      )
      refl

decode_internal-step :
    (count : ℕ) (bytes more after : List ℕ) (e : InternalEntry) (es : List InternalEntry)
    → Keyed bytes e.key more
    → 4 ≤ length more
    → from_le (slice more 0 4) ≡ e.child_page
    → drop 4 more ≡ after
    → decode_internal_entries count after ≡ ok es
    → decode_internal_entries (suc count) bytes ≡ ok (e ∷ es)
unfolding decode_internal_entries
decode_internal-step count bytes more after e es k long page behind later =
    let first : leb 2 (length bytes) ≡ true = ground (arith, k.long) in
    let second : leb (length e.key + 4) (length (e.key ++ more)) ≡ true =
      ground (arith, long, length-append e.key more) in
    rw
      (
        k.key_len,
        k.rest,
        first,
        second,
        drop-append e.key more,
        take-append e.key more,
        behind,
        later,
        page,
      )
      refl

-- What stands behind the key of an entry.
abbrev tid_bytes : LeafEntry → List ℕ → List ℕ
tid_bytes e after = to_le 4 e.tid.page_no ++ (to_le 2 e.tid.slot ++ after)

module _ (e : LeafEntry) (after : List ℕ) (fits : LeafFits e) where
  length-tid_bytes : 6 ≤ length (tid_bytes e after)
  unfolding to_le
  length-tid_bytes = omega arith

  page-tid_bytes : from_le (slice (tid_bytes e after) 0 4) ≡ e.tid.page_no
  unfolding slice to_le
  page-tid_bytes = from_le-to_le 4 e.tid.page_no fits.page_no

  slot-tid_bytes : from_le (slice (tid_bytes e after) 4 2) ≡ e.tid.slot
  unfolding slice to_le
  slot-tid_bytes = from_le-to_le 2 e.tid.slot fits.slot

  drop-tid_bytes : drop 6 (tid_bytes e after) ≡ after
  unfolding to_le
  drop-tid_bytes = refl

leaf_bytes :
    (e : LeafEntry) (es : List LeafEntry) (after : List ℕ)
    → to_le 2 (length e.key) ++ (e.key ++ tid_bytes e (encode_leaf_entries es ++ after))
      ≡ encode_leaf_entries (e ∷ es) ++ after
unfolding encode_leaf_entries to_le
leaf_bytes e es after =
    let behind = to_le 4 e.tid.page_no ++ (to_le 2 e.tid.slot ++ encode_leaf_entries es) in
    let moved : (e.key ++ behind) ++ after ≡ e.key ++ (behind ++ after) =
      append_assoc e.key behind after in
    ap (λ (b : List ℕ). to_le 2 (length e.key) ++ b) (sym moved)

pub decode-encode_leaf :
    (es : List LeafEntry) (after : List ℕ)
    → All LeafFits es
    → decode_leaf_entries (length es) (encode_leaf_entries es ++ after) ≡ ok es
decode-encode_leaf [] after fits = unfold decode_leaf_entries in refl
decode-encode_leaf (e ∷ es) after fits =
    let more = encode_leaf_entries es ++ after in
    decode_leaf-step (length es) (encode_leaf_entries (e ∷ es) ++ after) (tid_bytes e more) more e
      es
      (subst (λ (b : List ℕ). Keyed b e.key (tid_bytes e more)) (leaf_bytes e es after)
        (keyed e.key (tid_bytes e more) fits.0.key))
      (length-tid_bytes e more fits.0) (page-tid_bytes e more fits.0) (slot-tid_bytes e more fits.0)
      (drop-tid_bytes e more fits.0) (decode-encode_leaf es after fits.1)

module _ (e : InternalEntry) (after : List ℕ) (fits : InternalFits e) where
  length-child : 4 ≤ length (to_le 4 e.child_page ++ after)
  unfolding to_le
  length-child = omega arith

  page-child : from_le (slice (to_le 4 e.child_page ++ after) 0 4) ≡ e.child_page
  unfolding slice to_le
  page-child = from_le-to_le 4 e.child_page fits.child_page

  drop-child : drop 4 (to_le 4 e.child_page ++ after) ≡ after
  unfolding to_le
  drop-child = refl

internal_bytes :
    (e : InternalEntry) (es : List InternalEntry) (after : List ℕ)
    → to_le 2 (length e.key)
        ++ (e.key ++ (to_le 4 e.child_page ++ (encode_internal_entries es ++ after)))
      ≡ encode_internal_entries (e ∷ es) ++ after
unfolding encode_internal_entries to_le
internal_bytes e es after =
    let behind = to_le 4 e.child_page ++ encode_internal_entries es in
    let moved : (e.key ++ behind) ++ after ≡ e.key ++ (behind ++ after) =
      append_assoc e.key behind after in
    ap (λ (b : List ℕ). to_le 2 (length e.key) ++ b) (sym moved)

pub decode-encode_internal :
    (es : List InternalEntry) (after : List ℕ)
    → All InternalFits es
    → decode_internal_entries (length es) (encode_internal_entries es ++ after) ≡ ok es
decode-encode_internal [] after fits = unfold decode_internal_entries in refl
decode-encode_internal (e ∷ es) after fits =
    let more = encode_internal_entries es ++ after in
    let child = to_le 4 e.child_page ++ more in
    decode_internal-step (length es) (encode_internal_entries (e ∷ es) ++ after) child more e es
      (subst (λ (b : List ℕ). Keyed b e.key child) (internal_bytes e es after)
        (keyed e.key child fits.0.key))
      (length-child e more fits.0) (page-child e more fits.0) (drop-child e more fits.0)
      (decode-encode_internal es after fits.1)
