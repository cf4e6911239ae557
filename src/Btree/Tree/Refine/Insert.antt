-- ===== src/Btree/Tree/Refine/Insert.antt =====
-- `insert` in crates/btree/src/tree.rs, where the leaf is not split, and for a key that is there.
use icedb.Btree.State.{Index}
use icedb.Btree.Codec
use icedb.Btree.Codec.{
  BtreeError, BtreeNode, NodeType, internal, leaf, encoded_size, leaf_size, is_full, key_not_found,
  node_header_size, duplicate_key,
}
use icedb.Btree.Codec.Entries.{LeafFits}
use icedb.Btree.Codec.RoundTrip.{IsWellFormed, decode-encode_node}
use icedb.Btree.Meta.{BtreeMeta}
use icedb.Btree.Node.{LeafEntry}
use icedb.Btree.Node.Lookup.{
  tid_for, place, tid_for-place, All-place, place-IsAscending, not_same_key, same_key_refl,
  insert_leaf_entry-place,
}
use icedb.Btree.Tree.Search.{search, rounds}
use icedb.Btree.Tree.Update.{insert, store_leaf}
use icedb.Btree.Tree.Descent.{Descends, find_leaf_path-Descends}
use icedb.Btree.Tree.Store.{IsLeaf, IsIndex, LeafWrite, stored, store_node}
use icedb.Base.{
  nat_key, [], none, some, true, false, ok, err, refl, arith, ◌≡◌, ◌+◌, List, ℕ, ◌≤◌, length, ◌≢◌,
  ◌∙◌, ap, sym, ◌<◌, ◌^◌, ltb,
}
use icedb.Storage.Page.{page_size}
use icedb.Storage.Tuple.{Tid}
use icedb.Btree.Tree.Entries.{outcome_of, check-absent, check-present}
use icedb.Btree.Tree.{read_meta, read_node}
use icedb.Btree.Tree.Refine.{
  Refines, with_leaf, counting, is_full-small, leaf_absent, with_leaf-IsWellFormed, next, leaf_fits,
  next-IsIndex, search-key, search-others, leaf_present,
}

module _ (t : Index) (meta : BtreeMeta) (v : IsIndex t meta) (xid : ℕ) (key : List ℕ) (l : ℕ)
    (n : BtreeNode) (h : IsLeaf t.pages l n)
    (leads : Descends t.pages (length t.pages) meta.root_page key l) where
  abbrev new_entry : Tid → LeafEntry
  new_entry tid = record { key = key; tid = tid }

  abbrev grown : Tid → BtreeNode
  grown tid = with_leaf n (place n.leaf_entries (new_entry tid))

  module _ (tid : Tid) (e : LeafFits (new_entry tid)) (room : is_full (grown tid) ≡ ok false)
      (absent : tid_for n.leaf_entries key ≡ none) (count : meta.num_entries + 1 < 2 ^ 64) where
    grown_small : encoded_size (grown tid) ≤ page_size
    grown_small = is_full-small (grown tid) room

    grown_fits : IsWellFormed (grown tid)
    grown_fits =
        with_leaf-IsWellFormed n (place n.leaf_entries (new_entry tid)) h.is_leaf h.fits
          (All-place LeafFits n.leaf_entries (new_entry tid) (leaf_fits n h.is_leaf h.fits) e)
          grown_small

    insertion : LeafWrite meta
    insertion = record {
      new = grown tid;
      new_leaf = h.is_leaf;
      fits = grown_fits;
      ascending = place-IsAscending n.leaf_entries (new_entry tid) h.ascending absent;
      small = grown_small;
      new_meta = counting meta (meta.num_entries + 1);
      meta_fits = record {
        root_page = v.meta_fits.root_page;
        height = v.meta_fits.height;
        num_entries = count;
        next_page = v.meta_fits.next_page;
      };
      root = refl;
    }

    tid_for-grown : tid_for (grown tid).leaf_entries key ≡ some tid
    tid_for-grown = tid_for-place n.leaf_entries (new_entry tid) key ∙ rw (same_key_refl key) refl

    others-grown :
        (k : List ℕ) → k ≢ key → tid_for (grown tid).leaf_entries k ≡ tid_for n.leaf_entries k
    others-grown k ne =
        tid_for-place n.leaf_entries (new_entry tid) k
        ∙ rw (not_same_key key k (λ same. ne (sym same))) refl

    run-insert :
        (page : List ℕ)
        → Codec.encode (grown tid) ≡ ok page
        → insert xid key tid t ≡ (ok tt, stored t meta v xid l n h insertion page)
    unfolding insert store_leaf insertion read_meta rounds read_node
    run-insert page encodes =
        let (above, ends) =
          find_leaf_path-Descends t key l n h.reads (length t.pages) meta.root_page [] leads in
        let more : ltb (meta.num_entries + 1) (2 ^ 64) ≡ true = ground (arith, count) in
        rw
          (
            v.meta_read,
            ends,
            h.reads,
            check-absent n.leaf_entries key h.ascending absent,
            insert_leaf_entry-place n.leaf_entries (new_entry tid),
            more,
            room,
          )
          (store_node t meta v xid l n h insertion page encodes)

  -- The key is not in the index, and its leaf is not full with the new entry: `insert` adds the
  -- key and its tuple id, and changes the answer for no other key.
  pub insert-Refines :
      (tid : Tid)
      → LeafFits (new_entry tid)
      → (search key t).0 ≡ err key_not_found
      → is_full (grown tid) ≡ ok false
      → meta.num_entries + 1 < 2 ^ 64
      → (t' : Index) × (insert xid key tid t ≡ (ok tt, t'))
        × IsIndex t' (counting meta (meta.num_entries + 1))
        × Refines t key t' (ok tid)
  unfolding insertion
  insert-Refines tid e absent room count =
      let gone = leaf_absent t meta v xid key l n h leads absent in
      let w = insertion tid e room gone count in
      let (page, encodes, decodes) = decode-encode_node (grown tid) w.fits w.small in
      (
        next t meta v xid key l n h leads w page decodes,
        run-insert tid e room gone count page encodes,
        next-IsIndex t meta v xid key l n h leads w page decodes,
        (
          search-key t meta v xid key l n h leads w page decodes
              ∙ ap outcome_of (tid_for-grown tid e room gone count),
          search-others t meta v xid key l n h leads w page decodes
              (others-grown tid e room gone count),
        ),
      )

  -- A key that is in the index is refused, and the index stays as it is.
  pub insert-duplicate :
      (tid other : Tid)
      → (search key t).0 ≡ ok other
      → insert xid key tid t ≡ (err duplicate_key, t)
  unfolding insert read_meta rounds read_node
  insert-duplicate tid other present =
      let there = leaf_present t meta v xid key l n h leads other present in
      let (above, ends) =
        find_leaf_path-Descends t key l n h.reads (length t.pages) meta.root_page [] leads in
      rw (v.meta_read, ends, h.reads, check-present n.leaf_entries key h.ascending other there) refl
