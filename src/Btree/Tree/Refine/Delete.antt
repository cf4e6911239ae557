-- ===== src/Btree/Tree/Refine/Delete.antt =====
-- `delete` in crates/btree/src/tree.rs.
use icedb.Btree.State.{Index}
use icedb.Btree.Codec
use icedb.Btree.Codec.{
  BtreeError, BtreeNode, NodeType, internal, leaf, encoded_size, leaf_size, is_full, key_not_found,
  node_header_size, duplicate_key,
}
use icedb.Btree.Codec.Entries.{LeafFits}
use icedb.Btree.Codec.RoundTrip.{decode-encode_node}
use icedb.Btree.Meta.{BtreeMeta}
use icedb.Btree.Node.{LeafEntry, find_key}
use icedb.Btree.Node.Lookup.{tid_for, not_same_key, same_key_refl, same_key}
use icedb.Btree.Tree.Search.{search, rounds}
use icedb.Btree.Tree.Update.{delete, remove, found_index}
use icedb.Btree.Tree.Descent.{Descends, find_leaf_path-Descends}
use icedb.Btree.Tree.Store.{IsLeaf, IsIndex, LeafWrite, stored, store_node}
use icedb.Base.{
  nat_key, [], none, some, ok, err, refl, arith, ◌≡◌, List, ℕ, ◌≤◌, length, ◌∙◌, ap, sym, zero, suc,
  ◌∷◌, All, get_elem?, ◌-◌, if◌then◌else◌, subst,
}
use icedb.Storage.Page.{page_size}
use icedb.Storage.Tuple.{Tid}
use icedb.Btree.Tree.Entries.{
  outcome_of, index-absent, index-present, remove-IsAscending, tid_for-remove,
}
use icedb.Btree.Tree.{read_meta, read_node}
use icedb.Btree.Tree.Refine.{
  Refines, with_leaf, counting, leaf_absent, with_leaf-IsWellFormed, next, leaf_fits, next-IsIndex,
  search-key, search-others, leaf_present, encoded_size-leaf, leaf_size-remove,
}

All-remove_fits : (es : List LeafEntry) (i : ℕ) → All LeafFits es → All LeafFits (remove es i)
All-remove_fits [] i a = tt
All-remove_fits (x ∷ es) zero a = a.1
All-remove_fits (x ∷ es) (suc i) a = (a.0, All-remove_fits es i a.1)

module _ (t : Index) (meta : BtreeMeta) (v : IsIndex t meta) (xid : ℕ) (key : List ℕ) (l : ℕ)
    (n : BtreeNode) (h : IsLeaf t.pages l n)
    (leads : Descends t.pages (length t.pages) meta.root_page key l) where
  abbrev shrunk : ℕ → BtreeNode
  shrunk i = with_leaf n (remove n.leaf_entries i)

  module _ (i : ℕ) (e : LeafEntry) (at : get_elem? n.leaf_entries i ≡ some e)
      (same : e.key ≡ key) where
    shrunk_small : encoded_size (shrunk i) ≤ page_size
    shrunk_small = omega (
      arith,
      encoded_size-leaf n (remove n.leaf_entries i) h.is_leaf,
      encoded_size-leaf n n.leaf_entries h.is_leaf,
      leaf_size-remove n.leaf_entries i,
      h.small,
    )

    removal : LeafWrite meta
    removal = record {
      new = shrunk i;
      new_leaf = h.is_leaf;
      fits =
          with_leaf-IsWellFormed n (remove n.leaf_entries i) h.is_leaf h.fits
            (All-remove_fits n.leaf_entries i (leaf_fits n h.is_leaf h.fits)) shrunk_small;
      ascending = remove-IsAscending n.leaf_entries i h.ascending;
      small = shrunk_small;
      new_meta = counting meta (meta.num_entries - 1);
      meta_fits = record {
        root_page = v.meta_fits.root_page;
        height = v.meta_fits.height;
        num_entries = omega (arith, v.meta_fits.num_entries);
        next_page = v.meta_fits.next_page;
      };
      root = refl;
    }

    tid_for-shrunk :
        (k : List ℕ)
        → tid_for (shrunk i).leaf_entries k
          ≡ (if same_key key k then none else tid_for n.leaf_entries k)
    tid_for-shrunk k =
        subst
          (λ (q : List ℕ).
            tid_for (remove n.leaf_entries i) k
            ≡ (if same_key q k then none else tid_for n.leaf_entries k))
          same (tid_for-remove n.leaf_entries i e k h.ascending at)

    run-delete :
        (page : List ℕ)
        → found_index (find_key n.leaf_entries key) ≡ ok i
        → Codec.encode (shrunk i) ≡ ok page
        → delete xid key t ≡ (ok tt, stored t meta v xid l n h removal page)
    unfolding delete removal read_meta rounds read_node
    run-delete page found encodes =
        let (above, ends) =
          find_leaf_path-Descends t key l n h.reads (length t.pages) meta.root_page [] leads in
        rw (v.meta_read, ends, h.reads, found) (store_node t meta v xid l n h removal page encodes)

  -- A key that is in the index: `delete` removes it, and changes the answer for no other key.
  pub delete-Refines :
      (tid : Tid)
      → (search key t).0 ≡ ok tid
      → (t' : Index) × (delete xid key t ≡ (ok tt, t'))
        × IsIndex t' (counting meta (meta.num_entries - 1))
        × Refines t key t' (err key_not_found)
  unfolding removal
  delete-Refines tid present =
      let there = leaf_present t meta v xid key l n h leads tid present in
      let (i, e, found, at, same) = index-present n.leaf_entries key h.ascending tid there in
      let lost : tid_for (shrunk i).leaf_entries key ≡ none =
        tid_for-shrunk i e at same key ∙ rw (same_key_refl key) refl in
      let w = removal i e at same in
      let (page, encodes, decodes) = decode-encode_node (shrunk i) w.fits w.small in
      (
        next t meta v xid key l n h leads w page decodes,
        run-delete i e at same page found encodes,
        next-IsIndex t meta v xid key l n h leads w page decodes,
        (
          search-key t meta v xid key l n h leads w page decodes ∙ ap outcome_of lost,
          search-others t meta v xid key l n h leads w page decodes (λ k ne.
              tid_for-shrunk i e at same k ∙ rw (not_same_key key k (λ q. ne (sym q))) refl),
        ),
      )

  -- A key that is not in the index is an error, and the index stays as it is.
  pub delete-missing :
      (search key t).0 ≡ err key_not_found → delete xid key t ≡ (err key_not_found, t)
  unfolding delete read_meta rounds read_node
  delete-missing absent =
      let gone = leaf_absent t meta v xid key l n h leads absent in
      let (above, ends) =
        find_leaf_path-Descends t key l n h.reads (length t.pages) meta.root_page [] leads in
      rw (v.meta_read, ends, h.reads, index-absent n.leaf_entries key h.ascending gone) refl
