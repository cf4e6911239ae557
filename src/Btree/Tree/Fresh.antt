-- ===== src/Btree/Tree/Fresh.antt =====
-- An index that `open` of crates/btree/src/tree.rs makes of an empty file.
use icedb.Btree.State.{Index}
use icedb.Btree.Codec
use icedb.Btree.Codec.{BtreeNode, leaf, encoded_size, key_not_found, leaf_size}
use icedb.Btree.Codec.RoundTrip.{IsWellFormed, decode-encode_node}
use icedb.Btree.Meta.{BtreeMeta, decode-encode_meta}
use icedb.Btree.Tree.Update.{open_index, initialize, new_leaf}
use icedb.Btree.Tree.Search.{search}
use icedb.Btree.Tree.Descent.{Descends}
use icedb.Btree.Tree.Store.{IsLeaf, IsIndex, search-IsLeaf}
use icedb.Base.{
  nat_key, [], ◌∷◌, inl, ok, err, refl, arith, ◌≡◌, ◌+◌, ◌*◌, ◌≤◌, ◌^◌, List, replicate, ℕ, ◌-◌, ap,
}
use icedb.Storage.Page.{page_size}
use icedb.Btree.Tree.{read_page, write_page, write_meta, meta_page}
use icedb.Btree.Node.Lookup.{tid_for}

abbrev pub first_meta : BtreeMeta
first_meta = record { root_page = 1; height = 1; num_entries = 0; next_page = 2 }

pub new_leaf-IsWellFormed : IsWellFormed new_leaf
new_leaf-IsWellFormed = record {
  right_sibling = omega arith;
  left_sibling = omega arith;
  few = omega arith;
  entries = (tt, refl);
}

pub new_leaf_small : encoded_size new_leaf ≤ page_size
unfolding encoded_size leaf_size
new_leaf_small = omega arith

module _ (t : Index) (empty : t.pages ≡ []) (id_fits : t.index_id * 100000 + 2 ≤ 2 ^ 32) where
  abbrev pub opened : List ℕ → Index
  opened page = record t { pages = meta_page first_meta ∷ page ∷ [] }

  run-open_index :
      (page : List ℕ) → Codec.encode new_leaf ≡ ok page → open_index t ≡ (ok tt, opened page)
  unfolding open_index initialize write_meta write_page replicate
  run-open_index page encodes = rw (empty, encodes) refl

  module _ (page : List ℕ) (decodes : Codec.decode page ≡ ok new_leaf) where
    pub root-IsLeaf : IsLeaf (opened page).pages 1 new_leaf
    unfolding read_page
    root-IsLeaf = record {
      reads = decodes;
      is_leaf = refl;
      inside = omega arith;
      not_meta = omega arith;
      ascending = tt;
      fits = new_leaf-IsWellFormed;
      small = new_leaf_small;
    }

    pub root-Descends : (key : List ℕ) → Descends (opened page).pages 2 1 key 1
    unfolding read_page
    root-Descends key = (new_leaf, decodes, omega arith, inl (refl, refl))

    pub opened-IsIndex : IsIndex (opened page) first_meta
    unfolding read_page meta_page
    opened-IsIndex = record {
      meta_read = decode-encode_meta first_meta (replicate (page_size - 32) 0) (record {
        root_page = omega arith;
        height = omega arith;
        num_entries = omega arith;
        next_page = omega arith;
      });
      meta_fits = record {
        root_page = omega arith;
        height = omega arith;
        num_entries = omega arith;
        next_page = omega arith;
      };
      log_fits = id_fits;
      leaves = λ key. (1, new_leaf, root-IsLeaf, root-Descends key);
    }

  -- Opening an empty file succeeds, and gives an index with no key in it.
  pub open_index-IsIndex :
      (t' : Index) × (open_index t ≡ (ok tt, t'))
      × IsIndex t' first_meta
      × ((key : List ℕ) → (search key t').0 ≡ err key_not_found)
  unfolding tid_for
  open_index-IsIndex =
      let (page, encodes, decodes) =
        decode-encode_node new_leaf new_leaf-IsWellFormed new_leaf_small in
      (
        opened page,
        run-open_index page encodes,
        opened-IsIndex page decodes,
        λ key.
            ap (λ r. r.0)
              (search-IsLeaf (opened page) first_meta (opened-IsIndex page decodes) key 1 new_leaf
                (root-IsLeaf page decodes) (root-Descends page decodes key)),
      )
