-- ===== src/Btree/Tree/Store.antt =====
-- The state of an index between operations, and a leaf stored with the meta record.
use icedb.Btree.State.{Index, ◌>>◌}
use icedb.Btree.Codec
use icedb.Btree.Codec.{BtreeError, BtreeNode, NodeType, internal, leaf, encoded_size}
use icedb.Btree.Codec.RoundTrip.{IsWellFormed}
use icedb.Btree.Meta
use icedb.Btree.Meta.{BtreeMeta, decode-encode_meta}
use icedb.Btree.Node.Lookup.{IsAscending, tid_for}
use icedb.Btree.Tree.{
  read_page, write_page, read_meta, write_meta, meta_page, write_node, wal_page_no,
}
use icedb.Btree.Tree.Search.{search, rounds}
use icedb.Btree.Tree.Descent.{
  Descends, Reads, search_from-Descends, read_page-write_page, length-write_page,
  Descends-write_meta, Reads-other, Reads-written, Descends-write_page,
}
use icedb.Btree.Tree.Entries.{outcome_of, answer-find_key}
use icedb.Base.{
  nat_key, true, inl, inr, ok, refl, arith, ◌≡◌, ◌+◌, ℕ, ◌*◌, List, length, ◌≤◌, ◌<◌, ◌≢◌, ◌^◌, ◌⊎◌,
  ltb, replicate, ◌∙◌, subst, sym, ◌-◌,
}
use icedb.Storage.Page.{page_size}
use icedb.Wal.Writer.{append}
use native.Mathlib.Decide.{ℕ_discrete}
use icedb.Wal.Record.{page_image}

pub record IsLeaf (pages : List (List ℕ)) (l : ℕ) (n : BtreeNode) : Type 0 where
  pub reads : Reads pages l n
  pub is_leaf : n.node_type ≡ leaf
  pub inside : l < length pages
  pub not_meta : l ≢ 0
  pub ascending : IsAscending n.leaf_entries
  pub fits : IsWellFormed n
  pub small : encoded_size n ≤ page_size

-- The meta record is on page 0, page numbers fit the log, and a descent for any key ends at a leaf.
pub record IsIndex (t : Index) (meta : BtreeMeta) : Type 0 where
  pub meta_read : Meta.decode (read_page t.pages 0) ≡ ok meta
  pub meta_fits : Meta.IsWellFormed meta
  pub log_fits : t.index_id * 100000 + length t.pages ≤ 2 ^ 32
  pub leaves :
      (key : List ℕ)
      → (l : ℕ) × (n : BtreeNode) × IsLeaf t.pages l n
        × Descends t.pages (length t.pages) meta.root_page key l

-- The leaf and the meta record that an operation writes: the root is the same.
pub record LeafWrite (meta : BtreeMeta) : Type 0 where
  pub new : BtreeNode
  pub new_leaf : new.node_type ≡ leaf
  pub fits : IsWellFormed new
  pub ascending : IsAscending new.leaf_entries
  pub small : encoded_size new ≤ page_size
  pub new_meta : BtreeMeta
  pub meta_fits : Meta.IsWellFormed new_meta
  pub root : new_meta.root_page ≡ meta.root_page

module _ (t : Index) (meta : BtreeMeta) (v : IsIndex t meta) where
  -- A search gives what the leaf holds for the key.
  pub search-IsLeaf :
      (key : List ℕ) (l : ℕ) (n : BtreeNode)
      → IsLeaf t.pages l n
      → Descends t.pages (length t.pages) meta.root_page key l
      → search key t ≡ (outcome_of (tid_for n.leaf_entries key), t)
  unfolding search read_meta rounds
  search-IsLeaf key l n h d =
      rw
        (
          v.meta_read,
          search_from-Descends t key l n h.reads (length t.pages) meta.root_page d,
          answer-find_key n.leaf_entries key h.ascending,
        )
        refl

  module _ (xid l : ℕ) (old : BtreeNode) (h : IsLeaf t.pages l old) (w : LeafWrite meta) where
    open w use {new, new_leaf, fits, ascending, small, new_meta, meta_fits, root}

    pub stored : List ℕ → Index
    stored page = record t {
      pages = write_page (write_page t.pages l page) 0 (meta_page new_meta);
      wal = append t.wal (record {
        xid = xid;
        record_type = page_image;
        page_no = t.index_id * 100000 + l;
        payload = page;
      });
    }

    pub store_node :
        (page : List ℕ)
        → Codec.encode new ≡ ok page
        → (write_node xid l new >> write_meta new_meta) t ≡ (ok tt, stored page)
    unfolding write_node write_meta stored wal_page_no
    store_node page e =
        let loggable : ltb (t.index_id * 100000 + l) (2 ^ 32) ≡ true =
          ground (arith, h.inside, v.log_fits) in
        rw (loggable, e) refl

    module _ (page : List ℕ) (decodes : Codec.decode page ≡ ok new) where
      first : List (List ℕ)
      first = write_page t.pages l page

      inside_first : 0 < length first
      unfolding first
      inside_first = omega (arith, length-write_page t.pages l page h.inside, h.inside)

      Descends-stored :
          (fuel current : ℕ) (key : List ℕ) (k : ℕ)
          → Descends t.pages fuel current key k
          → Descends (stored page).pages fuel current key k
      unfolding stored first
      Descends-stored fuel current key k d =
          Descends-write_meta first 0 (meta_page new_meta) inside_first refl fuel current key k (
            Descends-write_page t.pages l page h.inside old new h.reads h.is_leaf decodes new_leaf
              fuel current key k d)

      length-stored : length (stored page).pages ≡ length t.pages
      unfolding stored first
      length-stored =
          length-write_page first 0 (meta_page new_meta) inside_first
          ∙ length-write_page t.pages l page h.inside

      pub written-IsLeaf : IsLeaf (stored page).pages l new
      unfolding stored first
      written-IsLeaf = record {
        reads =
            Reads-other first 0 (meta_page new_meta) inside_first l new h.not_meta
              (Reads-written t.pages l page h.inside old new h.reads h.is_leaf decodes new_leaf);
        is_leaf = new_leaf;
        inside = omega (arith, length-stored, h.inside);
        not_meta = h.not_meta;
        ascending = ascending;
        fits = fits;
        small = small;
      }

      other-IsLeaf :
          (k : ℕ) (n : BtreeNode) → k ≢ l → IsLeaf t.pages k n → IsLeaf (stored page).pages k n
      unfolding stored first
      other-IsLeaf k n ne g = record {
        reads =
            Reads-other first 0 (meta_page new_meta) inside_first k n g.not_meta
              (Reads-other t.pages l page h.inside k n ne g.reads);
        is_leaf = g.is_leaf;
        inside = omega (arith, length-stored, g.inside);
        not_meta = g.not_meta;
        ascending = g.ascending;
        fits = g.fits;
        small = g.small;
      }

      stored-meta : Meta.decode (read_page (stored page).pages 0) ≡ ok new_meta
      unfolding stored first meta_page
      stored-meta =
          rw (read_page-write_page first 0 (meta_page new_meta) inside_first 0)
            (decode-encode_meta new_meta (replicate (page_size - 32) 0) meta_fits)

      pub Descends-now :
          (key : List ℕ) (k : ℕ)
          → Descends t.pages (length t.pages) meta.root_page key k
          → Descends (stored page).pages (length (stored page).pages) new_meta.root_page key k
      Descends-now key k d =
          rw (length-stored, root) (Descends-stored (length t.pages) meta.root_page key k d)

      -- What the index holds for a key now.
      pub IsLeaf-now :
          (k : ℕ) (n : BtreeNode)
          → IsLeaf t.pages k n
          → (m : BtreeNode) × IsLeaf (stored page).pages k m
            × (((k ≡ l) × (m ≡ new)) ⊎ ((k ≢ l) × (m ≡ n)))
      IsLeaf-now k n g = elim (ℕ_discrete k l) [
        | no ne ↦ (n, other-IsLeaf k n ne g, inr (ne, refl))
        | yes same ↦ (
          new,
          subst (λ (p : ℕ). IsLeaf (stored page).pages p new) (sym same) written-IsLeaf,
          inl (same, refl),
        )
      ]

      pub stored-IsIndex : IsIndex (stored page) new_meta
      stored-IsIndex = record {
        meta_read = stored-meta;
        meta_fits = meta_fits;
        log_fits = unfold stored in omega (arith, length-stored, v.log_fits);
        leaves = λ key.
            let (k, n, g, d) = v.leaves key in
            let (m, now, _) = IsLeaf-now k n g in (k, m, now, Descends-now key k d);
      }
