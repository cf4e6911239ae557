-- ===== src/Btree/Tree/Refine.antt =====
-- A leaf stored in an index changes the answer for one key only.
pub mod Insert
pub mod Delete
use icedb.Btree.State.{Index}
use icedb.Btree.Codec
use icedb.Btree.Codec.{
  BtreeError, BtreeNode, NodeType, internal, leaf, encoded_size, leaf_size, is_full, key_not_found,
  node_header_size,
}
use icedb.Btree.Codec.Entries.{LeafFits}
use icedb.Btree.Codec.RoundTrip.{IsWellFormed, decode-encode_node, EntriesFit}
use icedb.Btree.Meta.{BtreeMeta}
use icedb.Btree.Node.{LeafEntry}
use icedb.Btree.Node.Lookup.{
  tid_for, place, tid_for-place, All-place, place-IsAscending, not_same_key, same_key_refl,
  insert_leaf_entry-place,
}
use icedb.Btree.Tree.Search.{search, rounds}
use icedb.Btree.Tree.Update.{insert, remove, store_leaf}
use icedb.Btree.Tree.Descent.{Descends, Reads, ok_injective, find_leaf_path-Descends}
use icedb.Btree.Tree.Store.{
  IsLeaf, IsIndex, LeafWrite, stored-IsIndex, IsLeaf-now, stored, search-IsLeaf, Descends-now,
  written-IsLeaf, store_node,
}
use icedb.Base.{
  nat_key, zero, suc, [], ◌∷◌, none, some, true, false, inl, inr, ok, err, refl, arith, ◌≡◌, ◌+◌,
  List, All, ◌*◌, ℕ, ◌≤◌, length, Outcome, subst, ◌≢◌, ◌⊎◌, ◌∙◌, ap, sym, ◌<◌, ◌^◌, Option, ltb,
}
use icedb.Storage.Page.{page_size}
use icedb.Storage.Tuple.{Tid}
use icedb.Btree.Tree.Entries.{outcome_of, check-absent}
use icedb.Btree.Tree.{read_meta, read_node}

abbrev pub with_leaf : BtreeNode → List LeafEntry → BtreeNode
with_leaf n es = record n { leaf_entries = es }

pub length-le-leaf_size : (es : List LeafEntry) → 8 * length es ≤ leaf_size es
unfolding leaf_size
length-le-leaf_size [] = omega arith
length-le-leaf_size (e ∷ es) = omega (arith, length-le-leaf_size es)

pub leaf_size-place :
    (es : List LeafEntry) (e : LeafEntry) → leaf_size (place es e) ≡ leaf_size (e ∷ es)
unfolding leaf_size place
leaf_size-place [] e = refl
leaf_size-place (x ∷ es) e = ground (arith, leaf_size-place es e)

pub leaf_size-remove : (es : List LeafEntry) (i : ℕ) → leaf_size (remove es i) ≤ leaf_size es
unfolding leaf_size
leaf_size-remove [] i = omega arith
leaf_size-remove (x ∷ es) zero = omega arith
leaf_size-remove (x ∷ es) (suc i) = omega (arith, leaf_size-remove es i)

pub encoded_size-leaf :
    (n : BtreeNode) (es : List LeafEntry)
    → n.node_type ≡ leaf
    → encoded_size (with_leaf n es) ≡ node_header_size + leaf_size es
unfolding encoded_size
encoded_size-leaf n es h = rw h refl

pub with_leaf-IsWellFormed :
    (n : BtreeNode) (es : List LeafEntry)
    → n.node_type ≡ leaf
    → IsWellFormed n
    → All LeafFits es
    → encoded_size (with_leaf n es) ≤ page_size
    → IsWellFormed (with_leaf n es)
with_leaf-IsWellFormed n es h f a small = record {
  right_sibling = f.right_sibling;
  left_sibling = f.left_sibling;
  few = rw h (omega (arith, length-le-leaf_size es, encoded_size-leaf n es h, small));
  entries = rw h (a, (subst (λ (ty : NodeType). EntriesFit ty n) h f.entries).1);
}

pub leaf_fits : (n : BtreeNode) → n.node_type ≡ leaf → IsWellFormed n → All LeafFits n.leaf_entries
leaf_fits n h f = (subst (λ (ty : NodeType). EntriesFit ty n) h f.entries).0

pub is_full-small : (n : BtreeNode) → is_full n ≡ ok false → encoded_size n ≤ page_size
unfolding is_full
is_full-small n h = ground arith

outcome_of-err : (o : Option Tid) → outcome_of o ≡ err key_not_found → o ≡ none
outcome_of-err none h = refl
outcome_of-err (some t) h = cc

outcome_of-ok : (o : Option Tid) (t : Tid) → outcome_of o ≡ ok t → o ≡ some t
outcome_of-ok none t h = cc
outcome_of-ok (some u) t h = cc

-- The meta record with another number of entries.
abbrev pub counting : BtreeMeta → ℕ → BtreeMeta
counting meta count = record meta { num_entries = count }

-- A search for the key gives the result, and every other key is answered as it was in `t`.
abbrev pub Refines : Index → List ℕ → Index → Outcome BtreeError Tid → Type 0
Refines t key t' result =
    ((search key t').0 ≡ result) × ((k : List ℕ) → k ≢ key → (search k t').0 ≡ (search k t).0)

module _ (t : Index) (meta : BtreeMeta) (v : IsIndex t meta) (xid : ℕ) (key : List ℕ) (l : ℕ)
    (n : BtreeNode) (h : IsLeaf t.pages l n)
    (leads : Descends t.pages (length t.pages) meta.root_page key l) where
  module _ (w : LeafWrite meta) (page : List ℕ) (decodes : Codec.decode page ≡ ok w.new) where
    abbrev pub next : Index
    next = stored t meta v xid l n h w page

    pub next-IsIndex : IsIndex next w.new_meta
    next-IsIndex = stored-IsIndex t meta v xid l n h w page decodes

    search-next :
        (k : List ℕ) (p : ℕ) (m : BtreeNode)
        → IsLeaf next.pages p m
        → Descends t.pages (length t.pages) meta.root_page k p
        → (search k next).0 ≡ outcome_of (tid_for m.leaf_entries k)
    search-next k p m g d =
        ap (λ r. r.0)
          (search-IsLeaf next w.new_meta next-IsIndex k p m g
            (Descends-now t meta v xid l n h w page decodes k p d))

    -- The key in question is answered by the new leaf.
    pub search-key : (search key next).0 ≡ outcome_of (tid_for w.new.leaf_entries key)
    search-key = search-next key l w.new (written-IsLeaf t meta v xid l n h w page decodes) leads

    module _
        (same : (k : List ℕ)
          → k ≢ key
          → tid_for w.new.leaf_entries k ≡ tid_for n.leaf_entries k) where
      same_leaf :
          (k : List ℕ) (p : ℕ) (m o : BtreeNode)
          → k ≢ key
          → Reads t.pages p o
          → ((p ≡ l) × (m ≡ w.new)) ⊎ ((p ≢ l) × (m ≡ o))
          → tid_for m.leaf_entries k ≡ tid_for o.leaf_entries k
      same_leaf k p m o ne r (inr (other, e)) = ap (λ (b : BtreeNode). tid_for b.leaf_entries k) e
      same_leaf k p m o ne r (inl (here, e)) =
          let there = subst (λ (q : ℕ). Reads t.pages q o) here r in
          ap (λ (b : BtreeNode). tid_for b.leaf_entries k) e
          ∙ same k ne
          ∙ ap (λ (b : BtreeNode). tid_for b.leaf_entries k)
              (ok_injective n o (sym h.reads ∙ there))

      pub search-others : (k : List ℕ) → k ≢ key → (search k next).0 ≡ (search k t).0
      search-others k ne =
          let (p, o, g, d) = v.leaves k in
          let (m, now, which) = IsLeaf-now t meta v xid l n h w page decodes p o g in
          search-next k p m now d
          ∙ ap outcome_of (same_leaf k p m o ne g.reads which)
          ∙ sym (ap (λ r. r.0) (search-IsLeaf t meta v k p o g d))

  pub leaf_absent : (search key t).0 ≡ err key_not_found → tid_for n.leaf_entries key ≡ none
  leaf_absent absent =
      outcome_of-err (tid_for n.leaf_entries key)
        (sym (ap (λ r. r.0) (search-IsLeaf t meta v key l n h leads)) ∙ absent)

  pub leaf_present : (tid : Tid) → (search key t).0 ≡ ok tid → tid_for n.leaf_entries key ≡ some tid
  leaf_present tid present =
      outcome_of-ok (tid_for n.leaf_entries key) tid
        (sym (ap (λ r. r.0) (search-IsLeaf t meta v key l n h leads)) ∙ present)
