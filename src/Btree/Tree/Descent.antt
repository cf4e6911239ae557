-- ===== src/Btree/Tree/Descent.antt =====
-- The way from the root to a leaf in the pages of an index, and what writing a leaf does to it.
use icedb.Btree.State.{Index}
use icedb.Btree.Codec
use icedb.Btree.Codec.{BtreeError, BtreeNode, NodeType, internal, leaf}
use icedb.Btree.Tree.{read_page, write_page, read_node, zero_page}
use icedb.Btree.Tree.Search.{search_from, answer, find_leaf_path}
use icedb.Base.{
  nat_key, zero, suc, [], ◌∷◌, inl, inr, ok, refl, arith, ◌≡◌, List, ℕ, ◌≢◌, ◌<◌, length, ◌⊎◌,
  if◌then◌else◌, lt→ltb, length-set, ◌==◌, get_or, ap, subst, sym, set, ◌∙◌, Outcome,
}
use icedb.Btree.Node.{find_key}
use icedb.Btree.Split.{find_child}
use native.Mathlib.Decide.{ℕ_discrete}

abbrev pub Reads : List (List ℕ) → ℕ → BtreeNode → Type 0
Reads pages p n = Codec.decode (read_page pages p) ≡ ok n

-- `fuel` pages at most lead from `current` to the leaf `l` for the key, none of them page 0.
abbrev pub Descends : List (List ℕ) → ℕ → ℕ → List ℕ → ℕ → Type 0
Descends pages zero current key l = ⊥
Descends pages (suc fuel) current key l =
    (n : BtreeNode) × Reads pages current n
    × (current ≢ 0)
    × (((n.node_type ≡ leaf) × (current ≡ l))
        ⊎ ((n.node_type ≡ internal)
            × ((child : ℕ) × (find_child n.internal_entries key ≡ ok child)
                × Descends pages fuel child key l)))

pub ok_injective : (m n : BtreeNode) → ◌≡◌ {A = Outcome BtreeError BtreeNode} (ok m) (ok n) → m ≡ n
ok_injective m n h = cc

module _ (t : Index) (key : List ℕ) (l : ℕ) (n : BtreeNode) (reads : Reads t.pages l n) where
  pub search_from-Descends :
      (fuel current : ℕ)
      → Descends t.pages fuel current key l
      → search_from fuel current key t ≡ (answer n.leaf_entries (find_key n.leaf_entries key), t)
  unfolding search_from read_node
  search_from-Descends zero current h = absurd h
  search_from-Descends (suc fuel) current (m, r, nz, inl (is_leaf, here)) =
      let there : Reads t.pages l m = subst (λ (p : ℕ). Reads t.pages p m) here r in
      let same : m ≡ n = ok_injective m n (sym there ∙ reads) in
      rw (r, is_leaf)
        (ap (λ (k : BtreeNode). (answer k.leaf_entries (find_key k.leaf_entries key), t)) same)
  search_from-Descends (suc fuel) current (m, r, nz, inr (is_internal, (child, found, below))) =
      rw (r, is_internal, found) (search_from-Descends fuel child below)

  pub find_leaf_path-Descends :
      (fuel current : ℕ) (parents : List ℕ)
      → Descends t.pages fuel current key l
      → (above : List ℕ) × (find_leaf_path fuel parents current key t
          ≡ (ok (record { leaf_page = l; parents = above }), t))
  unfolding find_leaf_path read_node
  find_leaf_path-Descends zero current parents h = absurd h
  find_leaf_path-Descends (suc fuel) current parents (m, r, nz, inl (is_leaf, here)) = (
    parents,
    rw (r, is_leaf) (ap (λ (p : ℕ). (ok (record { leaf_page = p; parents = parents }), t)) here),
  )
  find_leaf_path-Descends (suc fuel) current parents
        (m, r, nz, inr (is_internal, (child, found, below))) =
      let (above, ends) = find_leaf_path-Descends fuel child (current ∷ parents) below in
      (above, rw (r, is_internal, found) ends)

get_or-set {ℓ} :
    {A : Type ℓ} (xs : List A) (i j : ℕ) (v d : A)
    → i < length xs
    → get_or (set xs i v) j d ≡ (if j == i then v else get_or xs j d)
get_or-set [] i j v d h = absurd (omega arith)
get_or-set (x ∷ xs) zero zero v d h = refl
get_or-set (x ∷ xs) zero (suc j) v d h = ground arith
get_or-set (x ∷ xs) (suc i) zero v d h = ground arith
get_or-set (x ∷ xs) (suc i) (suc j) v d h = ground (arith, get_or-set xs i j v d)

-- Page `i` is written, in the file.
module _ (pages : List (List ℕ)) (i : ℕ) (page : List ℕ) (inside : i < length pages) where
  pub read_page-write_page :
      (j : ℕ) → read_page (write_page pages i page) j ≡ (if j == i then page else read_page pages j)
  unfolding read_page write_page
  read_page-write_page j =
      rw (lt→ltb i (length pages) inside) (get_or-set pages i j page zero_page inside)

  pub length-write_page : length (write_page pages i page) ≡ length pages
  unfolding write_page
  length-write_page = rw (lt→ltb i (length pages) inside) (length-set pages i page)

  pub Reads-other :
      (j : ℕ) (n : BtreeNode) → j ≢ i → Reads pages j n → Reads (write_page pages i page) j n
  Reads-other j n ne r = rw (read_page-write_page j) (ground (arith, ne, r))

  -- A leaf is written in place of a leaf: every way to a leaf stays.
  module _ (old new : BtreeNode) (was : Reads pages i old) (old_leaf : old.node_type ≡ leaf)
      (decodes : Codec.decode page ≡ ok new) (new_leaf : new.node_type ≡ leaf) where
    pub Reads-written : Reads (write_page pages i page) i new
    Reads-written = rw (read_page-write_page i) (ground (arith, decodes))

    pub Descends-write_page :
        (fuel current : ℕ) (key : List ℕ) (l : ℕ)
        → Descends pages fuel current key l
        → Descends (write_page pages i page) fuel current key l
    Descends-write_page zero current key l h = absurd h
    Descends-write_page (suc fuel) current key l (m, r, nz, inl (is_leaf, here)) =
        elim (ℕ_discrete current i) [
          | no ne ↦ (m, Reads-other current m ne r, nz, inl (is_leaf, here))
          | yes same ↦ (
            new,
            subst (λ (p : ℕ). Reads (write_page pages i page) p new) (sym same) Reads-written,
            nz,
            inl (new_leaf, here),
          )
        ]
    Descends-write_page (suc fuel) current key l
          (m, r, nz, inr (is_internal, (child, found, below))) =
        let ne : current ≢ i = λ e.
          let here = subst (λ (p : ℕ). Reads pages p m) e r in
          ground (arith, ok_injective m old (sym here ∙ was), is_internal, old_leaf) in
        (
          m,
          Reads-other current m ne r,
          nz,
          inr (is_internal, (child, found, Descends-write_page fuel child key l below)),
        )

  -- Writing page 0 changes no way to a leaf.
  pub Descends-write_meta :
      i ≡ 0
      → (fuel current : ℕ) (key : List ℕ) (l : ℕ) → Descends pages fuel current key l
      → Descends (write_page pages i page) fuel current key l
  Descends-write_meta z zero current key l h = absurd h
  Descends-write_meta z (suc fuel) current key l (m, r, nz, inl (is_leaf, here)) =
      (m, Reads-other current m (λ e. nz (e ∙ z)) r, nz, inl (is_leaf, here))
  Descends-write_meta z (suc fuel) current key l
        (m, r, nz, inr (is_internal, (child, found, below))) =
      (
        m,
        Reads-other current m (λ e. nz (e ∙ z)) r,
        nz,
        inr (is_internal, (child, found, Descends-write_meta z fuel child key l below)),
      )
