-- ===== src/Btree/Node.antt =====
-- crates/btree/src/node.rs: the entries of a leaf in memory. Keys are compared as `[u8]` is, byte by
-- byte.
pub mod Order
pub mod Search
pub mod Insert
pub mod Lookup
pub mod Tests
use icedb.Base.{
  nat_key, zero, suc, [], ◌∷◌, none, some, true, false, inl, inr, ok, err, refl, arith, ◌>>=◌, ◌>>◌,
  ◌≡◌, ◌+◌, Option, List, ℕ, ◌-◌, length, if◌then◌else◌, ltb, Bool, ◌/◌, get_elem?, ◌||◌, ◌==◌,
  ◌&&◌,
}
use icedb.Storage.Tuple.{Tid}

pub record LeafEntry : Type 0 where
  pub key : List ℕ
  pub tid : Tid

pub data Ordering : Type 0 where
  less equal greater : Ordering

unfoldable pub key_lt : List ℕ → List ℕ → Bool
key_lt [] [] = false
key_lt [] (b ∷ bs) = true
key_lt (a ∷ more) [] = false
key_lt (a ∷ more) (b ∷ bs) = ltb a b || (a == b && key_lt more bs)

-- `Ord::cmp` on keys
abbrev pub cmp : List ℕ → List ℕ → Ordering
cmp a b = if key_lt a b then less else if key_lt b a then greater else equal

pub data Found : Type 0 where
  found_at : ℕ → Found
  missing : Found
  index_panic : Found
  out_of_fuel : Found

abbrev pub middle : ℕ → ℕ → ℕ
middle lo hi = lo + (hi - lo) / 2

-- The loop `while lo < hi`.
unfoldable pub search : ℕ → List LeafEntry → List ℕ → ℕ → ℕ → Found
search zero entries key lo hi = out_of_fuel
search (suc fuel) entries key lo hi = elim (ltb lo hi) [
  | false ↦ missing
  | true ↦ elim (get_elem? entries (middle lo hi)) [
    | none ↦ index_panic
    | some e ↦ elim (cmp e.key key) [
      | equal ↦ found_at (middle lo hi)
      | less ↦ search fuel entries key (middle lo hi + 1) hi
      | greater ↦ search fuel entries key lo (middle lo hi)
    ]
  ]
]

-- Each round shortens the range, so a round for each entry and one more are enough.
unfoldable pub find_key : List LeafEntry → List ℕ → Found
find_key entries key = search (length entries + 1) entries key 0 (length entries)

-- `partition_point` for the entries in front of a key.
unfoldable pub entries_below : List LeafEntry → List ℕ → ℕ
entries_below [] key = 0
entries_below (e ∷ es) key =
    let rest = entries_below es key in if key_lt e.key key then suc rest else 0

abbrev pub push_front : LeafEntry → Option (List LeafEntry) → Option (List LeafEntry)
push_front x none = none
push_front x (some es) = some (x ∷ es)

-- `Vec::insert`, which panics behind the end.
unfoldable pub insert_at : List LeafEntry → ℕ → LeafEntry → Option (List LeafEntry)
insert_at es zero e = some (e ∷ es)
insert_at [] (suc i) e = none
insert_at (x ∷ es) (suc i) e = push_front x (insert_at es i e)

unfoldable pub insert_leaf_entry : List LeafEntry → LeafEntry → Option (List LeafEntry)
insert_leaf_entry entries e = insert_at entries (entries_below entries e.key) e
