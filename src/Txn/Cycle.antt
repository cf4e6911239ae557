-- ===== src/Txn/Cycle.antt =====
-- `has_cycle` and `dfs` of crates/txn/src/manager.rs: the search for a cycle of dependencies.
pub mod Decides
pub mod Total
use icedb.Base.{
  ℕ, zero, suc, Bool, true, false, Option, none, some, List, [], ◌∷◌, if◌then◌else◌, Map, lookup,
  contains, discard, nat_key,
}

-- The two sets that the search carries.
pub record Visits : Type 0 where
  pub visited : List ℕ
  pub path : List ℕ

-- A search reports a cycle or not, beside the sets; `none` means that the fuel ran out.
abbrev pub Search : Type 0
Search = Option (Bool × Visits)

-- `for &next in neighbors { if dfs(next, …) { return true; } }`
unfoldable pub try_all : (ℕ → Visits → Search) → List ℕ → Visits → Search
try_all search [] v = some (false, v)
try_all search (next ∷ rest) v = elim (search next v) [
  | none ↦ none
  | some (true, v') ↦ some (true, v')
  | some (false, v') ↦ try_all search rest v'
]

abbrev pub neighbors : Map ℕ (List ℕ) → ℕ → List ℕ
neighbors edges node = elim (lookup node edges) [ none ↦ [] | some ns ↦ ns ]

-- `path.remove(&node)` behind the loop, unless the loop returned `true`.
abbrev pub leave : ℕ → Search → Search
leave node none = none
leave node (some (true, v)) = some (true, v)
leave node (some (false, v)) = some (false, record v { path = discard node v.path })

unfoldable pub dfs : ℕ → Map ℕ (List ℕ) → ℕ → Visits → Search
dfs zero edges node v = none
dfs (suc fuel) edges node v =
    let deeper = leave node (
      try_all (dfs fuel edges) (neighbors edges node)
        (record { visited = node ∷ v.visited; path = node ∷ v.path })) in
    if contains v.path node
    then some (true, v)
    else if contains v.visited node
    then some (false, v)
    else deeper

-- The answer of a search, without the sets.
abbrev pub answer : Search → Option Bool
answer none = none
answer (some (b, v)) = some b

-- One unit of fuel for every node that has edges, and two more, are enough: `has_cycle_total`.
abbrev pub enough : Map ℕ (List ℕ) → ℕ
enough [] = 2
enough (e ∷ es) = suc (enough es)

unfoldable pub has_cycle : ℕ → Map ℕ (List ℕ) → Option Bool
has_cycle start edges = answer (dfs (enough edges) edges start (record { visited = []; path = [] }))
