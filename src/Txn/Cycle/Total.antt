-- ===== src/Txn/Cycle/Total.antt =====
-- The fuel of `has_cycle` is enough: every level of the search visits one more node with edges.
use icedb.Base.{
  ℕ, zero, suc, ◌+◌, ◌≤◌, ◌<◌, ◌≡◌, refl, inl, inr, Bool, true, false, Option, none, some, List, [],
  ◌∷◌, arith, ◌==◌, if◌then◌else◌, Bool-cases, Map, lookup, contains, nat_key,
}
use icedb.Txn.Cycle.{Visits, Search, try_all, neighbors, leave, dfs, answer, enough, has_cycle}

-- The nodes with edges that were not visited yet.
unseen : Map ℕ (List ℕ) → List ℕ → ℕ
unseen [] vis = 0
unseen ((k, ns) ∷ es) vis = if contains vis k then unseen es vis else suc (unseen es vis)

unseen-cons_le : (es : Map ℕ (List ℕ)) (x : ℕ) (vis : List ℕ) → unseen es (x ∷ vis) ≤ unseen es vis
unfolding unseen contains
unseen-cons_le [] x vis = omega arith
unseen-cons_le ((k, ns) ∷ es) x vis = ground (arith, unseen-cons_le es x vis)

unseen-cons_lt :
    (es : Map ℕ (List ℕ)) (x : ℕ) (vis ns : List ℕ)
    → lookup x es ≡ some ns
    → contains vis x ≡ false
    → unseen es (x ∷ vis) < unseen es vis
unfolding unseen contains lookup
unseen-cons_lt [] x vis ns e new = absurd (ground arith)
unseen-cons_lt ((k, ms) ∷ es) x vis ns e new = elim (Bool-cases (k == x)) [
  | inl same ↦ let at : k ≡ x = ground arith in ground (arith, at, new, unseen-cons_le es x vis)
  | inr other ↦ ground (arith, other, unseen-cons_lt es x vis ns)
]

unseen-le : (es : Map ℕ (List ℕ)) (vis : List ℕ) → unseen es vis + 2 ≤ enough es
unfolding unseen
unseen-le [] vis = omega arith
unseen-le ((k, ns) ∷ es) vis = ground (arith, unseen-le es vis)

module _ (edges : Map ℕ (List ℕ)) where
  -- The search answered, and what was visited stays visited.
  abbrev Answered : List ℕ → Search → Type 0
  Answered vis none = ⊥
  Answered vis (some (b, v)) = unseen edges v.visited ≤ unseen edges vis

  try_all-Answered :
      (search : ℕ → Visits → Search) (ns : List ℕ) (v : Visits) (bound : ℕ)
      → unseen edges v.visited ≤ bound
      → ((n : ℕ) (u : Visits) → unseen edges u.visited ≤ bound → Answered u.visited (search n u))
      → Answered v.visited (try_all search ns v)
  try_all-Answered search [] v bound le keep = unfold try_all in omega arith
  try_all-Answered search (n ∷ ns) v bound le keep =
      step (λ u h. try_all-Answered search ns u bound h keep) (search n v) refl (keep n v le)
    where
      widen :
          (vis wis : List ℕ) (r : Search)
          → unseen edges vis ≤ unseen edges wis
          → Answered vis r
          → Answered wis r
      widen vis wis none le s = s
      widen vis wis (some (b, u)) le s = omega arith

      step :
          ((u : Visits) → unseen edges u.visited ≤ bound → Answered u.visited (try_all search ns u))
          → (r : Search) → search n v ≡ r
          → Answered v.visited r
          → Answered v.visited (try_all search (n ∷ ns) v)
      step ih none e s = absurd s
      step ih (some (true, u)) e s = unfold try_all in rw (e, try_all) s
      step ih (some (false, u)) e s =
          unfold try_all in rw (e, try_all) (widen u.visited v.visited _ s (ih u (omega arith)))

  leave-Answered :
      (node : ℕ) (vis : List ℕ) (r : Search) → Answered vis r → Answered vis (leave node r)
  leave-Answered node vis none s = s
  leave-Answered node vis (some (true, u)) s = s
  leave-Answered node vis (some (false, u)) s = s

  Answered-cons : (node : ℕ) (vis : List ℕ) (r : Search) → Answered (node ∷ vis) r → Answered vis r
  Answered-cons node vis none s = s
  Answered-cons node vis (some (b, u)) s = omega (arith, s, unseen-cons_le edges node vis)

  loop-Answered :
      (fuel node : ℕ) (v : Visits) (search : ℕ → Visits → Search)
      → unseen edges v.visited ≤ fuel
      → contains v.visited node ≡ false
      → ((n : ℕ) (u : Visits) → unseen edges u.visited < fuel → Answered u.visited (search n u))
      → Answered (node ∷ v.visited) (
          try_all search
            (neighbors edges node)
            (record { visited = node ∷ v.visited; path = node ∷ v.path }))
  loop-Answered fuel node v search le new keep = go (lookup node edges) refl
    where
      v1 : Visits
      v1 = record { visited = node ∷ v.visited; path = node ∷ v.path }

      go :
          (o : Option (List ℕ))
          → lookup node edges ≡ o
          → Answered (node ∷ v.visited) (try_all search (neighbors edges node) v1)
      go none e =
          let nobody : neighbors edges node ≡ [] = rw (e, neighbors) in
          rw nobody (unfold try_all in omega arith)
      go (some ns) e =
          try_all-Answered search (neighbors edges node) v1 (unseen edges v1.visited) (omega arith)
            (λ n u h. keep n u (omega (arith, h, unseen-cons_lt edges node v.visited ns e new)))

  dfs-Answered :
      (fuel node : ℕ) (v : Visits)
      → unseen edges v.visited < fuel
      → Answered v.visited (dfs fuel edges node v)
  unfolding dfs
  dfs-Answered zero node v lt = absurd (omega arith)
  dfs-Answered (suc fuel) node v lt = elim (Bool-cases (contains v.path node)) [
    | inl h ↦ rw h (omega arith)
    | inr off ↦ elim (Bool-cases (contains v.visited node)) [
      | inl h ↦ rw (off, h) (omega arith)
      | inr new ↦
          rw (off, new)
            (leave-Answered node v.visited _ (
              Answered-cons node v.visited _
                (loop-Answered fuel node v (dfs fuel edges) (omega arith) new (dfs-Answered fuel))))
    ]
  ]

answer-Answered :
    (edges : Map ℕ (List ℕ)) (vis : List ℕ) (r : Search)
    → Answered edges vis r
    → (b : Bool) × (answer r ≡ some b)
answer-Answered edges vis none s = absurd s
answer-Answered edges vis (some (b, v)) s = (b, refl)

-- `has_cycle` always answers: the search ends, for every graph and every start.
pub has_cycle_total :
    (start : ℕ) (edges : Map ℕ (List ℕ)) → (b : Bool) × (has_cycle start edges ≡ some b)
unfolding has_cycle
has_cycle_total start edges = answer-Answered edges [] _ (
    dfs-Answered edges (enough edges) start (record { visited = []; path = [] })
      (omega (arith, unseen-le edges [])))
