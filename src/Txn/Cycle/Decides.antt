-- ===== src/Txn/Cycle/Decides.antt =====
-- `has_cycle` decides whether a cycle of dependencies can be reached from the start.
use icedb.Base.{
  ℕ, zero, suc, ◌≡◌, refl, sym, subst, ◌∙◌, ◌⊎◌, inl, inr, true, false, none, some, List, [], ◌∷◌,
  arith, ◌==◌, Bool-cases, Map, contains, discard, nat_key,
}
use icedb.Txn.Cycle.{Visits, Search, try_all, neighbors, leave, dfs, answer, enough, has_cycle}

-- An edge from `a` to `b`.
abbrev pub Edge : Map ℕ (List ℕ) → ℕ → ℕ → Type 0
Edge edges a b = contains (neighbors edges a) b ≡ true

-- A path of at least one edge.
pub data Leads (edges : Map ℕ (List ℕ)) (a : ℕ) : ℕ → Type 0 where
  edge : {b : ℕ} → Edge edges a b → Leads edges a b
  more : {b c : ℕ} → Leads edges a b → Edge edges b c → Leads edges a c

-- A node from which every path ends: each of its neighbors is such a node.
pub data Ends (edges : Map ℕ (List ℕ)) : ℕ → Type 0 where
  ends : {a : ℕ} → ((b : ℕ) → Edge edges a b → Ends edges b) → Ends edges a

-- `x` can be reached from `a` in any number of steps.
abbrev pub From : Map ℕ (List ℕ) → ℕ → ℕ → Type 0
From edges a x = (a ≡ x) ⊎ Leads edges a x

-- A cycle that can be reached from `a`.
pub record CycleFrom (edges : Map ℕ (List ℕ)) (a : ℕ) : Type 0 where
  pub node : ℕ
  pub reached : From edges a node
  pub loop : Leads edges node node

prepend : {edges : Map ℕ (List ℕ)} {a b c : ℕ} → Edge edges a b → Leads edges b c → Leads edges a c
prepend e (edge f) = more (edge e) f
prepend e (more l f) = more (prepend e l) f

prepend-From :
    {edges : Map ℕ (List ℕ)} {a b : ℕ} (c : ℕ) → Edge edges a b → From edges b c → From edges a c
prepend-From {edges} {a} c e (inl same) = inr (subst (Leads edges a) same (edge e))
prepend-From c e (inr l) = inr (prepend e l)

module _ (edges : Map ℕ (List ℕ)) where
  -- Every node on the path leads to `node`.
  abbrev OnPath : ℕ → List ℕ → Type 0
  OnPath node path = (p : ℕ) → contains path p ≡ true → Leads edges p node

  -- The visited nodes that are no longer on the path are finished.
  abbrev Finished : Visits → Type 0
  Finished v = (x : ℕ) → contains v.visited x ≡ true → contains v.path x ≡ false → Ends edges x

  -- What a search from `node` returns: a cycle, or sets with the same path, and `node` is finished.
  abbrev Sound : ℕ → Visits → Search → Type 0
  Sound node v none = Unit
  Sound node v (some (true, v')) = CycleFrom edges node
  Sound node v (some (false, v')) = Finished v' × (v'.path ≡ v.path) × Ends edges node

  abbrev SoundAll : List ℕ → Visits → Search → Type 0
  SoundAll ns v none = Unit
  SoundAll ns v (some (true, v')) = (n : ℕ) × (contains ns n ≡ true) × CycleFrom edges n
  SoundAll ns v (some (false, v')) =
      Finished v' × (v'.path ≡ v.path) × ((n : ℕ) → contains ns n ≡ true → Ends edges n)

  contains-here : (n : ℕ) (ns : List ℕ) → contains (n ∷ ns) n ≡ true
  unfolding contains
  contains-here n ns = ground arith

  contains-there : (n m : ℕ) (ns : List ℕ) → contains ns m ≡ true → contains (n ∷ ns) m ≡ true
  unfolding contains
  contains-there n m ns h = ground arith

  contains-split :
      (n m : ℕ) (ns : List ℕ) → contains (n ∷ ns) m ≡ true → (n ≡ m) ⊎ (contains ns m ≡ true)
  unfolding contains
  contains-split n m ns h = elim (Bool-cases (n == m)) [
    | inl same ↦ inl (ground arith)
    | inr other ↦ inr (ground arith)
  ]

  SoundAll-cons :
      (n : ℕ) (ns : List ℕ) (v v' : Visits) (r : Search)
      → v'.path ≡ v.path
      → Ends edges n
      → SoundAll ns v' r
      → SoundAll (n ∷ ns) v r
  SoundAll-cons n ns v v' none p e s = tt
  SoundAll-cons n ns v v' (some (true, u)) p e (m, h, c) = (m, contains-there n m ns h, c)
  SoundAll-cons n ns v v' (some (false, u)) p e (f, q, all) = (
    f,
    q ∙ p,
    λ m h. elim (contains-split n m ns h) [
      | inl same ↦ subst (Ends edges) same e
      | inr old ↦ all m old
    ],
  )

  try_all-SoundAll :
      (search : ℕ → Visits → Search) (ns : List ℕ) (v : Visits)
      → ((n : ℕ) (v' : Visits)
          → contains ns n ≡ true
          → v'.path ≡ v.path
          → Finished v'
          → Sound n v' (search n v'))
      → Finished v
      → SoundAll ns v (try_all search ns v)
  try_all-SoundAll search [] v keep fin = unfold try_all contains in (fin, refl, λ n h. cc)
  try_all-SoundAll search (n ∷ ns) v keep fin =
      step (try_all-SoundAll search ns) (search n v) refl (keep n v (contains-here n ns) refl fin)
    where
      step :
          ((v' : Visits)
            → ((m : ℕ) (u : Visits)
                → contains ns m ≡ true
                → u.path ≡ v'.path
                → Finished u
                → Sound m u (search m u))
            → Finished v'
            → SoundAll ns v' (try_all search ns v'))
          → (r : Search) → search n v ≡ r
          → Sound n v r
          → SoundAll (n ∷ ns) v (try_all search (n ∷ ns) v)
      step ih none e s = unfold try_all in rw (e, try_all) s
      step ih (some (true, v')) e s = unfold try_all in rw (e, try_all) (n, contains-here n ns, s)
      step ih (some (false, v')) e s =
          unfold try_all in
          rw (e, try_all)
            (SoundAll-cons n ns v v' (try_all search ns v') s.1 s.2
              (ih v' (λ m u h p f. keep m u (contains-there n m ns h) (p ∙ s.1) f) s.0))

  discard_absent : (x : ℕ) (l : List ℕ) → contains l x ≡ false → discard x l ≡ l
  unfolding discard contains
  discard_absent x [] h = refl
  discard_absent x (y ∷ l) h = ground (arith, discard_absent x l)

  discard_head : (x : ℕ) (l : List ℕ) → contains l x ≡ false → discard x (x ∷ l) ≡ l
  discard_head x l h = unfold discard in ground (arith, discard_absent x l h)

  leave-Sound :
      (node : ℕ) (v : Visits) (r : Search)
      → contains v.path node ≡ false
      → SoundAll
          (neighbors edges node)
          (record { visited = node ∷ v.visited; path = node ∷ v.path })
          r
      → Sound node v (leave node r)
  leave-Sound node v none off s = tt
  leave-Sound node v (some (true, v')) off (n, h, c) = record {
    node = c.node;
    reached = prepend-From c.node h c.reached;
    loop = c.loop;
  }
  leave-Sound node v (some (false, v')) off (fin, p, all) = (fin', back, ends all)
    where
      back : discard node v'.path ≡ v.path
      back = rw p (discard_head node v.path off)

      fin' : Finished (record v' { path = discard node v'.path })
      fin' x h out = elim (Bool-cases (node == x)) [
        | inl same ↦ subst (Ends edges) (ground arith) (ends all)
        | inr other ↦ fin x h (unfold contains in ground (arith, p, back, out))
      ]

  dfs-Sound :
      (fuel node : ℕ) (v : Visits)
      → OnPath node v.path
      → Finished v
      → Sound node v (dfs fuel edges node v)
  unfolding dfs
  dfs-Sound zero node v on fin = tt
  dfs-Sound (suc fuel) node v on fin = elim (Bool-cases (contains v.path node)) [
    | inl h ↦ rw h (record { node = node; reached = inl refl; loop = on node h })
    | inr off ↦ elim (Bool-cases (contains v.visited node)) [
      | inl h ↦ rw (off, h) (fin, refl, fin node h off)
      | inr new ↦ rw (off, new) (leave-Sound node v _ off (searched (dfs-Sound fuel)))
    ]
  ]
    where
      v1 : Visits
      v1 = record { visited = node ∷ v.visited; path = node ∷ v.path }

      on1 : (n : ℕ) (v' : Visits) → Edge edges node n → v'.path ≡ node ∷ v.path → OnPath n v'.path
      on1 n v' h p q at = elim (contains-split node q v.path (rw p at at)) [
        | inl same ↦ subst (λ x. Leads edges x n) same (edge h)
        | inr old ↦ more (on q old) h
      ]

      fin1 : Finished v1
      fin1 x seen out =
          fin x (unfold contains in ground (arith, seen, out))
            (unfold contains in ground (arith, seen, out))

      searched :
          ((n : ℕ) (v' : Visits)
            → OnPath n v'.path
            → Finished v'
            → Sound n v' (dfs fuel edges n v'))
          → SoundAll (neighbors edges node) v1 (try_all (dfs fuel edges) (neighbors edges node) v1)
      searched ih =
          try_all-SoundAll (dfs fuel edges) (neighbors edges node) v1
            (λ n v' h p f. ih n v' (on1 n v' h p) f) fin1

-- The first edge of a path.
first :
    {edges : Map ℕ (List ℕ)} {a b : ℕ} → Leads edges a b → (m : ℕ) × Edge edges a m × From edges m b
first (edge {b} e) = (b, e, inl refl)
first {edges} (more {c = c} l e) =
    let (m, f, r) = first l in
    (
      m,
      f,
      elim r [
        | inl same ↦ inr (subst (λ x. Leads edges x c) (sym same) (edge e))
        | inr l' ↦ inr (more l' e)
      ],
    )

join : {edges : Map ℕ (List ℕ)} {a b c : ℕ} → Leads edges a b → Leads edges b c → Leads edges a c
join l (edge e) = more l e
join l (more k e) = more (join l k) e

no_loop : {edges : Map ℕ (List ℕ)} {a : ℕ} → Ends edges a → ¬ (Leads edges a a)
no_loop {edges} (ends {a} f) l =
    let (m, e, r) = first l in
    no_loop (f m e) (elim r [
      | inl same ↦ subst (λ x. Leads edges x m) (sym same) (edge e)
      | inr l' ↦ join l' (edge e)
    ])

Ends-Leads : {edges : Map ℕ (List ℕ)} {a b : ℕ} → Ends edges a → Leads edges a b → Ends edges b
Ends-Leads (ends f) (edge e) = f _ e
Ends-Leads h (more l e) = elim (Ends-Leads h l) [ ends f ↦ f _ e ]

no_cycle : {edges : Map ℕ (List ℕ)} {a : ℕ} → Ends edges a → ¬ (CycleFrom edges a)
no_cycle {edges} h c = elim c.reached [
  | inl same ↦ no_loop h (subst (λ x. Leads edges x x) (sym same) c.loop)
  | inr l ↦ no_loop (Ends-Leads h l) c.loop
]

-- The answer of a sound search.
answer-Sound :
    (edges : Map ℕ (List ℕ)) (node : ℕ) (v : Visits) (r : Search)
    → Sound edges node v r
    → ((answer r ≡ some true) → CycleFrom edges node)
      × ((answer r ≡ some false) → ¬ (CycleFrom edges node))
answer-Sound edges node v none s = (λ e. cc, λ e. cc)
answer-Sound edges node v (some (true, u)) s = (λ e. s, λ e. cc)
answer-Sound edges node v (some (false, u)) s = (λ e. cc, λ e. no_cycle s.2)

-- Whatever `has_cycle` answers is right: `true` only if a cycle can be reached from the start along
-- the edges, and `false` only if none can.
pub has_cycle_correct :
    (start : ℕ) (edges : Map ℕ (List ℕ))
    → ((has_cycle start edges ≡ some true) → CycleFrom edges start)
      × ((has_cycle start edges ≡ some false) → ¬ (CycleFrom edges start))
unfolding has_cycle
has_cycle_correct start edges = answer-Sound edges start empty _ (
    dfs-Sound edges (enough edges) start empty (λ p h. unfold contains in cc)
      (λ x h out. unfold contains in cc))
  where
    empty : Visits
    empty = record { visited = []; path = [] }
