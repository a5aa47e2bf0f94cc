-- ===== src/Viewer/Levels/Longest.antt =====
-- The levels of compute_tool_graph_metrics (atsuite/cli/trace_viewer_metadata.py) when its walk has
-- ended, against all drawn paths.
use atsuite.Base.{
  ℕ, zero, suc, ◌≤◌, ◌<◌, ◌≡◌, refl, sym, ap, subst, true, false, ◌||◌, Option, none, some, List,
  [], ◌∷◌, nat_eq, if◌then◌else◌, arith, dec_lt, Bool-cases, inl, inr, In, first, later,
}
use atsuite.Base.Dict.{Dict, get, get_or, put, has, get-put}
use atsuite.Base.Int.{pos}
use atsuite.Base.Sets.{elem, count}
use atsuite.Base.Sets.Sorted.{sorted, elem-sorted, Unique-sorted}
use atsuite.Viewer.{ViewGraph}
use atsuite.Viewer.Schedule.{zero_ids}
use atsuite.Viewer.Schedule.Degrees.{zero_ids-get, zero_ids-has, zero_ids-Unique}
use atsuite.Viewer.Display.{is_tool_at}
use atsuite.Viewer.Levels.{tool_weight, Walk, root_levels, first_walk, Drawn}
use atsuite.Viewer.Levels.Edges.{owed, owed-edge, owed-Debtor, IsCounted}
use atsuite.Viewer.Levels.Paths.{ToolPath, single, extend}
use atsuite.Viewer.Levels.Settled.{level_at, SettledOn}
use atsuite.Viewer.Levels.Raised.{DrawnTo, Idle}

elem-In : (xs : List ℕ) (a : ℕ) → elem xs a ≡ true → In a xs
unfolding elem
elem-In [] a h = cc
elem-In (x ∷ xs) a h = elim (nat_eq.dec x a) [
  | yes same ↦ subst (λ b. In b (x ∷ xs)) same first
  | no differ ↦ later (elem-In xs a (ground arith))
]

In-elem : (a : ℕ) {xs : List ℕ} → In a xs → elem xs a ≡ true
unfolding elem
In-elem a first = ground arith
In-elem a (later i) = ground (arith, In-elem a i)

elem-count : (xs : List ℕ) (a : ℕ) → 0 < count xs a → elem xs a ≡ true
unfolding elem count
elem-count [] a h = absurd (omega arith)
elem-count (x ∷ xs) a h = ground (arith, elem-count xs a)

count-elem : (xs : List ℕ) (a : ℕ) → elem xs a ≡ true → 0 < count xs a
unfolding elem count
count-elem [] a h = cc
count-elem (x ∷ xs) a h = ground (arith, count-elem xs a)

root_levels-get :
    (g : ViewGraph) (roots : List ℕ) (levels : Dict ℕ ℕ) (m : ℕ)
    → get (root_levels g roots levels) m
      ≡ (if elem roots m then some (tool_weight g m) else get levels m)
unfolding root_levels elem
root_levels-get g [] levels m = refl
root_levels-get g (n ∷ roots) levels m =
    let e = root_levels-get g roots (put levels n (tool_weight g n)) m in
    let p = get-put levels n m (tool_weight g n) in
    elim (nat_eq.dec n m) [
      | yes same ↦ let w = ap (tool_weight g) same in ground arith
      | no differ ↦ ground arith
    ]

pub is_tool_at-has : (g : ViewGraph) (n : ℕ) → is_tool_at g n ≡ true → has g n ≡ true
unfolding is_tool_at
is_tool_at-has g n h = ground arith

has_some :
    (o : Option ℕ) → (elim o [ none ↦ false | some v ↦ true ]) ≡ true → (l : ℕ) × (o ≡ some l)
has_some none h = cc
has_some (some l) h = (l, refl)

module _ (g : ViewGraph) (drawn : Drawn) (c : IsCounted g drawn) where
  -- Both ends of a drawn edge are nodes of the graph.
  pub target_known : (k n : ℕ) → DrawnTo g drawn.adjacency k n → has g n ≡ true
  target_known k n edge = elim (Bool-cases (has g n)) [
    | inl h ↦ h
    | inr h ↦
        let some_edge = count-elem (get_or drawn.adjacency k []) n edge in
        let owing = owed-edge drawn.adjacency k n some_edge in
        let paid = c.unowed n h in absurd (ground arith)
  ]

  source_known : (k n : ℕ) → DrawnTo g drawn.adjacency k n → has g k ≡ true
  unfolding elem
  source_known k n edge = let e = c.covered k in ground arith

  zero_in : (m : ℕ) → get drawn.indegree m ≡ some (pos 0) → has g m ≡ true
  zero_in m h = elim (Bool-cases (has g m)) [
    | inl e ↦ e
    | inr e ↦ let x = c.unknown m e in absurd (ground arith)
  ]

  root_level :
      (m : ℕ)
      → (elem (sorted (zero_ids drawn.indegree)) m || elem [] m) ≡ true
      → get (root_levels g (sorted (zero_ids drawn.indegree)) []) m ≡ some (tool_weight g m)
  unfolding elem
  root_level m h = let e = root_levels-get g (sorted (zero_ids drawn.indegree)) [] m in ground arith

  pub first_walk-Idle : Idle g drawn.adjacency [] (first_walk g drawn.indegree)
  unfolding first_walk elem count
  first_walk-Idle =
      let ids = zero_ids drawn.indegree in
      let zero_at = λ (m : ℕ) (h : (elem (sorted ids) m || elem [] m) ≡ true).
        zero_ids-get drawn.indegree m c.targets (let e = elem-sorted ids m in ground arith) in
      record {
        settled = record {
          degrees = λ m h. let x = c.known m h in ground arith;
          joined = λ m h e.
              let x = c.known m h in
              let y = zero_ids-has drawn.indegree m (ground arith) in
              let z = elem-sorted ids m in ground arith;
          settled = λ m h. let x = zero_at m h in let y = c.known m (zero_in m x) in ground arith;
          in_graph = λ m h. zero_in m (zero_at m h);
          once = Unique-sorted ids (zero_ids-Unique drawn.indegree c.targets);
          apart = λ m h. refl;
          has_level = λ m h. let x = root_level m h in ground arith;
          own_weight = λ m h. let x = root_level m h in ground arith;
        };
        raised = λ k n h edge. cc;
      }

  module _ (rank : ℕ → ℕ)
      (rising : (m n : ℕ) → In n (get_or drawn.adjacency m []) → rank m < rank n) (done : List ℕ)
      (y : Walk) (i : Idle g drawn.adjacency done y) (empty : y.queue ≡ []) where
    -- Every node is done in the end.
    all_done : (b n : ℕ) → rank n < b → has g n ≡ true → elem done n ≡ true
    unfolding elem count
    all_done zero n h known = absurd (omega arith)
    all_done (suc b) n h known = elim (Bool-cases (elem done n)) [
      | inl yes_done ↦ yes_done
      | inr open_still ↦ elim (dec_lt 0 (owed drawn.adjacency done n)) [
        | yes owing ↦
            let d = owed-Debtor drawn.adjacency done n c.sources owing in
            let there : get_or drawn.adjacency d.id [] ≡ d.targets = rw (d.at, get_or) in
            let edge = subst (λ ts. elem ts n ≡ true) (sym there) (elem-count d.targets n d.edge) in
            let lower = rising d.id n (elem-In (get_or drawn.adjacency d.id []) n edge) in
            let source = all_done b d.id (omega arith) (source_known d.id n edge) in
            let open_source = d.open_still in absurd (ground arith)
        | no paid ↦
            let settled =
              subst (λ q. SettledOn g drawn.adjacency done [] q y.indegree y.levels) empty
                i.settled in
            let x = settled.joined n known (omega arith) in absurd (ground arith)
      ]
    ]

    pub leveled : (n : ℕ) → has g n ≡ true → (l : ℕ) × (get y.levels n ≡ some l)
    leveled n known =
        let x =
          i.settled.has_level n
            (let e = all_done (suc (rank n)) n (omega arith) known in ground arith) in
        has_some (get y.levels n) x

    -- No drawn path to a node has more tools than its level.
    pub ToolPath-le : (n k : ℕ) → ToolPath g drawn.adjacency n k → k ≤ level_at y.levels n
    unfolding tool_weight
    ToolPath-le n k (single _ _ e) = elim (Bool-cases (has g n)) [
      | inl known ↦
          let d = all_done (suc (rank n)) n (omega arith) known in
          let x = i.settled.own_weight n (ground arith) in ground arith
      | inr unknown ↦ elim (Bool-cases (is_tool_at g n)) [
        | inl tool ↦ let x = is_tool_at-has g n tool in absurd (ground arith)
        | inr other ↦ ground arith
      ]
    ]
    ToolPath-le n k (extend m _ l _ path edge e) =
        let drawn_to = In-elem n edge in
        let d = all_done (suc (rank m)) m (omega arith) (source_known m n drawn_to) in
        let x = i.raised m n d drawn_to in let y' = ToolPath-le m l path in omega arith
