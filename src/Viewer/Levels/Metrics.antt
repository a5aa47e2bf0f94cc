-- ===== src/Viewer/Levels/Metrics.antt =====
-- What compute_tool_graph_metrics returns (atsuite/cli/trace_viewer_metadata.py).
use atsuite.Base.{
  ℕ, suc, ◌≤◌, ◌<◌, ◌≡◌, ◌⊎◌, refl, sym, subst, ◌∙◌, String, true, false, none, some, List, [], ◌∷◌,
  nat_eq, length, if◌then◌else◌, arith, Bool-cases, inl, inr, In, All,
}
use atsuite.Base.Dict.{Dict, values, get, get_or}
use atsuite.Base.Sets.{elem, count}
use atsuite.Viewer.{ViewNode, ViewGraph, build_node_by_id}
use atsuite.Viewer.Display.{is_tool_at, build_display_edges}
use atsuite.Viewer.Schedule.Debts.{build_node_by_id-Unique}
use atsuite.Viewer.Levels.{
  ToolGraph, tool_weight, tool_graph, tool_levels, maximum, widest, first_walk, draw,
  compute_tool_graph_metrics,
}
use atsuite.Viewer.Levels.Counts.{length-draw, max_cases}
use atsuite.Base.Dict.{All-get}
use atsuite.Viewer.Levels.Paths.{ToolPath, single, extend, Reached}
use atsuite.Viewer.Levels.Depth.{
  walk-ends, first_walk-left, first_walk-WalkInv, tool_levels-paths, maximum-path, drawn_from,
}
use atsuite.Viewer.Levels.Edges.{draw-IsCounted}
use atsuite.Viewer.Levels.Settled.{level_at}
use atsuite.Viewer.Levels.Raised.{walk-Idle}
use atsuite.Viewer.Levels.Longest.{
  target_known, first_walk-Idle, leveled, ToolPath-le, is_tool_at-has,
}

-- The metrics against the drawn paths. The level of a tool is the largest number of tools on a path
-- that ends with it; the depth is the largest number on any path; the width is the largest number of
-- tools on one level.
pub record IsMeasured (g : ViewGraph) (adjacency : Dict ℕ (List ℕ)) (t : ToolGraph) : Type 0 where
  pub longest :
      (n : ℕ)
      → is_tool_at g n ≡ true
      → (l : ℕ) × (get t.level_by_id n ≡ some l)
        × ToolPath g adjacency n l
        × ((k : ℕ) → ToolPath g adjacency n k → k ≤ l)
  pub tools_only : (n l : ℕ) → get t.level_by_id n ≡ some l → is_tool_at g n ≡ true
  pub deepest : (n k : ℕ) → ToolPath g adjacency n k → k ≤ t.depth
  pub depth_attained : (t.depth ≡ 0) ⊎ ((n : ℕ) × ToolPath g adjacency n t.depth)
  pub widest_level : (l : ℕ) → count (values t.level_by_id) l ≤ t.width
  pub width_attained : (t.width ≡ 0) ⊎ ((l : ℕ) × (count (values t.level_by_id) l ≡ t.width))

get-tool_levels_first :
    (g : ViewGraph) (k l : ℕ) (levels : Dict ℕ ℕ)
    → get (tool_levels g levels) k ≡ (if is_tool_at g k then get levels k else none)
    → get (tool_levels g ((k, l) ∷ levels)) k
      ≡ (if is_tool_at g k then get ((k, l) ∷ levels) k else none)
unfolding tool_levels get
get-tool_levels_first g k l levels h = ground arith

get-tool_levels :
    (g : ViewGraph) (levels : Dict ℕ ℕ) (n : ℕ)
    → get (tool_levels g levels) n ≡ (if is_tool_at g n then get levels n else none)
unfolding tool_levels get
get-tool_levels g [] n = ground arith
get-tool_levels g ((k, l) ∷ levels) n = elim (nat_eq.dec k n) [
  | yes same ↦
      subst
        (λ j.
          get (tool_levels g ((k, l) ∷ levels)) j
          ≡ (if is_tool_at g j then get ((k, l) ∷ levels) j else none))
        same (get-tool_levels_first g k l levels (get-tool_levels g levels k))
  | no differ ↦ ground (arith, get-tool_levels g levels n)
]

maximum-le : (d : Dict ℕ ℕ) (n l : ℕ) → get d n ≡ some l → l ≤ maximum (values d)
unfolding maximum get
maximum-le [] n l h = cc
maximum-le ((k, x) ∷ d) n l h = ground (arith, maximum-le d n l)

widest-le : (all ns : List ℕ) (l : ℕ) → elem ns l ≡ true → count all l ≤ widest all ns
unfolding widest elem
widest-le all [] l h = cc
widest-le all (n ∷ ns) l h = elim (nat_eq.dec n l) [
  | yes same ↦ let e = subst (λ m. count all l ≡ count all m) (sym same) refl in omega arith
  | no differ ↦ let e = widest-le all ns l (ground arith) in omega arith
]

count-absent : (ns : List ℕ) (l : ℕ) → elem ns l ≡ false → count ns l ≡ 0
unfolding count elem
count-absent [] l h = refl
count-absent (n ∷ ns) l h = ground (arith, count-absent ns l)

widest_attained :
    (all ns : List ℕ) → (widest all ns ≡ 0) ⊎ ((l : ℕ) × (count all l ≡ widest all ns))
unfolding widest
widest_attained all [] = inl refl
widest_attained all (n ∷ ns) = elim (max_cases (count all n) (widest all ns)) [
  | inl e ↦ inr (n, sym e)
  | inr e ↦ elim (widest_attained all ns) [
    | inl nothing ↦ inl (e ∙ nothing)
    | inr (l, h) ↦ inr (l, h ∙ sym e)
  ]
]

module _ (g : ViewGraph) (adjacency : Dict ℕ (List ℕ)) where
  -- Without tools at its end, a path has none, or as many as one that ends with a tool.
  last_tool :
      (n k : ℕ)
      → ToolPath g adjacency n k
      → (k ≡ 0) ⊎ ((m : ℕ) × (is_tool_at g m ≡ true) × ToolPath g adjacency m k)
  unfolding tool_weight
  last_tool n k (single _ _ e) = elim (Bool-cases (is_tool_at g n)) [
    | inl tool ↦ inr (n, tool, single n k e)
    | inr other ↦ inl (ground arith)
  ]
  last_tool n k (extend m _ l _ path edge e) = elim (Bool-cases (is_tool_at g n)) [
    | inl tool ↦ inr (n, tool, extend m n l k path edge e)
    | inr other ↦
        let same : l ≡ k = ground arith in
        subst (λ x. (x ≡ 0) ⊎ ((m : ℕ) × (is_tool_at g m ≡ true) × ToolPath g adjacency m x)) same
          (last_tool m l path)
  ]

  tool_longest :
      (levels : Dict ℕ ℕ) (n : ℕ)
      → ((m : ℕ) → is_tool_at g m ≡ true → (l : ℕ) × (get levels m ≡ some l))
      → ((m k : ℕ) → ToolPath g adjacency m k → k ≤ level_at levels m)
      → All (Reached g adjacency) levels
      → is_tool_at g n ≡ true
      → (l : ℕ) × (get (tool_levels g levels) n ≡ some l)
        × ToolPath g adjacency n l
        × ((k : ℕ) → ToolPath g adjacency n k → k ≤ l)
  tool_longest levels n leveled le paths tool =
      let (l, at) = leveled n tool in
      (
        l,
        get-tool_levels g levels n ∙ rw tool at,
        All-get (Reached g adjacency) levels n l paths at,
        λ k path. let x = le n k path in ground arith,
      )

  measured :
      (levels : Dict ℕ ℕ)
      → ((n : ℕ) → is_tool_at g n ≡ true → (l : ℕ) × (get levels n ≡ some l))
      → ((n k : ℕ) → ToolPath g adjacency n k → k ≤ level_at levels n)
      → All (Reached g adjacency) levels
      → IsMeasured g adjacency (tool_graph (tool_levels g levels))
  unfolding tool_graph
  measured levels leveled le paths =
      let kept = tool_levels-paths g adjacency levels paths in
      let longest =
        λ (n : ℕ) (tool : is_tool_at g n ≡ true). tool_longest levels n leveled le paths tool in
      record {
        longest = longest;
        tools_only = λ n l h. let e = get-tool_levels g levels n in ground arith;
        deepest = λ n k path. elim (last_tool n k path) [
          | inl nothing ↦ omega arith
          | inr (m, tool, path') ↦
              let (l, at, own, most) = longest m tool in
              let x = most k path' in
              let y = maximum-le (tool_levels g levels) m l at in omega arith
        ];
        depth_attained = maximum-path g adjacency (tool_levels g levels) kept;
        widest_level = λ l.
            let vs = values (tool_levels g levels) in
            elim (Bool-cases (elem vs l)) [
              | inl there ↦ widest-le vs vs l there
              | inr absent ↦ let e = count-absent vs l absent in omega arith
            ];
        width_attained =
            widest_attained (values (tool_levels g levels)) (values (tool_levels g levels));
      }

-- If the drawn edges all rise in some rank of the nodes, so that they form no cycle, the walk of
-- `compute_tool_graph_metrics` ends; in the tool graph that it returns exactly the tools have
-- levels, the level of a tool is the largest number of tools on a path of drawn edges that ends
-- with it, the depth is the largest number of tools on any such path, and the width is the largest
-- number of tools on one level; without tools, both are zero.
pub compute_tool_graph_metrics-IsMeasured :
    (nodes : List ViewNode) (modes : Dict ℕ String) (starts : Dict ℕ ℕ) (rank : ℕ → ℕ)
    → ((m n : ℕ) → In n (get_or (drawn_from nodes modes starts) m []) → rank m < rank n)
    → (t : ToolGraph) × (compute_tool_graph_metrics nodes modes starts ≡ some t)
      × IsMeasured (build_node_by_id nodes) (drawn_from nodes modes starts) t
unfolding compute_tool_graph_metrics
compute_tool_graph_metrics-IsMeasured nodes modes starts rank rising =
    let g = build_node_by_id nodes in
    let edges = build_display_edges nodes modes starts in
    let drawn = draw g edges in
    let c = draw-IsCounted g edges (build_node_by_id-Unique nodes) in
    let (w, e, v) =
      walk-ends g drawn.adjacency (suc (length g)) (first_walk g drawn.indegree)
        (omega (arith, first_walk-left g drawn.adjacency drawn.indegree, length-draw g edges))
        (first_walk-WalkInv g drawn.adjacency drawn.indegree) in
    let (done, idle, empty) =
      walk-Idle g drawn.adjacency c.sources (target_known g drawn c) (suc (length g)) []
        (first_walk g drawn.indegree) w (first_walk-Idle g drawn c) e in
    (
      tool_graph (tool_levels g w.levels),
      rw (e, compute_tool_graph_metrics),
      measured g drawn.adjacency w.levels
          (λ n tool. leveled g drawn c rank rising done w idle empty n (is_tool_at-has g n tool))
          (ToolPath-le g drawn c rank rising done w idle empty) v.paths,
    )
