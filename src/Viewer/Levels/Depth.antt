-- ===== src/Viewer/Levels/Depth.antt =====
-- A whole run of compute_tool_graph_metrics (atsuite/cli/trace_viewer_metadata.py).
use atsuite.Base.{
  ℕ, zero, suc, ◌≤◌, ◌<◌, ◌≡◌, ◌⊎◌, refl, sym, subst, ap, ◌∙◌, String, some, List, [], ◌∷◌, nat_eq,
  length, arith, All, Bool-cases, inl, inr,
}
use atsuite.Base.Dict.{Dict, values, get, put, get-put_self, All-put}
use atsuite.Base.Int.{ℤ}
use atsuite.Base.Sets.Sorted.{sorted, length-sorted}
use atsuite.Viewer.{ViewNode, ViewGraph, build_node_by_id}
use atsuite.Viewer.Schedule.{zero_ids}
use atsuite.Viewer.Levels.{
  tool_weight, Walk, walk_node, walk_queue, walk, root_levels, first_walk, draw,
}
use atsuite.Viewer.Levels.Counts.{zero_ids-positives-le, max_cases, put_keeps}
use atsuite.Viewer.Levels.Paths.{left, ToolPath, single, Reached, WalkInv, walk_node-Walks}
use atsuite.Viewer.Levels.{tool_levels, maximum}
use atsuite.Viewer.Display.{is_tool_at, build_display_edges}

module _ (g : ViewGraph) (adjacency : Dict ℕ (List ℕ)) where
  walk_queue-ends :
      (f : ℕ) (queue : List ℕ) (w : Walk)
      → w.queue ≡ queue
      → ((x : Walk)
          → left x < f
          → WalkInv g adjacency x
          → (y : Walk) × (walk f g adjacency x ≡ some y) × WalkInv g adjacency y)
      → left w < suc f
      → WalkInv g adjacency w
      → (y : Walk) × (walk_queue (walk f g adjacency) g adjacency queue w ≡ some y)
        × WalkInv g adjacency y
  unfolding walk_queue
  walk_queue-ends f [] w e ih h v = (w, refl, v)
  walk_queue-ends f (n ∷ queue) w e ih h v =
      let queued = subst (All (λ m. (l : ℕ) × (get w.levels m ≡ some l))) e v.queued in
      let w' = record w { queue = queue } in
      let k =
        walk_node-Walks g adjacency n w' queued.0 (record { paths = v.paths; queued = queued.1 }) in
      ih (walk_node g adjacency n w') (omega (arith, k.work, ap length e)) k.inv

  pub walk-ends :
      (f : ℕ) (w : Walk)
      → left w < f
      → WalkInv g adjacency w
      → (y : Walk) × (walk f g adjacency w ≡ some y) × WalkInv g adjacency y
  unfolding walk
  walk-ends zero w h v = elim h [ ]
  walk-ends (suc f) w h v = walk_queue-ends f w.queue w refl (walk-ends f) h v

  root_levels-paths :
      (roots : List ℕ) (levels : Dict ℕ ℕ)
      → All (Reached g adjacency) levels
      → All (Reached g adjacency) (root_levels g roots levels)
  unfolding root_levels
  root_levels-paths [] levels paths = paths
  root_levels-paths (r ∷ roots) levels paths =
      root_levels-paths roots (put levels r (tool_weight g r)) (
        All-put (Reached g adjacency) levels r (tool_weight g r) paths
          (single r (tool_weight g r) refl))

  root_levels-keeps :
      (roots : List ℕ) (levels : Dict ℕ ℕ) (n l : ℕ)
      → get levels n ≡ some l
      → (l' : ℕ) × (get (root_levels g roots levels) n ≡ some l')
  unfolding root_levels
  root_levels-keeps [] levels n l h = (l, h)
  root_levels-keeps (r ∷ roots) levels n l h =
      let (l', h') = put_keeps levels r n (tool_weight g r) l h in
      root_levels-keeps roots (put levels r (tool_weight g r)) n l' h'

  root_levels-all :
      (roots : List ℕ) (levels : Dict ℕ ℕ)
      → All (λ n. (l : ℕ) × (get (root_levels g roots levels) n ≡ some l)) roots
  unfolding root_levels
  root_levels-all [] levels = tt
  root_levels-all (r ∷ roots) levels = (
    root_levels-keeps roots (put levels r (tool_weight g r)) r (tool_weight g r)
        (get-put_self levels r (tool_weight g r)),
    root_levels-all roots (put levels r (tool_weight g r)),
  )

  pub first_walk-WalkInv : (indegree : Dict ℕ ℤ) → WalkInv g adjacency (first_walk g indegree)
  unfolding first_walk
  first_walk-WalkInv indegree = record {
    paths = root_levels-paths (sorted (zero_ids indegree)) [] tt;
    queued = root_levels-all (sorted (zero_ids indegree)) [];
  }

  pub first_walk-left : (indegree : Dict ℕ ℤ) → left (first_walk g indegree) ≤ length indegree
  unfolding first_walk
  first_walk-left indegree =
      omega (arith, length-sorted (zero_ids indegree), zero_ids-positives-le indegree)

  pub tool_levels-paths :
      (levels : Dict ℕ ℕ)
      → All (Reached g adjacency) levels
      → All (Reached g adjacency) (tool_levels g levels)
  unfolding tool_levels
  tool_levels-paths [] h = tt
  tool_levels-paths ((n, l) ∷ levels) h = elim (Bool-cases (is_tool_at g n)) [
    | inl tool ↦ rw tool (h.0, tool_levels-paths levels h.1)
    | inr other ↦ rw other (tool_levels-paths levels h.1)
  ]

  -- The largest level is that of a path, or there is none.
  pub maximum-path :
      (levels : Dict ℕ ℕ)
      → All (Reached g adjacency) levels
      → (maximum (values levels) ≡ 0) ⊎ ((n : ℕ) × ToolPath g adjacency n (maximum (values levels)))
  unfolding maximum
  maximum-path [] h = inl refl
  maximum-path ((n, l) ∷ levels) h = elim (max_cases l (maximum (values levels))) [
    | inl e ↦ inr (n, subst (ToolPath g adjacency n) (sym e) h.0)
    | inr e ↦ elim (maximum-path levels h.1) [
      | inl zero_depth ↦ inl (e ∙ zero_depth)
      | inr (m, path) ↦ inr (m, subst (ToolPath g adjacency m) (sym e) path)
    ]
  ]

-- The edges that are drawn, from each node.
abbrev pub drawn_from : List ViewNode → Dict ℕ String → Dict ℕ ℕ → Dict ℕ (List ℕ)
drawn_from nodes modes starts =
    (draw (build_node_by_id nodes) (build_display_edges nodes modes starts)).adjacency
