-- ===== src/Viewer/Levels.antt =====
-- compute_tool_graph_metrics of atsuite/cli/trace_viewer_metadata.py: a walk over the drawn edges in
-- topological order that gives the tools levels, and the depth and the width of these.
pub mod Counts
pub mod Paths
pub mod Depth
pub mod Edges
pub mod Settled
pub mod Raised
pub mod Longest
pub mod Metrics
use atsuite.Base.{
  ℕ, zero, suc, ◌+◌, String, Bool, Option, none, some, List, [], ◌∷◌, ◌++◌, true, false, not, ◌&&◌,
  nat_eq, ◌==◌, if◌then◌else◌, length, max,
}
use atsuite.Base.Dict.{Dict, get, get_or, has, put, values}
use atsuite.Base.Int.{ℤ, pos, suc_ℤ, pred_ℤ, is_zero}
use atsuite.Base.Sets.{count}
use atsuite.Base.Sets.Sorted.{sorted}
use atsuite.Viewer.{ViewNode, ViewGraph, is_tool_node, build_node_by_id}
use atsuite.Viewer.Schedule.{all_zero, zero_ids}
use atsuite.Viewer.Display.{build_display_edges, is_tool_at}

unfoldable pub no_edges : ViewGraph → Dict ℕ (List ℕ)
no_edges [] = []
no_edges ((n, node) ∷ g) = (n, []) ∷ no_edges g

pub record Drawn : Type 0 where
  pub adjacency : Dict ℕ (List ℕ)
  pub indegree : Dict ℕ ℤ

-- One edge: `adjacency[source].append(target); indegree[target] += 1`, if both ends are nodes.
unfoldable pub draw_at : Option (List ℕ) → Option ℤ → ℕ → ℕ → Drawn → Drawn
unfolding put suc_ℤ
draw_at (some targets) (some n) source target d = record {
  adjacency = put d.adjacency source (targets ++ target ∷ []);
  indegree = put d.indegree target (suc_ℤ n);
}
draw_at none _ source target d = d
draw_at (some targets) none source target d = d

unfoldable pub draw_edge : ℕ → ℕ → Drawn → Drawn
unfolding get draw_at
draw_edge source target d = draw_at (get d.adjacency source) (get d.indegree target) source target d

unfoldable pub draw_edges : List (ℕ × ℕ) → Drawn → Drawn
unfolding draw_edge
draw_edges [] d = d
draw_edges ((source, target) ∷ edges) d = draw_edges edges (draw_edge source target d)

-- `1 if ... in TOOL_NODE_TYPES else 0`
unfoldable pub tool_weight : ViewGraph → ℕ → ℕ
unfolding is_tool_at
tool_weight g n = if is_tool_at g n then 1 else 0

unfoldable pub root_levels : ViewGraph → List ℕ → Dict ℕ ℕ → Dict ℕ ℕ
unfolding tool_weight put
root_levels g [] levels = levels
root_levels g (n ∷ roots) levels = root_levels g roots (put levels n (tool_weight g n))

pub record Walk : Type 0 where
  pub queue : List ℕ
  pub indegree : Dict ℕ ℤ
  pub levels : Dict ℕ ℕ

-- `indegree[neighbor] -= 1`, and the neighbour joins the queue at zero
unfoldable pub lower_at : Option ℤ → ℕ → Walk → Walk
unfolding put pred_ℤ is_zero
lower_at none n w = w
lower_at (some d) n w = record w {
  indegree = put w.indegree n (pred_ℤ d);
  queue = if is_zero (pred_ℤ d) then w.queue ++ n ∷ [] else w.queue;
}

-- One neighbour of a node at level `current`.
unfoldable pub visit_neighbor : ViewGraph → ℕ → ℕ → Walk → Walk
unfolding get put tool_weight lower_at
visit_neighbor g current n w =
    lower_at (get w.indegree n) n
      (record w { levels = put w.levels n (max (get_or w.levels n 0) (current + tool_weight g n)) })

unfoldable pub visit_neighbors : ViewGraph → ℕ → List ℕ → Walk → Walk
unfolding visit_neighbor
visit_neighbors g current [] w = w
visit_neighbors g current (n ∷ neighbors) w =
    visit_neighbors g current neighbors (visit_neighbor g current n w)

-- The body of the loop, for a node off the queue.
unfoldable pub walk_node : ViewGraph → Dict ℕ (List ℕ) → ℕ → Walk → Walk
unfolding get visit_neighbors
walk_node g adjacency n w = visit_neighbors g (get_or w.levels n 0) (get_or adjacency n []) w

unfoldable pub walk_queue :
    (Walk → Option Walk) → ViewGraph → Dict ℕ (List ℕ) → List ℕ → Walk → Option Walk
unfolding walk_node
walk_queue next g adjacency [] w = some w
walk_queue next g adjacency (n ∷ queue) w =
    next (walk_node g adjacency n (record w { queue = queue }))

-- `while queue`
unfoldable pub walk : ℕ → ViewGraph → Dict ℕ (List ℕ) → Walk → Option Walk
unfolding walk_queue
walk zero g adjacency w = none
walk (suc f) g adjacency w = walk_queue (walk f g adjacency) g adjacency w.queue w

unfoldable pub tool_levels : ViewGraph → Dict ℕ ℕ → Dict ℕ ℕ
unfolding is_tool_at
tool_levels g [] = []
tool_levels g ((n, level) ∷ levels) =
    let rest = tool_levels g levels in if is_tool_at g n then (n, level) ∷ rest else rest

unfoldable pub maximum : List ℕ → ℕ
maximum [] = 0
maximum (n ∷ ns) = max n (maximum ns)

-- How often the most frequent of some values occurs among all of them.
unfoldable pub widest : List ℕ → List ℕ → ℕ
unfolding count
widest all [] = 0
widest all (n ∷ ns) = max (count all n) (widest all ns)

pub record ToolGraph : Type 0 where
  pub depth : ℕ
  pub width : ℕ
  pub level_by_id : Dict ℕ ℕ

-- `Counter(level_by_id.values())` with its largest key and its largest count
unfoldable pub tool_graph : Dict ℕ ℕ → ToolGraph
unfolding maximum widest
tool_graph level_by_id = record {
  depth = maximum (values level_by_id);
  width = widest (values level_by_id) (values level_by_id);
  level_by_id = level_by_id;
}

-- The nodes with no drawn edge into them, in the order of their ids, and where the walk starts.
unfoldable pub first_walk : ViewGraph → Dict ℕ ℤ → Walk
unfolding sorted zero_ids root_levels
first_walk g indegree =
    let roots = sorted (zero_ids indegree) in
    record { queue = roots; indegree = indegree; levels = root_levels g roots [] }

unfoldable pub draw : ViewGraph → List (ℕ × ℕ) → Drawn
unfolding no_edges all_zero draw_edges
draw g edges = draw_edges edges (record { adjacency = no_edges g; indegree = all_zero g })

-- compute_tool_graph_metrics; a node joins the queue at most once, so a round for each node and one
-- more are enough
unfoldable pub compute_tool_graph_metrics :
    List ViewNode → Dict ℕ String → Dict ℕ ℕ → Option ToolGraph
unfolding build_node_by_id build_display_edges draw walk first_walk tool_levels tool_graph
compute_tool_graph_metrics nodes modes starts =
    let g = build_node_by_id nodes in
    let drawn = draw g (build_display_edges nodes modes starts) in
    elim (walk (suc (length g)) g drawn.adjacency (first_walk g drawn.indegree)) [
      | none ↦ none
      | some w ↦ some (tool_graph (tool_levels g w.levels))
    ]
