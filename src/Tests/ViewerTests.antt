-- ===== src/Tests/ViewerTests.antt =====
-- Tests of the viewer's simulation and metrics (atsuite/cli/trace_viewer_metadata.py) on a trace of
-- four nodes, two of which are stateful tools.
use atsuite.Base.{
  All-In, In, subst, arith, true, ◌<◌, ℕ, String, ◌≡◌, refl, Option, none, some, List, [], ◌∷◌,
  nat_eq, string_eq, All,
}
use atsuite.Base.Dict.{All-get, has, get, get_or, Dict}
use atsuite.Viewer.{ViewNode, build_node_by_id}
use atsuite.Viewer.Schedule.{compute_scheduled_start_times}
use atsuite.Viewer.Schedule.Invariant.{Apart}
use atsuite.Base.Sets.{Unique, elem}
use atsuite.Viewer.Schedule.Debts.{ids_of}
use atsuite.Viewer.Schedule.Order.{Ordered}
use atsuite.Viewer.Schedule.Started.{compute_scheduled_start_times-started}
use atsuite.Viewer.Schedule.Ordered.{compute_scheduled_start_times-Ordered}
use atsuite.Viewer.Schedule.Disjoint.{input_of, compute_scheduled_start_times-Apart}
use atsuite.Viewer.Levels.{draw, ToolGraph, compute_tool_graph_metrics}
use atsuite.Viewer.Levels.Depth.{drawn_from}
use atsuite.Viewer.Display.{build_display_edges}
use atsuite.Viewer.Levels.Metrics.{IsMeasured, compute_tool_graph_metrics-IsMeasured}

abbrev view_node : ℕ → String → String → ℕ → List ℕ → ViewNode
view_node n kind name time targets = record {
  node_id = n;
  kind = kind;
  name = name;
  time = time;
  targets = targets;
}

-- 0 leads to the tools 1 and 2, both of which lead to 3.
abbrev view_trace : List ViewNode
view_trace =
    view_node 0 "llm" "plan" 10 (1 ∷ 2 ∷ [])
    ∷ view_node 1 "tool_use" "disk.write" 4 (3 ∷ [])
    ∷ view_node 2 "tool" "disk.clear" 3 (3 ∷ [])
    ∷ view_node 3 "llm" "answer" 5 []
    ∷ []

abbrev stateful_tools_of_trace : List String
stateful_tools_of_trace = "disk.write" ∷ "disk.clear" ∷ []

schedule_test :
    compute_scheduled_start_times view_trace stateful_tools_of_trace
    ≡ some ((0, 0) ∷ (1, 10) ∷ (2, 30) ∷ (3, 45) ∷ [])
unfolding compute_scheduled_start_times nat_eq string_eq
schedule_test = refl

compute_scheduled_start_times-Apart_example :
    (starts : Dict ℕ ℕ) × (compute_scheduled_start_times view_trace stateful_tools_of_trace
      ≡ some starts)
    × Apart (input_of view_trace stateful_tools_of_trace) starts
compute_scheduled_start_times-Apart_example =
    compute_scheduled_start_times-Apart view_trace stateful_tools_of_trace

distinct_ids : Unique (ids_of view_trace)
unfolding elem nat_eq
distinct_ids = (refl, (refl, (refl, (refl, tt))))

compute_scheduled_start_times-Ordered_example :
    (starts : Dict ℕ ℕ) × (compute_scheduled_start_times view_trace stateful_tools_of_trace
      ≡ some starts)
    × Ordered (input_of view_trace stateful_tools_of_trace) starts
compute_scheduled_start_times-Ordered_example =
    compute_scheduled_start_times-Ordered view_trace stateful_tools_of_trace distinct_ids

-- Every edge leads to a larger id.
edges_rise :
    (n m : ℕ) (node : ViewNode)
    → get (build_node_by_id view_trace) n ≡ some node
    → elem node.targets m ≡ true
    → n < m
unfolding elem build_node_by_id nat_eq
edges_rise n m node found edge =
    All-get (λ entry. (k : ℕ) → elem (entry.1).targets k ≡ true → entry.0 < k)
      (build_node_by_id view_trace) n node
      (λ k h. ground arith, (λ k h. ground arith, (λ k h. ground arith, (λ k h. cc, tt)))) found m
      edge

compute_scheduled_start_times-started_example :
    (starts : Dict ℕ ℕ) × (compute_scheduled_start_times view_trace stateful_tools_of_trace
      ≡ some starts)
    × ((m : ℕ) → has (build_node_by_id view_trace) m ≡ true → (t : ℕ) × (get starts m ≡ some t))
compute_scheduled_start_times-started_example =
    compute_scheduled_start_times-started view_trace stateful_tools_of_trace (λ n. n) distinct_ids
      edges_rise

abbrev tool_access_modes : Dict ℕ String
tool_access_modes = (1, "stateful") ∷ (2, "stateful") ∷ []

abbrev tool_starts : Dict ℕ ℕ
tool_starts = (0, 0) ∷ (1, 10) ∷ (2, 30) ∷ (3, 45) ∷ []

depth_of : Option ToolGraph → Option ℕ
depth_of none = none
depth_of (some t) = some t.depth

depth_test : depth_of (compute_tool_graph_metrics view_trace tool_access_modes tool_starts) ≡ some 2
unfolding compute_tool_graph_metrics depth_of nat_eq string_eq
depth_test = refl

abbrev drawn_edges : Dict ℕ (List ℕ)
drawn_edges = (0, 1 ∷ []) ∷ (1, 2 ∷ []) ∷ (2, 3 ∷ []) ∷ (3, []) ∷ []

drawn_test : drawn_from view_trace tool_access_modes tool_starts ≡ drawn_edges
unfolding build_node_by_id build_display_edges draw nat_eq string_eq
drawn_test = refl

Rises : ℕ × List ℕ → Type 0
Rises entry = All (λ n. entry.0 < n) entry.1

drawn_edges-Rises : All Rises drawn_edges
unfolding Rises
drawn_edges-Rises = ((omega arith, tt), ((omega arith, tt), ((omega arith, tt), (tt, tt))))

In-Rises :
    (m n : ℕ) (targets : Option (List ℕ))
    → ((ts : List ℕ) → targets ≡ some ts → Rises (m, ts))
    → In n (elim targets [ none ↦ [] | some ts ↦ ts ])
    → m < n
unfolding Rises
In-Rises m n none rises h = elim h [ ]
In-Rises m n (some ts) rises h = All-In (λ k. m < k) (rises ts refl) h

drawn_rise :
    (m n : ℕ) → In n (get_or (drawn_from view_trace tool_access_modes tool_starts) m []) → m < n
drawn_rise m n h =
    In-Rises m n (get drawn_edges m)
      (λ ts found. All-get Rises drawn_edges m ts drawn_edges-Rises found)
      (subst (λ d. In n (get_or d m [])) drawn_test h)

compute_tool_graph_metrics-IsMeasured_example :
    (t : ToolGraph) × (compute_tool_graph_metrics view_trace tool_access_modes tool_starts ≡ some t)
    × IsMeasured
        (build_node_by_id view_trace)
        (drawn_from view_trace tool_access_modes tool_starts)
        t
compute_tool_graph_metrics-IsMeasured_example =
    compute_tool_graph_metrics-IsMeasured view_trace tool_access_modes tool_starts (λ n. n)
      drawn_rise
