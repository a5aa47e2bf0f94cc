-- ===== src/Viewer/Enrich.antt =====
-- build_enriched_trace_payload of atsuite/cli/trace_viewer_metadata.py: what the viewer is told of a
-- trace. Modes and start times are kept by numeric id.
use atsuite.Base.{ℕ, String, none, some, List, [], ◌∷◌, nat_eq, string_eq, if◌then◌else◌}
use atsuite.Base.Dict.{Dict, put}
use atsuite.Base.Json.{Value, obj}
use atsuite.Base.Sets.{elem}
use atsuite.Result.{Result, ok, err, ◌>>=◌, wrong_type, exhausted, unreadable_file}
use atsuite.Analysis.Timeline.Build.{sorted_set}
use atsuite.Viewer.{ViewNode, view_nodes, is_tool_node}
use atsuite.Viewer.Config.{Tree, try_json}
use atsuite.Viewer.Candidates.{resolve_stateful_tool_names}
use atsuite.Viewer.Schedule.{compute_scheduled_start_times}
use atsuite.Viewer.Levels.{ToolGraph, compute_tool_graph_metrics}

pub record ViewerMetadata : Type 0 where
  pub stateful_tool_names : List String
  pub tool_mode_by_id : Dict ℕ String
  pub start_time_by_id : Dict ℕ ℕ
  pub tool_graph : ToolGraph

-- `tool_mode_by_id`
unfoldable pub tool_modes : List String → List ViewNode → Dict ℕ String → Dict ℕ String
unfolding is_tool_node elem put
tool_modes stateful [] modes = modes
tool_modes stateful (node ∷ nodes) modes = tool_modes stateful nodes (
    if is_tool_node node
    then put modes node.node_id (if elem stateful node.name then "stateful" else "stateless")
    else modes)

-- `viewer_metadata` of some nodes, once the stateful names are known
unfoldable pub viewer_metadata : List String → List ViewNode → Result ViewerMetadata
unfolding tool_modes compute_scheduled_start_times compute_tool_graph_metrics sorted_set
viewer_metadata stateful nodes =
    let modes = tool_modes stateful nodes [] in
    elim (compute_scheduled_start_times nodes stateful) [
      | none ↦ err exhausted
      | some starts ↦ elim (compute_tool_graph_metrics nodes modes starts) [
        | none ↦ err exhausted
        | some graph ↦ ok (record {
          stateful_tool_names = sorted_set stateful;
          tool_mode_by_id = modes;
          start_time_by_id = starts;
          tool_graph = graph;
        })
      ]
    ]

-- build_enriched_trace_payload, on the payload that the trace file holds
unfoldable pub enrich_payload : Tree → Value → String → String → Result ViewerMetadata
unfolding ◌>>=◌ view_nodes resolve_stateful_tool_names viewer_metadata
enrich_payload t (obj payload) trace_path root = do
  nodes ← view_nodes payload
  stateful ← resolve_stateful_tool_names t payload nodes trace_path root
  viewer_metadata stateful nodes
enrich_payload t v trace_path root = err wrong_type

unfoldable pub build_enriched_trace_payload : Tree → String → String → Result ViewerMetadata
unfolding try_json enrich_payload
build_enriched_trace_payload t trace_path root = elim (try_json t trace_path) [
  | none ↦ err (unreadable_file trace_path)
  | some v ↦ enrich_payload t v trace_path root
]
