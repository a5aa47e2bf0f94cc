-- ===== src/Viewer.antt =====
-- The nodes of a trace as atsuite/cli/trace_viewer_metadata.py reads them. Display times are fifths of
-- a millionth of a millisecond, so that the division of a model call's time is exact; an id or a time
-- below zero is refused, and an edge with no id, which leads to no node, is left out.
pub mod Schedule
pub mod Display
pub mod Levels
pub mod Config
pub mod Candidates
pub mod Enrich
use atsuite.Base.{
  ℕ, ◌*◌, String, Bool, Option, none, some, List, [], ◌∷◌, string_eq, nat_eq, ◌==◌, if◌then◌else◌,
}
use atsuite.Base.Dict.{Dict, put}
use atsuite.Base.Int.{ℤ, pos, negsuc}
use atsuite.Base.Json.{Value, int, float, arr, nil, obj, Fields, find}
use atsuite.Base.Text.{fold_case}
use atsuite.Base.Convert.{value_of, or_value, text_field, int_of, float_of, iterate}
use atsuite.Base.Sets.{elem}
use atsuite.Result.{
  Result, ok, err, ◌>>=◌, missing_key, not_a_number, wrong_type, negative_id, negative_time,
}

-- What the module reads of a node's dict: `id`, `type`, `name`, `time` and the ids of `edge_to`.
pub record ViewNode : Type 0 where
  pub node_id : ℕ
  pub kind : String
  pub name : String
  pub time : ℕ
  pub targets : List ℕ

abbrev pub ViewGraph : Type 0
ViewGraph = Dict ℕ ViewNode

-- TOOL_NODE_TYPES
abbrev pub tool_node_types : List String
tool_node_types = "tool" ∷ "tool_use" ∷ []

-- _is_tool_node
unfoldable pub is_tool_node : ViewNode → Bool
unfolding elem fold_case
is_tool_node node = elem tool_node_types (fold_case node.kind)

-- LLM_DISPLAY_SCALE_DIVISOR
abbrev llm_display_scale_divisor : ℕ
llm_display_scale_divisor = 5

-- _display_duration_ms
unfoldable pub display_duration : ViewNode → ℕ
unfolding fold_case
display_duration node =
    if fold_case node.kind == "llm" then node.time else node.time * llm_display_scale_divisor

-- `int(node["id"])`
unfoldable pub required_id : Fields → Result ℕ
unfolding find int_of
required_id d = elim (find d "id") [
  | none ↦ err (missing_key "id")
  | some v ↦ elim (int_of v) [
    | none ↦ err not_a_number
    | some z ↦ elim z [ pos n ↦ ok n | negsuc n ↦ err negative_id ]
  ]
]

-- `float(node.get("time", 0.0) or 0.0)`
unfoldable pub time_of : Fields → Result ℕ
unfolding value_of or_value float_of
time_of d = elim (float_of (or_value (value_of d "time" (float (pos 0))) (float (pos 0)))) [
  | none ↦ err not_a_number
  | some z ↦ elim z [ pos n ↦ ok n | negsuc n ↦ err negative_time ]
]

-- `int(edge.get("id", -1))`
unfoldable pub edge_target : Value → Result (Option ℕ)
unfolding value_of int_of
edge_target (obj d) = elim (int_of (value_of d "id" (int (negsuc 0)))) [
  | none ↦ err not_a_number
  | some z ↦ elim z [ pos n ↦ ok (some n) | negsuc n ↦ ok none ]
]
edge_target v = err wrong_type

unfoldable pub edge_targets : List Value → Result (List ℕ)
unfolding ◌>>=◌ edge_target
edge_targets [] = ok []
edge_targets (v ∷ vs) = do
  target ← edge_target v
  rest ← edge_targets vs
  ok (elim target [ none ↦ rest | some n ↦ n ∷ rest ])

-- `node.get("edge_to", [])`
unfoldable pub edges_of : Fields → Result (List Value)
unfolding value_of iterate
edges_of d = elim (iterate (value_of d "edge_to" (arr nil))) [
  | none ↦ err wrong_type
  | some vs ↦ ok vs
]

unfoldable pub view_node : Value → Result ViewNode
unfolding ◌>>=◌ required_id text_field time_of edges_of edge_targets
view_node (obj d) = do
  node_id ← required_id d
  time ← time_of d
  values ← edges_of d
  targets ← edge_targets values
  ok (record {
    node_id = node_id;
    kind = text_field d "type" "";
    name = text_field d "name" "";
    time = time;
    targets = targets;
  })
view_node v = err wrong_type

unfoldable pub view_nodes_from : List Value → Result (List ViewNode)
unfolding ◌>>=◌ view_node
view_nodes_from [] = ok []
view_nodes_from (v ∷ vs) = do node ← view_node v; nodes ← view_nodes_from vs; ok (node ∷ nodes)

-- `trace_payload.get("nodes", [])`
unfoldable pub view_nodes : Fields → Result (List ViewNode)
unfolding value_of iterate view_nodes_from
view_nodes payload = elim (iterate (value_of payload "nodes" (arr nil))) [
  | none ↦ err wrong_type
  | some vs ↦ view_nodes_from vs
]

unfoldable pub view_index_onto : ViewGraph → List ViewNode → ViewGraph
unfolding put
view_index_onto g [] = g
view_index_onto g (node ∷ nodes) = view_index_onto (put g node.node_id node) nodes

-- _build_node_by_id
unfoldable pub build_node_by_id : List ViewNode → ViewGraph
unfolding view_index_onto
build_node_by_id nodes = view_index_onto [] nodes
