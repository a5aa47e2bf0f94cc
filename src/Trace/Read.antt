-- ===== src/Trace/Read.antt =====
-- Reading a trace from JSON: the `from_dict` methods of atsuite_sdk/workflow.py. Times are millionths
-- of a millisecond. A node id below zero is refused, since ids are natural numbers here.
use atsuite.Base.{ℕ, String, none, some, List, [], ◌∷◌}
use atsuite.Base.Int.{ℤ, pos, negsuc}
use atsuite.Base.Json.{Value, null, int, float, arr, nil, obj, end, Fields}
use atsuite.Base.Convert.{value_of, or_value, text_field, int_of, float_of, iterate}
use atsuite.Result.{Result, ok, err, ◌>>=◌, not_a_number, wrong_type, negative_id}
use atsuite.Trace.{Edge, Node, Trace}

-- `int(d.get("id", 0))`
unfoldable pub id_field : Fields → Result ℕ
unfolding int_of value_of
id_field d = elim (int_of (value_of d "id" (int (pos 0)))) [
  | none ↦ err not_a_number
  | some z ↦ elim z [ pos n ↦ ok n | negsuc n ↦ err negative_id ]
]

-- `float(d.get(k, 0.0))`
unfoldable pub float_field : Fields → String → Result ℤ
unfolding float_of value_of
float_field d k = elim (float_of (value_of d k (float (pos 0)))) [
  | none ↦ err not_a_number
  | some z ↦ ok z
]

-- `d.get("params") or {}`, of which the code asks for keys only
unfoldable pub params_field : Fields → Result Fields
unfolding value_of or_value
params_field d = elim (or_value (value_of d "params" null) (obj end)) [
  | obj fs ↦ ok fs
  | _ ↦ err wrong_type
]

-- `for x in d.get(k, [])`
unfoldable pub loop_field : Fields → String → Result (List Value)
unfolding value_of iterate
loop_field d k = elim (iterate (value_of d k (arr nil))) [ none ↦ err wrong_type | some vs ↦ ok vs ]

-- Edge.from_dict
unfoldable pub edge_from_dict : Value → Result Edge
unfolding id_field params_field float_field
edge_from_dict (obj d) = do
  target_id ← id_field d
  params ← params_field d
  interval_ms ← float_field d "interval"
  ok (record { target_id = target_id; params = params; interval_ms = interval_ms })
edge_from_dict v = err wrong_type

unfoldable pub edges_from : List Value → Result (List Edge)
unfolding edge_from_dict
edges_from [] = ok []
edges_from (v ∷ vs) = do e ← edge_from_dict v; edges ← edges_from vs; ok (e ∷ edges)

-- Node.from_dict
unfoldable pub node_from_dict : Value → Result Node
unfolding loop_field edges_from id_field text_field float_field value_of
node_from_dict (obj d) = do
  values ← loop_field d "edge_to"
  edges ← edges_from values
  node_id ← id_field d
  time_ms ← float_field d "time"
  ok (record {
    node_id = node_id;
    name = text_field d "name" "";
    node_type = text_field d "type" "";
    edge_to = edges;
    time_ms = time_ms;
    output = value_of d "output" null;
  })
node_from_dict v = err wrong_type

unfoldable pub nodes_from : List Value → Result (List Node)
unfolding node_from_dict
nodes_from [] = ok []
nodes_from (v ∷ vs) = do n ← node_from_dict v; nodes ← nodes_from vs; ok (n ∷ nodes)

-- Trace.from_dict
unfoldable pub trace_from_dict : Value → Result Trace
unfolding loop_field nodes_from text_field
trace_from_dict (obj d) = do
  values ← loop_field d "nodes"
  nodes ← nodes_from values
  ok (record {
    name = text_field d "name" "";
    description = text_field d "discription" "";
    deploy_config = text_field d "deploy_config" "";
    nodes = nodes;
  })
trace_from_dict v = err wrong_type
