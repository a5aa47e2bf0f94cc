-- ===== src/Replay/Calls.antt =====
-- What execute_node of atsuite/invoker.py looks up, sends and observes for one call.
use atsuite.Base.{ℕ, String, Option, none, some, List, [], nat_eq, string_eq, ◌==◌, if◌then◌else◌}
use atsuite.Base.Dict.{Dict, get}
use atsuite.Base.Int.{ℤ}
use atsuite.Base.Json.{Value, null, str, Fields, end}
use atsuite.Base.Text.{◌&◌, show}
use atsuite.Base.Convert.{value_of, or_value, text_of}
use atsuite.Result.{Result, ok, err, ◌>>=◌, missing_id, missing_key}
use atsuite.Trace.{Node, Graph}
use atsuite.Snapshot.{maybe_attach_agentcore_state_snapshot}
use atsuite.Pipeline.Data.{ResolvedTarget, TraceRoute, ResolvedBenchmark}
use atsuite.Analysis.Model.{InvocationObservation}
use atsuite.Analysis.Recorder.{RunRecorder, NodeStart}
use atsuite.Runtime.{RuntimeTarget, RuntimeSession, InvocationRequest, InvocationResult, config_of}

-- What the workers of a run share and never change; `loads` is `json.loads`.
pub record Run : Type 0 where
  pub graph : Graph
  pub resolved : ResolvedBenchmark
  pub uid : String
  pub bundle : Option Fields
  pub targets : Dict String RuntimeTarget
  pub loads : String → Option Value

-- The readings of the clock in the order of the code; `call` is that of the call id, in microseconds.
pub record Times : Type 0 where
  pub started : ℤ
  pub call : ℕ
  pub opened : ℤ
  pub invoked : ℤ
  pub elapsed_ms : ℤ
  pub ended : ℤ

-- `analyzer_call`: nothing without an analyzer
unfoldable pub analyzer_call : (RunRecorder → RunRecorder) → Option RunRecorder → Option RunRecorder
analyzer_call f none = none
analyzer_call f (some r) = some (f r)

-- `resolved.routes[name]` and `resolved.targets[route.target_name]`
unfoldable pub route_at : ResolvedBenchmark → String → Result TraceRoute
unfolding get
route_at b name = elim (get b.routes name) [ none ↦ err (missing_key name) | some r ↦ ok r ]

unfoldable pub target_at : ResolvedBenchmark → String → Result ResolvedTarget
unfolding get
target_at b name = elim (get b.targets name) [ none ↦ err (missing_key name) | some t ↦ ok t ]

-- `graph[current_node_id]`. The code uses the id it was given throughout; the models below read it
-- off the node.
unfoldable pub node_at : Graph → ℕ → Result Node
unfolding get
node_at g n = elim (get g n) [
  | none ↦ err (missing_id n)
  | some node ↦ ok (record node { node_id = n })
]

unfoldable pub runtime_target_at : Dict String RuntimeTarget → String → Result RuntimeTarget
unfolding get
runtime_target_at targets name = elim (get targets name) [
  | none ↦ err (missing_key name)
  | some t ↦ ok t
]

-- The route and the target of a tool node.
unfoldable pub routed : ResolvedBenchmark → Node → Result (TraceRoute × ResolvedTarget)
routed b node = do
  route ← route_at b node.name
  target ← target_at b route.target_name
  ok (route, target)

-- What start_node is told, with and without a target.
unfoldable pub plain_start : Node → NodeStart
plain_start node = record {
  node_id = node.node_id;
  node_name = node.name;
  node_type = node.node_type;
  runtime_name = "";
  target_id = "";
  family = "";
  runtime_config = end;
}

unfoldable pub tool_start : Node → ResolvedTarget → NodeStart
unfolding config_of
tool_start node target = record {
  node_id = node.node_id;
  node_name = node.name;
  node_type = if target.family == "faas" then "function" else "mcp";
  runtime_name = target.name;
  target_id = target.name;
  family = target.family;
  runtime_config = config_of target;
}

-- `params.get("input", "")`
unfoldable pub input_of : Fields → Value
unfolding value_of
input_of params = value_of params "input" (str "")

-- `f"{uid}_{current_node_id}_{int(time.time() * 1e6)}"`
unfoldable pub call_id_of : String → ℕ → ℕ → String
unfolding show
call_id_of uid n micros = uid & "_" & show n & "_" & show micros

-- The observation of a call. A failed one has the session's id and the error.
unfoldable pub observed :
    Node
    → TraceRoute
    → ResolvedTarget
    → String
    → String
    → ℤ
    → String
    → String
    → InvocationResult
    → InvocationObservation
observed node route target uid call_id invoked session_id error result = record {
  node_id = node.node_id;
  node_name = node.name;
  target_id = target.name;
  runtime_name = target.name;
  family = target.family;
  tool_name = route.tool_name;
  call_id = call_id;
  uid = uid;
  status = result.status;
  error = error;
  provider_request_id = result.provider_request_id;
  provider_session_id = session_id;
  client_start_time = invoked;
  client_elapsed_ms = result.client_elapsed_ms;
  provider_metadata = result.provider_metadata;
  evidence_refs = [];
}

-- `str(session_id or session.provider_session_id or "")`
unfoldable pub session_id_of : InvocationResult → RuntimeSession → String
unfolding value_of or_value text_of
session_id_of result session = text_of (
    or_value (value_of result.provider_metadata "session_id" null)
      (str session.provider_session_id))

-- The snapshot that may be attached to the arguments, and the targets seeded from then on.
unfoldable pub attach : Run → ResolvedTarget → Fields → List String → Fields × List String
unfolding maybe_attach_agentcore_state_snapshot
attach run target args seeded =
    maybe_attach_agentcore_state_snapshot args run.resolved.provider.name target.name run.bundle
      seeded

-- The InvocationRequest of a tool call.
unfoldable pub request_of :
    Run → Times → Node → TraceRoute → ResolvedTarget → Fields → RuntimeSession → InvocationRequest
unfolding call_id_of
request_of run t node route target args session = record {
  target_id = target.name;
  tool_name = route.tool_name;
  args = args;
  uid = run.uid;
  call_id = call_id_of run.uid node.node_id t.call;
  session = session;
  timeout = target.runtime.timeout;
}
