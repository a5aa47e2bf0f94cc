-- ===== src/Pipeline/Resolve.antt =====
-- `resolve_benchmark` of atsuite/pipeline.py.
pub mod Routed
use atsuite.Base.{
  String, Bool, true, false, not, ◌&&◌, Option, none, some, List, [], ◌∷◌, ◌==◌, if◌then◌else◌,
  string_eq,
}
use atsuite.Base.Dict.{Dict, get, put, has}
use atsuite.Base.Json.{Value, null, str, arr, nil, obj, Fields}
use atsuite.Base.Text.{◌&◌, is_empty, strip}
use atsuite.Base.Convert.{value_of, or_value, truthy, text_of, text_field, stripped_field, elements}
use atsuite.Base.Sets.{elem, add}
use atsuite.Result.{
  Error, Result, ok, err, ◌>>=◌, ◌>>◌, exit_with, exit_if, unreadable_file, legacy_node_types,
  names_missing, names_not_routed,
}
use atsuite.Trace.{Node, Trace}
use atsuite.Trace.Read.{trace_from_dict}
use atsuite.Pipeline.Data.{NodeDefinition, ProviderSpec, ResolvedBenchmark, CliOverrides}
use atsuite.Pipeline.Configs.{list_of}
use atsuite.Pipeline.Providers.{get_provider_spec}
use atsuite.Pipeline.Files.{
  FileSystem, json, load_object, resolve_benchmark_root, resolve_trace_path,
}
use atsuite.Pipeline.Nodes.{Nodes, full_list, resolve_nodes}
use atsuite.Pipeline.Tools.{nodes_from_tools}
use atsuite.Pipeline.Faas.{Routing, unless_null, resolve_faas_targets}
use atsuite.Pipeline.Session.{resolve_mcp_targets}

-- Trace.from_file
unfoldable pub trace_from_file : FileSystem → String → Result Trace
unfolding trace_from_dict
trace_from_file fs path = elim (fs.content path) [
  | json v ↦ trace_from_dict v
  | _ ↦ err (unreadable_file path)
]

has_sandbox : List Value → Bool
unfolding stripped_field
has_sandbox [] = false
has_sandbox (obj node ∷ vs) =
    let rest = has_sandbox vs in if stripped_field node "type" == "sandbox" then true else rest
has_sandbox (v ∷ vs) = has_sandbox vs

-- is_sandbox_config
unfoldable pub is_sandbox_config : FileSystem → String → Result Bool
unfolding load_object value_of or_value list_of has_sandbox
is_sandbox_config fs config_path = do
  config ← load_object fs config_path
  nodes ← list_of (or_value (value_of config "nodes" null) (arr nil))
  ok (has_sandbox nodes)

-- TRACE_TOOL_TYPES and LEGACY_TRACE_TOOL_TYPES
abbrev pub trace_tool_types : List String
trace_tool_types = "tool_use" ∷ []

abbrev pub legacy_trace_tool_types : List String
legacy_trace_tool_types = "tool" ∷ "mcp" ∷ "function" ∷ "sandbox" ∷ []

-- tool_trace_names
unfoldable pub tool_trace_names : List Node → List String
unfolding elem
tool_trace_names [] = []
tool_trace_names (n ∷ nodes) =
    let rest = tool_trace_names nodes in
    if elem trace_tool_types n.node_type then n.name ∷ rest else rest

-- The legacy node types of a trace, each once.
unfoldable pub legacy_types : List Node → List String
unfolding elem add
legacy_types [] = []
legacy_types (n ∷ nodes) =
    let rest = legacy_types nodes in
    if elem legacy_trace_tool_types n.node_type then add rest n.node_type else rest

-- `{name for name in names if name not in d}`
unfoldable pub names_outside : {V : Type 0} → Dict String V → List String → List String
unfolding get add
names_outside d [] = []
names_outside d (name ∷ names) =
    let rest = names_outside d names in if has d name then rest else add rest name

-- `if names: raise error(names)`
unfoldable pub raise_unless_nil : List String → (List String → Error) → Result (Unit {0})
raise_unless_nil [] error = ok tt
raise_unless_nil (name ∷ names) error = err (error (name ∷ names))

-- `overrides.trace_file or config.get("trace_file", "")`, as stripped text
unfoldable pub trace_file_of : CliOverrides → Fields → String
unfolding stripped_field strip
trace_file_of overrides config = elim (overrides.trace_file) [
  | none ↦ stripped_field config "trace_file"
  | some path ↦ if is_empty path then stripped_field config "trace_file" else strip path
]

abbrev pub no_values : List Value → Bool
no_values [] = true
no_values (v ∷ vs) = false

-- `pipeline.get("session")`, or `pipeline.get("mcp_serverless")` where that is None
abbrev pub session_payload : Fields → Value
session_payload pipeline =
    unless_null (value_of pipeline "session" null) (value_of pipeline "mcp_serverless" null)

-- `pipeline`
unfoldable pub pipeline_of : String → Fields → Result Fields
pipeline_of file config =
    elim (or_value (value_of config "pipeline" null) (value_of config "realizations" null)) [
      | obj pipeline ↦ ok pipeline
      | _ ↦ err (exit_with ("Missing pipeline block in " & file))
    ]

-- `raw_nodes`
unfoldable pub raw_nodes_of : FileSystem → String → Fields → Result (List Value)
raw_nodes_of fs file config =
    let from_tools = nodes_from_tools fs file (value_of config "tools" null) in
    let missing = "Missing nodes in " & file in
    if not (truthy (value_of config "nodes" null)) && truthy (value_of config "tools" null)
    then (do nodes ← from_tools; exit_if (no_values nodes) missing; ok nodes)
    else full_list (value_of config "nodes" null) missing

-- The targets and routes of the provider's family.
unfoldable pub resolve_targets :
    ProviderSpec → String → Dict String NodeDefinition → Fields → CliOverrides → Result Routing
resolve_targets spec file nodes pipeline cli =
    if spec.family == "faas"
    then resolve_faas_targets file nodes (value_of pipeline "faas" null) cli
    else resolve_mcp_targets file nodes (session_payload pipeline) cli

-- The checks of the trace against the nodes.
unfoldable pub check_trace : String → String → Trace → Dict String String → Result (Unit {0})
check_trace file trace_path trace trace_owner = do
  raise_unless_nil (legacy_types trace.nodes) (λ types. legacy_node_types types trace_path)
  raise_unless_nil (names_outside trace_owner (tool_trace_names trace.nodes))
      (λ names. names_missing names file)

-- resolve_benchmark
unfoldable pub resolve_benchmark :
    FileSystem → String → String → CliOverrides → Result ResolvedBenchmark
resolve_benchmark fs config_path provider overrides = do
  let file = fs.resolve config_path
  spec ← get_provider_spec provider
  config ← load_object fs file
  let bench_root = resolve_benchmark_root fs file
  let trace_file = trace_file_of overrides config
  exit_if (is_empty trace_file) ("Missing trace_file in " & file)
  trace_path ← resolve_trace_path fs bench_root trace_file
  trace ← trace_from_file fs trace_path
  sandbox ← is_sandbox_config fs file
  exit_if sandbox
      "Sandbox configs are no longer supported; use an external MCP-Gateway target instead"
  raw_nodes ← raw_nodes_of fs file config
  nodes ←
      resolve_nodes fs file bench_root raw_nodes (record { resolved_nodes = []; trace_owner = [] })
  check_trace file trace_path trace nodes.trace_owner
  pipeline ← pipeline_of file config
  r ← resolve_targets spec file nodes.resolved_nodes pipeline overrides
  raise_unless_nil (names_outside r.routes (tool_trace_names trace.nodes))
      (λ names. names_not_routed names provider file)
  ok (record {
    config_path = file;
    bench_root = bench_root;
    bench_name = fs.name bench_root;
    trace_path = trace_path;
    trace = trace;
    provider = spec;
    nodes = nodes.resolved_nodes;
    targets = r.targets;
    routes = r.routes;
  })
