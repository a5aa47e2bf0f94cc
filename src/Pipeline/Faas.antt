-- ===== src/Pipeline/Faas.antt =====
-- `_resolve_faas_targets` of atsuite/pipeline.py: the units of a FaaS deployment become targets, and
-- each trace name of a unit is routed to its target.
pub mod Coherent
use atsuite.Base.{
  String, Bool, true, false, not, ◌||◌, Option, none, some, List, [], ◌∷◌, if◌then◌else◌, string_eq,
}
use atsuite.Base.Dict.{Dict, get, put, has}
use atsuite.Base.Json.{Value, null, arr, nil, obj, Fields}
use atsuite.Base.Text.{◌&◌, is_empty, strip}
use atsuite.Base.Convert.{value_of, or_value, text_of, stripped_field}
use atsuite.Base.Sets.{elem}
use atsuite.Result.{Result, ok, err, ◌>>=◌, ◌>>◌, exit_with, exit_if}
use atsuite.Pipeline.Data.{
  BuildConfig, RuntimeConfig, NodeDefinition, tool_name_for_trace, access_for_trace, ResolvedTarget,
  TraceRoute, CliOverrides,
}
use atsuite.Pipeline.Configs.{
  default_build, default_runtime, read_build, read_runtime, cli_build, cli_runtime, list_of,
}
use atsuite.Pipeline.Nodes.{full_list, none_named}

-- `targets` and `routes`
pub record Routing : Type 0 where
  pub targets : Dict String ResolvedTarget
  pub routes : Dict String TraceRoute

abbrev pub no_routing : Routing
no_routing = record { targets = []; routes = [] }

-- `tuple(str(item).strip() for item in values if str(item).strip())`
unfoldable pub stripped_texts : List Value → List String
unfolding text_of strip
stripped_texts [] = []
stripped_texts (v ∷ vs) =
    let text = strip (text_of v) in
    let rest = stripped_texts vs in if is_empty text then rest else text ∷ rest

-- `d.get(k) or []` as the names in it
unfoldable pub names_field : Fields → String → Result (List String)
unfolding stripped_texts list_of or_value value_of
names_field d k = do vs ← list_of (or_value (value_of d k null) (arr nil)); ok (stripped_texts vs)

-- `v if v is not None else default`
abbrev pub unless_null : Value → Value → Value
unless_null null default = default
unless_null v default = v

abbrev pub is_null : Value → Bool
is_null null = true
is_null v = false

-- `_read_build(payload) if payload is not None else BuildConfig()`
unfoldable pub family_build_of : Value → Result BuildConfig
unfolding read_build
family_build_of null = ok default_build
family_build_of v = read_build v default_build

-- The checks of a unit's trace names.
unfoldable pub check_unit :
    String
    → String
    → String
    → NodeDefinition
    → Dict String TraceRoute
    → List String
    → Result (Unit {0})
check_unit file target_name node_name node routes [] = ok tt
check_unit file target_name node_name node routes (t ∷ names) = do
  exit_if (not (elem node.trace_names t)) (
      "FaaS unit '" & target_name & "' references trace '" & t & "' outside node '" & node_name
      & "'")
  exit_if (has routes t) ("Trace '" & t & "' is routed by multiple FaaS units in " & file)
  check_unit file target_name node_name node routes names

-- `explicit_build_payload` where it is given
unfoldable pub explicit_build : CliOverrides → BuildConfig → Value → Result BuildConfig
unfolding read_build cli_build
explicit_build cli fallback null = ok (cli_build cli fallback)
explicit_build cli fallback v = read_build v fallback >>= λ b. ok (cli_build cli b)

-- The build of a unit.
unfoldable pub unit_build : CliOverrides → NodeDefinition → Value → Result BuildConfig
unit_build cli node payload = do
  let fallback = if is_empty node.build.python_version then node.function_build else node.build
  build ← explicit_build cli fallback payload
  ok (
      if is_empty build.python_version
      then cli_build cli (record { python_version = "3.10" })
      else build)

-- `tuple(node.tool_name_for_trace(name) for name in names)`
unfoldable pub tool_names : NodeDefinition → List String → Result (List String)
tool_names node [] = ok []
tool_names node (t ∷ names) = do
  tool ← tool_name_for_trace node t
  tools ← tool_names node names
  ok (tool ∷ tools)

-- The route of one trace name.
unfoldable pub route_of : String → String → String → NodeDefinition → String → Result TraceRoute
route_of family target_name node_name node t = do
  tool ← tool_name_for_trace node t
  let access_info = access_for_trace node t
  ok (record {
    trace_name = t;
    node_name = node_name;
    target_name = target_name;
    family = family;
    tool_name = tool;
    domain = access_info.domain;
    access = access_info.access;
  })

-- `routes[trace_name] = TraceRoute(…)` for each name of a unit
unfoldable pub route_unit :
    String
    → String
    → NodeDefinition
    → List String
    → Dict String TraceRoute
    → Result (Dict String TraceRoute)
route_unit target_name node_name node [] routes = ok routes
route_unit target_name node_name node (t ∷ names) routes = do
  route ← route_of "faas" target_name node_name node t
  route_unit target_name node_name node names (put routes t route)

-- A unit whose names, node and trace names are known.
unfoldable pub place_unit :
    String
    → CliOverrides
    → Value
    → Fields
    → String
    → String
    → NodeDefinition
    → List String
    → Routing
    → Result Routing
place_unit file cli family_build raw target_name node_name node trace_names r = do
  check_unit file target_name node_name node r.routes trace_names
  build ← unit_build cli node (unless_null (value_of raw "build" null) family_build)
  let deploy = value_of raw "deploy" null
  exit_if (is_null deploy) ("FaaS unit '" & target_name & "' must define deploy config in " & file)
  runtime ← read_runtime deploy default_runtime
  tools ← tool_names node trace_names
  let target : ResolvedTarget = record {
    name = target_name;
    family = "faas";
    node_names = node_name ∷ [];
    trace_names = trace_names;
    build = build;
    runtime = cli_runtime cli runtime;
    allowed_tools = tools;
  }
  routes ← route_unit target_name node_name node trace_names r.routes
  ok (record { targets = put r.targets target_name target; routes = routes })

-- One entry of `units`.
unfoldable pub resolve_unit :
    String → Dict String NodeDefinition → CliOverrides → Value → Value → Routing → Result Routing
resolve_unit file nodes cli family_build (obj raw) r = do
  let target_name = stripped_field raw "name"
  let node_name = stripped_field raw "node"
  trace_names ← names_field raw "trace_names"
  exit_if (is_empty target_name || is_empty node_name || none_named trace_names)
      ("Invalid FaaS unit in " & file & ": " & text_of (obj raw))
  exit_if (has r.targets target_name) ("Duplicate FaaS target '" & target_name & "' in " & file)
  elim (get nodes node_name) [
    | none ↦ err (exit_with ("Unknown node '" & node_name & "' in FaaS unit '" & target_name & "'"))
    | some node ↦ place_unit file cli family_build raw target_name node_name node trace_names r
  ]
resolve_unit file nodes cli family_build v r =
    err (exit_with ("Invalid FaaS unit in " & file & ": " & text_of v))

unfoldable pub resolve_units :
    String
    → Dict String NodeDefinition
    → CliOverrides
    → Value
    → List Value
    → Routing
    → Result Routing
resolve_units file nodes cli family_build [] r = ok r
resolve_units file nodes cli family_build (v ∷ vs) r =
    resolve_unit file nodes cli family_build v r >>= resolve_units file nodes cli family_build vs

-- _resolve_faas_targets
unfoldable pub resolve_faas_targets :
    String → Dict String NodeDefinition → Value → CliOverrides → Result Routing
resolve_faas_targets file nodes (obj payload) cli = do
  let family_payload = value_of payload "build" null
  family_build_of family_payload
  units ←
      full_list (value_of payload "units" null)
        ("pipeline.faas.units must be a non-empty list in " & file)
  resolve_units file nodes cli family_payload units no_routing
resolve_faas_targets file nodes v cli =
    err (exit_with ("Config " & file & " does not define pipeline.faas"))
