-- ===== src/Pipeline/Session.antt =====
-- `_resolve_mcp_targets` of atsuite/pipeline.py: the servers of a session deployment become targets,
-- and each trace name of a server's nodes is routed to its target.
pub mod Routes
pub mod Coherent
use atsuite.Base.{
  String, Bool, true, false, not, ◌&&◌, ◌||◌, Option, none, some, List, [], ◌∷◌, ◌++◌, ◌==◌,
  if◌then◌else◌, string_eq, ltb, length,
}
use atsuite.Base.Dict.{Dict, get, put, has}
use atsuite.Base.Json.{Value, null, obj, Fields}
use atsuite.Base.Text.{◌&◌, is_empty}
use atsuite.Base.Convert.{value_of, text_of, stripped_field}
use atsuite.Base.Sets.{add}
use atsuite.Result.{Result, ok, err, ◌>>=◌, ◌>>◌, exit_with, exit_if, missing_key}
use atsuite.Pipeline.Data.{BuildConfig, NodeDefinition, ResolvedTarget, TraceRoute, CliOverrides}
use atsuite.Pipeline.Configs.{default_runtime, read_build, read_runtime, cli_build, cli_runtime}
use atsuite.Pipeline.Nodes.{full_list, none_named}
use atsuite.Pipeline.Faas.{names_field, unless_null, is_null, family_build_of, route_of, Routing}

-- `targets`, `routes` and `claimed_nodes`
pub record Servers : Type 0 where
  pub targets : Dict String ResolvedTarget
  pub routes : Dict String TraceRoute
  pub claimed_nodes : Dict String String

abbrev pub no_servers : Servers
no_servers = record { targets = []; routes = []; claimed_nodes = [] }

-- What the loop over a server's nodes gathers.
pub record Claims : Type 0 where
  pub claimed_nodes : Dict String String
  pub trace_names : List String
  pub build_candidates : List BuildConfig

-- One node of a server.
unfoldable pub claim_node : String → String → NodeDefinition → Claims → Result Claims
claim_node target_name node_name node c = do
  let owner : String = elim (get c.claimed_nodes node_name) [ none ↦ "" | some o ↦ o ]
  exit_if (not (is_empty owner) && not (owner == target_name)) (
      "Node '" & node_name & "' is assigned to both MCP servers '" & owner & "' and '" & target_name
      & "'")
  let build = if is_empty node.build.python_version then node.mcp_build else node.build
  ok (record {
    claimed_nodes = put c.claimed_nodes node_name target_name;
    trace_names = c.trace_names ++ node.trace_names;
    build_candidates = c.build_candidates ++ build ∷ [];
  })

unfoldable pub claim_nodes :
    Dict String NodeDefinition → String → List String → Claims → Result Claims
claim_nodes nodes target_name [] c = ok c
claim_nodes nodes target_name (n ∷ names) c = elim (get nodes n) [
  | none ↦ err (exit_with ("Unknown node '" & n & "' in MCP server '" & target_name & "'"))
  | some node ↦ claim_node target_name n node c >>= claim_nodes nodes target_name names
]

-- `{c.python_version for c in build_candidates if c.python_version}`
unfoldable pub python_versions : List BuildConfig → List String
unfolding add
python_versions [] = []
python_versions (c ∷ cs) =
    let rest = python_versions cs in
    if is_empty c.python_version then rest else add rest c.python_version

-- The one version of the candidates.
unfoldable pub common_build : CliOverrides → String → List String → Result BuildConfig
unfolding cli_build
common_build cli target_name [] = ok (cli_build cli (record { python_version = "3.10" }))
common_build cli target_name (v ∷ []) = ok (cli_build cli (record { python_version = v }))
common_build cli target_name (v ∷ w ∷ versions) = err (
    exit_with (
      "MCP server '" & target_name
      & "' combines nodes with different python versions and needs pipeline.build"))

-- The build of a server.
unfoldable pub server_build :
    CliOverrides → String → BuildConfig → List BuildConfig → Value → Result BuildConfig
unfolding common_build python_versions read_build cli_build
server_build cli target_name family_build candidates null =
    common_build cli target_name (python_versions candidates)
server_build cli target_name family_build candidates v =
    read_build v family_build >>= λ b. ok (cli_build cli b)

-- The routes of one node's trace names.
unfoldable pub route_names :
    String
    → String
    → String
    → NodeDefinition
    → List String
    → Dict String TraceRoute
    → Result (Dict String TraceRoute)
route_names file target_name node_name node [] routes = ok routes
route_names file target_name node_name node (t ∷ names) routes = do
  exit_if (has routes t) ("Trace '" & t & "' is routed by multiple MCP servers in " & file)
  route ← route_of "session" target_name node_name node t
  route_names file target_name node_name node names (put routes t route)

-- The routes of a server's nodes.
unfoldable pub route_server :
    String
    → Dict String NodeDefinition
    → String
    → List String
    → Dict String TraceRoute
    → Result (Dict String TraceRoute)
route_server file nodes target_name [] routes = ok routes
route_server file nodes target_name (n ∷ names) routes = elim (get nodes n) [
  | none ↦ err (missing_key n)
  | some node ↦
      route_names file target_name n node node.trace_names routes
      >>= route_server file nodes target_name names
]

-- A server whose name and nodes are known.
unfoldable pub place_server :
    String
    → Dict String NodeDefinition
    → CliOverrides
    → Value
    → BuildConfig
    → Fields
    → String
    → List String
    → Servers
    → Result Servers
place_server file nodes cli family_payload family_build raw target_name node_names s = do
  c ←
      claim_nodes nodes target_name node_names
        (record { claimed_nodes = s.claimed_nodes; trace_names = []; build_candidates = [] })
  build ←
      server_build cli target_name family_build c.build_candidates
        (unless_null (value_of raw "build" null) family_payload)
  let deploy = value_of raw "deploy" null
  exit_if (is_null deploy) ("MCP server '" & target_name & "' must define deploy config in " & file)
  runtime ← read_runtime deploy default_runtime
  let target : ResolvedTarget = record {
    name = target_name;
    family = "session";
    node_names = node_names;
    trace_names = c.trace_names;
    build = build;
    runtime = cli_runtime cli runtime;
    allowed_tools = [];
  }
  routes ← route_server file nodes target_name node_names s.routes
  ok (record {
    targets = put s.targets target_name target;
    routes = routes;
    claimed_nodes = c.claimed_nodes;
  })

-- One entry of `servers`.
unfoldable pub resolve_server :
    String
    → Dict String NodeDefinition
    → CliOverrides
    → Value
    → BuildConfig
    → Value
    → Servers
    → Result Servers
resolve_server file nodes cli family_payload family_build (obj raw) s = do
  let target_name = stripped_field raw "name"
  node_names ← names_field raw "nodes"
  exit_if (is_empty target_name || none_named node_names)
      ("Invalid MCP server in " & file & ": " & text_of (obj raw))
  exit_if (has s.targets target_name) ("Duplicate MCP server '" & target_name & "' in " & file)
  place_server file nodes cli family_payload family_build raw target_name node_names s
resolve_server file nodes cli family_payload family_build v s =
    err (exit_with ("Invalid MCP server in " & file & ": " & text_of v))

unfoldable pub resolve_servers :
    String
    → Dict String NodeDefinition
    → CliOverrides
    → Value
    → BuildConfig
    → List Value
    → Servers
    → Result Servers
resolve_servers file nodes cli family_payload family_build [] s = ok s
resolve_servers file nodes cli family_payload family_build (v ∷ vs) s =
    resolve_server file nodes cli family_payload family_build v s
    >>= resolve_servers file nodes cli family_payload family_build vs

-- _resolve_mcp_targets
unfoldable pub resolve_mcp_targets :
    String → Dict String NodeDefinition → Value → CliOverrides → Result Routing
resolve_mcp_targets file nodes (obj payload) cli = do
  let family_payload = value_of payload "build" null
  family_build ← family_build_of family_payload
  servers ←
      full_list (value_of payload "servers" null)
        ("pipeline.session.servers must be a non-empty list in " & file)
  s ← resolve_servers file nodes cli family_payload family_build servers no_servers
  ok (record { targets = s.targets; routes = s.routes })
resolve_mcp_targets file nodes v cli =
    err (
      exit_with ("Config " & file & " does not define pipeline.session or pipeline.mcp_serverless"))
