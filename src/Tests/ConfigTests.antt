-- ===== src/Tests/ConfigTests.antt =====
-- Benchmarks of atsuite/pipeline.py resolved from small configurations.
use atsuite.Base.{
  List, ℕ, arith, true, false, none, [], ◌∷◌, ◌≡◌, refl, nat_eq, string_eq, ◌==◌, if◌then◌else◌,
  All,
}
use atsuite.Base.Int.{pos}
use atsuite.Pipeline.Data.{
  NodeDefinition, ResolvedBenchmark, CliOverrides, tool_name_for_trace, access_for_trace,
}
use atsuite.Pipeline.Configs.{
  default_build, default_runtime, int_field, fields_of, read_runtime, read_build, cli_build,
  cli_runtime, function_default, list_of, load_function_defaults, load_mcp_defaults,
}
use atsuite.Pipeline.Providers.{get_provider_spec}
use atsuite.Pipeline.Files.{
  json, FileSystem, load_json, load_object, resolve_benchmark_root, resolve_trace_path,
}
use atsuite.Pipeline.Nodes.{
  normalize_tool_name, access_or, bound_access, bind_trace, bind_traces, claim_traces, full_list,
  optional_file, node_dir_of, define_node, resolve_node, resolve_nodes,
}
use atsuite.Pipeline.Tools.{
  either_field, items, trace_entry, node_name_of, group_tool, group_tools, group_value,
  nodes_from_tools,
}
use atsuite.Pipeline.Faas.{
  Routing, stripped_texts, names_field, family_build_of, check_unit, explicit_build, unit_build,
  tool_names, route_of, route_unit, place_unit, resolve_unit, resolve_units, resolve_faas_targets,
}
use atsuite.Pipeline.Session.{
  claim_node, claim_nodes, python_versions, common_build, server_build, route_names, route_server,
  place_server, resolve_server, resolve_servers, resolve_mcp_targets,
}
use atsuite.Pipeline.Resolve.{
  trace_from_file, is_sandbox_config, tool_trace_names, legacy_types, names_outside,
  raise_unless_nil, trace_file_of, pipeline_of, raw_nodes_of, resolve_targets, check_trace,
  resolve_benchmark,
}
use atsuite.Trace.Read.{
  id_field, float_field, params_field, loop_field, edge_from_dict, edges_from, node_from_dict,
  nodes_from, trace_from_dict,
}
use atsuite.Base.Convert.{
  minus, value_of, truthy, or_value, text_of, text_field, stripped_field, int_of, elements, iterate,
}
use atsuite.Base.Json.{Value, null, int, str, arr, obj, nil, cons, end, field, find}
use atsuite.Base.Text.{strip, lower, fold_case, starts_with, drop, before, replace, show}
use atsuite.Base.Dict.{get, put}
use atsuite.Base.Sets.{elem, add}
use atsuite.Scheduler.{from_values}
use atsuite.Result.{ok, ◌>>=◌, ◌>>◌, exit_if}
use atsuite.Trace.{node_by_id}
use atsuite.Pipeline.Nodes.Valid.{AllValid}
use atsuite.Pipeline.Routing.{IsCoherent}
use atsuite.Pipeline.Session.Coherent.{resolve_mcp_targets-IsCoherent}
use atsuite.Pipeline.Faas.Coherent.{resolve_faas_targets-IsCoherent}
use atsuite.Pipeline.Resolve.Routed.{routing_of, resolve_benchmark-IsCoherent}
use atsuite.Replay.Setup.Total.{HasRoute}
use atsuite.Replay.Loop.{State}
use atsuite.Replay.Loop.Termination.{IsWait}
use atsuite.Replay.Run.Complete.{RanAll}
use atsuite.Replay.Benchmark.{replay_benchmark, replay_benchmark-RanAll}

-- A configuration with one node of one tool, in one FaaS unit.
abbrev binding : Value
binding =
    obj (field "name" (str "fs.write") (field "domain" (str "disk") (field "access" (str "W") end)))

abbrev unit_value : Value
unit_value = obj (
    field "name" (str "unit") (
      field "node" (str "files") (
        field "trace_names" (arr (cons (str "fs.write") nil))
          (field "deploy" (obj (field "cpu" (int (pos 2)) end)) end))))

abbrev node_value : Value
node_value = obj (field "name" (str "files") (field "trace_names" (arr (cons binding nil)) end))

abbrev faas_payload : Value
faas_payload = obj (field "units" (arr (cons unit_value nil)) end)

abbrev config : Value
config = obj (
    field "trace_file" (str "./t.json") (
      field "nodes" (arr (cons node_value nil))
        (field "pipeline" (obj (field "faas" faas_payload end)) end)))

abbrev start_value : Value
start_value = obj (
    field "id" (int (pos 0)) (
      field "name" (str "start") (
        field "type" (str "logic")
          (field "edge_to" (arr (cons (obj (field "id" (int (pos 1)) end)) nil)) end))))

abbrev call_value : Value
call_value =
    obj
      (field "id" (int (pos 1)) (field "name" (str "fs.write") (field "type" (str "tool_use") end)))

abbrev trace_value : Value
trace_value =
    obj (field "name" (str "t") (field "nodes" (arr (cons start_value (cons call_value nil))) end))

abbrev disk : FileSystem
disk = record {
  content = λ path. if path == "c" then json config else json trace_value;
  exists = λ path. path == "d";
  join = λ root path. if path == "t.json" then path else if path == "files" then "d" else "e";
  resolve = λ path. path;
  is_absolute = λ path. false;
  parent = λ path. "r";
  name = λ path. "bench";
}

abbrev no_overrides : CliOverrides
no_overrides = record {
  trace_file = none;
  python_version = none;
  cpu = none;
  memory = none;
  disk = none;
  timeout = none;
}

abbrev files_node : NodeDefinition
files_node = record {
  name = "files";
  dir = "d";
  trace_names = "fs.write" ∷ [];
  trace_to_tool = ("fs.write", "fs_write") ∷ [];
  trace_access = ("fs.write", record { domain = "disk"; access = "w" }) ∷ [];
  build = default_build;
  function_build = default_build;
  mcp_build = default_build;
  function_defaults = [];
  mcp_defaults = default_runtime;
}

abbrev faas_routing : Routing
faas_routing = record {
  targets =
      (
        "unit",
        record {
          name = "unit";
          family = "faas";
          node_names = "files" ∷ [];
          trace_names = "fs.write" ∷ [];
          build = record { python_version = "3.10" };
          runtime = record default_runtime { cpu = pos 2 };
          allowed_tools = "fs_write" ∷ [];
        },
      )
      ∷ [];
  routes =
      (
        "fs.write",
        record {
          trace_name = "fs.write";
          node_name = "files";
          target_name = "unit";
          family = "faas";
          tool_name = "fs_write";
          domain = "disk";
          access = "w";
        },
      )
      ∷ [];
}

abbrev benchmark : ResolvedBenchmark
benchmark = record {
  config_path = "c";
  bench_root = "r";
  bench_name = "bench";
  trace_path = "t.json";
  trace = record {
    name = "t";
    description = "";
    deploy_config = "";
    nodes =
        record {
          node_id = 0;
          name = "start";
          node_type = "logic";
          edge_to = record { target_id = 1; params = end; interval_ms = pos 0 } ∷ [];
          time_ms = pos 0;
          output = null;
        }
        ∷ record {
          node_id = 1;
          name = "fs.write";
          node_type = "tool_use";
          edge_to = [];
          time_ms = pos 0;
          output = null;
        }
        ∷ [];
  };
  provider = record {
    name = "ali_fc";
    family = "faas";
    docker_provider = "ali";
    analyzer_provider = "ali";
    storage_provider = "ali";
    runtime_provider = "ali_fc";
    observability_provider = "ali_sls";
    default_platform = none;
  };
  nodes = ("files", files_node) ∷ [];
  targets = faas_routing.targets;
  routes = faas_routing.routes;
}

resolve_benchmark_test : resolve_benchmark disk "c" "Ali_FC" no_overrides ≡ ok benchmark
unfolding tool_name_for_trace access_for_trace int_field fields_of read_runtime read_build cli_build
    cli_runtime function_default list_of load_function_defaults load_mcp_defaults get_provider_spec
    load_json load_object resolve_benchmark_root resolve_trace_path normalize_tool_name access_or
    bound_access bind_trace bind_traces claim_traces full_list optional_file node_dir_of define_node
    resolve_node resolve_nodes either_field items trace_entry node_name_of group_tool group_tools
    group_value nodes_from_tools stripped_texts names_field family_build_of check_unit
    explicit_build unit_build tool_names route_of route_unit place_unit resolve_unit resolve_units
    resolve_faas_targets claim_node claim_nodes python_versions common_build server_build
    route_names route_server place_server resolve_server resolve_servers resolve_mcp_targets
    trace_from_file is_sandbox_config tool_trace_names legacy_types names_outside raise_unless_nil
    trace_file_of pipeline_of raw_nodes_of resolve_targets check_trace resolve_benchmark id_field
    float_field params_field loop_field edge_from_dict edges_from node_from_dict nodes_from
    trace_from_dict minus value_of truthy or_value text_of text_field stripped_field int_of elements
    iterate find strip lower fold_case starts_with drop before replace show get put elem add
    from_values ◌>>=◌ ◌>>◌ exit_if string_eq
resolve_benchmark_test = refl

resolve_benchmark-IsCoherent_example :
    IsCoherent (routing_of benchmark)
    × All (HasRoute benchmark.routes) (node_by_id benchmark.trace.nodes)
resolve_benchmark-IsCoherent_example =
    resolve_benchmark-IsCoherent disk "c" "Ali_FC" no_overrides benchmark resolve_benchmark_test

abbrev wait_all : ℕ → List ℕ → List ℕ
wait_all f pending = pending

wait_all-IsWait : IsWait wait_all
wait_all-IsWait = record {
  done = λ f pending u. record { distinct = u; waiting = λ n m. m };
  wakes = λ f. elim [ [] ↦ λ h. absurd (h refl) | n ∷ ids ↦ λ h. omega arith ];
}

replay_benchmark-RanAll_example :
    (s : State) × (replay_benchmark benchmark (λ n. true) wait_all ≡ ok s)
    × RanAll (node_by_id benchmark.trace.nodes) 0 s
unfolding node_by_id get nat_eq
replay_benchmark-RanAll_example =
    replay_benchmark-RanAll disk "c" "Ali_FC" no_overrides benchmark (λ n. true) wait_all (λ n. n)
      resolve_benchmark_test refl ((refl, tt), (tt, tt)) ((omega arith, tt), (tt, tt)) (λ n. refl)
      wait_all-IsWait

files_valid : AllValid (("files", files_node) ∷ [])
unfolding elem string_eq
files_valid = ((refl, tt), tt)

faas_test :
    resolve_faas_targets "c" (("files", files_node) ∷ []) faas_payload no_overrides
    ≡ ok faas_routing
unfolding tool_name_for_trace access_for_trace int_field fields_of read_runtime read_build cli_build
    cli_runtime function_default list_of load_function_defaults load_mcp_defaults get_provider_spec
    load_json load_object resolve_benchmark_root resolve_trace_path normalize_tool_name access_or
    bound_access bind_trace bind_traces claim_traces full_list optional_file node_dir_of define_node
    resolve_node resolve_nodes either_field items trace_entry node_name_of group_tool group_tools
    group_value nodes_from_tools stripped_texts names_field family_build_of check_unit
    explicit_build unit_build tool_names route_of route_unit place_unit resolve_unit resolve_units
    resolve_faas_targets claim_node claim_nodes python_versions common_build server_build
    route_names route_server place_server resolve_server resolve_servers resolve_mcp_targets
    trace_from_file is_sandbox_config tool_trace_names legacy_types names_outside raise_unless_nil
    trace_file_of pipeline_of raw_nodes_of resolve_targets check_trace resolve_benchmark id_field
    float_field params_field loop_field edge_from_dict edges_from node_from_dict nodes_from
    trace_from_dict minus value_of truthy or_value text_of text_field stripped_field int_of elements
    iterate find strip lower fold_case starts_with drop before replace show get put elem add
    from_values ◌>>=◌ ◌>>◌ exit_if string_eq
faas_test = refl

resolve_faas_targets-IsCoherent_example : IsCoherent faas_routing
resolve_faas_targets-IsCoherent_example =
    resolve_faas_targets-IsCoherent "c" (("files", files_node) ∷ []) faas_payload no_overrides
      faas_routing faas_test files_valid

-- The same node behind one server of a session deployment.
abbrev session_value : Value
session_value = obj (
    field "servers"
      (arr (
        cons
          (obj (
            field "name" (str "server")
              (field "nodes" (arr (cons (str "files") nil)) (field "deploy" (obj end) end))))
          nil))
      end)

abbrev session_routing : Routing
session_routing = record {
  targets =
      (
        "server",
        record {
          name = "server";
          family = "session";
          node_names = "files" ∷ [];
          trace_names = "fs.write" ∷ [];
          build = record { python_version = "3.10" };
          runtime = default_runtime;
          allowed_tools = [];
        },
      )
      ∷ [];
  routes =
      (
        "fs.write",
        record {
          trace_name = "fs.write";
          node_name = "files";
          target_name = "server";
          family = "session";
          tool_name = "fs_write";
          domain = "disk";
          access = "w";
        },
      )
      ∷ [];
}

session_test :
    resolve_mcp_targets "c" (("files", files_node) ∷ []) session_value no_overrides
    ≡ ok session_routing
unfolding tool_name_for_trace access_for_trace int_field fields_of read_runtime read_build cli_build
    cli_runtime function_default list_of load_function_defaults load_mcp_defaults get_provider_spec
    load_json load_object resolve_benchmark_root resolve_trace_path normalize_tool_name access_or
    bound_access bind_trace bind_traces claim_traces full_list optional_file node_dir_of define_node
    resolve_node resolve_nodes either_field items trace_entry node_name_of group_tool group_tools
    group_value nodes_from_tools stripped_texts names_field family_build_of check_unit
    explicit_build unit_build tool_names route_of route_unit place_unit resolve_unit resolve_units
    resolve_faas_targets claim_node claim_nodes python_versions common_build server_build
    route_names route_server place_server resolve_server resolve_servers resolve_mcp_targets
    trace_from_file is_sandbox_config tool_trace_names legacy_types names_outside raise_unless_nil
    trace_file_of pipeline_of raw_nodes_of resolve_targets check_trace resolve_benchmark id_field
    float_field params_field loop_field edge_from_dict edges_from node_from_dict nodes_from
    trace_from_dict minus value_of truthy or_value text_of text_field stripped_field int_of elements
    iterate find strip lower fold_case starts_with drop before replace show get put elem add
    from_values ◌>>=◌ ◌>>◌ exit_if string_eq
session_test = refl

resolve_mcp_targets-IsCoherent_example : IsCoherent session_routing
resolve_mcp_targets-IsCoherent_example =
    resolve_mcp_targets-IsCoherent "c" (("files", files_node) ∷ []) session_value no_overrides
      session_routing session_test files_valid
