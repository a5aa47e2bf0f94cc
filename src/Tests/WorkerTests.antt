-- ===== src/Tests/WorkerTests.antt =====
-- Tests of `execute_node` of atsuite/invoker.py, with clients that answer every call.
use atsuite.Base.{
  String, ◌≡◌, refl, Bool, true, false, none, some, List, [], ◌∷◌, nat_eq, string_eq,
}
use atsuite.Base.Dict.{get}
use atsuite.Base.Int.{ℤ, pos}
use atsuite.Base.Json.{null, str, end, field}
use atsuite.Result.{ok}
use atsuite.Trace.{Node}
use atsuite.Pipeline.Data.{ResolvedTarget, ResolvedBenchmark}
use atsuite.Analysis.Model.{RunContext}
use atsuite.Analysis.Recorder.{new_recorder}
use atsuite.Analysis.Recorder.RoundTrip.{created}
use atsuite.Runtime.Adapter.{Clients, answered, mcp_adapter}
use atsuite.Replay.Worker.{Shared, execute_node}
use atsuite.Replay.Calls.{Run, Times, route_at, target_at}
use atsuite.Replay.Worker.Observed.{IsEnded}
use atsuite.Replay.Worker.Finished.{execute_node-IsEnded}
use atsuite.Replay.Worker.Sessions.{OpensOnce, ask_sessions, ask_sessions-OpensOnce}

-- A client is whether it is initialized.
abbrev clients : Clients
clients = record {
  Client = Bool;
  function_client = λ endpoint. true;
  mcp_client = λ endpoint uid. false;
  agent_core_client = λ endpoint. false;
  session_id = λ client. "s";
  initialized = λ client. client;
  initialize = λ client. (true, ok (some "i"));
  call = λ client tool args uid. (client, answered (some "q") true);
  contains = λ part text. false;
}

abbrev disk : ResolvedTarget
disk = record {
  name = "disk";
  family = "session";
  node_names = "disk" ∷ [];
  trace_names = "disk.read" ∷ [];
  build = record { python_version = "3.11" };
  runtime = record { cpu = pos 1; memory = pos 512; disk = pos 512; timeout = pos 60 };
  allowed_tools = [];
}

abbrev reading : Node
reading = record {
  node_id = 4;
  name = "disk.read";
  node_type = "tool_use";
  edge_to = [];
  time_ms = pos 5;
  output = null;
}

abbrev disk_benchmark : ResolvedBenchmark
disk_benchmark = record {
  config_path = "";
  bench_root = "";
  bench_name = "demo";
  trace_path = "";
  trace = record { name = "t"; description = ""; deploy_config = ""; nodes = reading ∷ [] };
  provider = record {
    name = "aws_agentcore";
    family = "session";
    docker_provider = "aws";
    analyzer_provider = "aws_agentcore";
    storage_provider = "aws";
    runtime_provider = "aws_agentcore";
    observability_provider = "aws_agentcore_cloudwatch";
    default_platform = none;
  };
  nodes = [];
  targets = ("disk", disk) ∷ [];
  routes =
      (
        "disk.read",
        record {
          trace_name = "disk.read";
          node_name = "disk";
          target_name = "disk";
          family = "session";
          tool_name = "read";
          domain = "disk";
          access = "r";
        },
      )
      ∷ [];
}

abbrev worker_run : Run
worker_run = record {
  graph = (4, reading) ∷ [];
  resolved = disk_benchmark;
  uid = "u";
  bundle = none;
  targets =
      (
        "disk",
        record {
          target_id = "disk";
          family = "session";
          endpoint = "https://disk";
          resources = end;
          tool_manifest = end;
        },
      )
      ∷ [];
  loads = λ s. none;
}

abbrev times : Times
times = record {
  started = pos 10;
  call = 11;
  opened = pos 12;
  invoked = pos 14;
  elapsed_ms = pos 3;
  ended = pos 20;
}

abbrev run_context : RunContext
run_context = record {
  uid = "u";
  provider = "aws_agentcore";
  observability_provider = "aws_agentcore_cloudwatch";
  benchmark = "demo";
  trace = "t";
  family = "session";
  config_path = "";
  start_time = pos 1;
  end_time = pos 0;
  targets = end;
  endpoint_map = end;
}

abbrev shared : Shared clients
shared = record {
  analyzer = some (new_recorder run_context);
  adapter = record {
    kind = mcp_adapter;
    provider = "aws_agentcore";
    targets = worker_run.targets;
    clients = [];
  };
  sessions = [];
  seeded_targets = [];
  stateful_tool_num = 0;
  toclean = [];
}

execute_node_test :
    (execute_node clients worker_run times 4 (field "input" (str "") end) shared).1 ≡ ok (pos 3)
unfolding execute_node nat_eq route_at target_at
execute_node_test = refl

reading_found : get worker_run.graph 4 ≡ some reading
unfolding get nat_eq
reading_found = refl

execute_node-IsEnded_example :
    IsEnded 4
      (pos 10)
      (pos 20)
      (execute_node clients worker_run times 4 (field "input" (str "") end) shared).0.analyzer
execute_node-IsEnded_example =
    execute_node-IsEnded clients worker_run times 4 (field "input" (str "") end) reading shared
      (new_recorder run_context) (pos 3) reading_found refl (created run_context) execute_node_test

-- Two workers ask for one target, a third for a target that is not there.
abbrev requests : List (ℤ × String)
requests = (pos 12, "disk") ∷ (pos 13, "disk") ∷ (pos 14, "tape") ∷ []

none_seen : (new_recorder run_context).sessions ≡ []
unfolding new_recorder
none_seen = refl

ask_sessions-OpensOnce_example : OpensOnce clients (ask_sessions clients worker_run requests shared)
ask_sessions-OpensOnce_example =
    ask_sessions-OpensOnce clients worker_run requests shared (new_recorder run_context) refl refl
      none_seen
