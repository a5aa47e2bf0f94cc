-- ===== src/Tests/TimelineTests.antt =====
-- A small timeline of atsuite/analysis/timeline.py, and a uid of atsuite/uid_strategy.py.
use atsuite.Base.{none, [], ◌∷◌, refl, ◌≢◌, arith, All, In, first, later, string_eq}
use atsuite.Base.Int.{pos}
use atsuite.Base.Json.{int, str, end, field}
use atsuite.Base.Text.{fold_case}
use atsuite.Analysis.Model.{RunContext, NodeObservation, InvocationObservation, SessionObservation}
use atsuite.Analysis.Timeline.Event.{TimelineEvent}
use atsuite.Analysis.Timeline.Metadata.{metadata_event, metadata_events}
use atsuite.Analysis.Timeline.Metadata.Covers.{metadata_events-names}
use atsuite.Analysis.Timeline.Build.{build_events}
use atsuite.Analysis.Timeline.Build.Events.{IsEvent, build_events-IsEvent}
use atsuite.Uid.{build_request_uid, build_request_uid-distinct}

abbrev context : RunContext
context = record {
  uid = "u";
  provider = "ali_agentrun";
  observability_provider = "ali_sls";
  benchmark = "b";
  trace = "t";
  family = "session";
  config_path = "c";
  start_time = pos 10;
  end_time = pos 90;
  targets = end;
  endpoint_map = end;
}

abbrev call_node : NodeObservation
call_node = record {
  node_id = 1;
  node_name = "ask";
  node_type = "llm";
  runtime_name = "";
  target_id = "";
  family = "";
  runtime_config = end;
  start_time = pos 20;
  end_time = pos 30;
  elapsed_ms = pos 10;
  diagnostics = [];
}

abbrev tool_call : InvocationObservation
tool_call = record {
  node_id = 2;
  node_name = "fs.write";
  target_id = "server";
  runtime_name = "server";
  family = "session";
  tool_name = "fs_write";
  call_id = "k";
  uid = "u";
  status = "ok";
  error = "";
  provider_request_id = "";
  provider_session_id = "";
  client_start_time = pos 40;
  client_elapsed_ms = pos 20000;
  provider_metadata = end;
  evidence_refs = [];
}

abbrev session : SessionObservation
session = record {
  uid = "u";
  target_id = "server";
  runtime_name = "server";
  provider_session_id = "s";
  initialize_request_id = "";
  opened_at = pos 15;
  closed_at = pos 80;
  metadata = end;
  evidence_refs = [];
}

build_events-IsEvent_example : All IsEvent (
    build_events context
      ((1, call_node) ∷ [])
      (tool_call ∷ [])
      (session ∷ [])
      []
      (field "kind" (str "slow") end ∷ []))
build_events-IsEvent_example =
    build_events-IsEvent context ((1, call_node) ∷ []) (tool_call ∷ []) (session ∷ []) []
      (field "kind" (str "slow") end ∷ [])

abbrev event : TimelineEvent
event = record {
  name = "run";
  cat = "client";
  ph = "i";
  ts = 10;
  pid = "client";
  tid = "run";
  dur = none;
  args = end;
  scope = "t";
}

metadata_events-names_example :
    In
      (metadata_event "process_name" "client" (int (pos 0)) "name" (str "client"))
      (metadata_events (record event { tid = "llm/0" } ∷ event ∷ []))
    × In
        (metadata_event "thread_name" "client" (str "run") "name" (str "run"))
        (metadata_events (record event { tid = "llm/0" } ∷ event ∷ []))
metadata_events-names_example =
    metadata_events-names (record event { tid = "llm/0" } ∷ event ∷ []) event (later first)

build_request_uid-distinct_example :
    build_request_uid "run" 1 " Index " none "abc" ≢ build_request_uid "run" 11 " Index " none "abc"
unfolding fold_case
build_request_uid-distinct_example =
    build_request_uid-distinct "run" 1 11 " Index " none "abc" "abc" refl
      (λ h. absurd (omega arith))
