-- ===== src/Tests/RecorderTests.antt =====
-- A recording of a run (atsuite/analysis/observer.py), written and read again.
use atsuite.Base.{ℕ, String, ◌≡◌, none, some, nat_eq, string_eq}
use atsuite.Base.Int.{pos}
use atsuite.Base.Json.{end}
use atsuite.Result.{ok}
use atsuite.Analysis.Model.{RunContext}
use atsuite.Analysis.Recorder.{
  RunRecorder, NodeStart, new_recorder, start_run, start_node, finish_node, snapshot, from_events,
}
use atsuite.Analysis.Recorder.RoundTrip.{
  Recorded, created, run_started, node_started, node_finished, Same, from_events-snapshot,
}

abbrev context : RunContext
context = record {
  uid = "u";
  provider = "aws_lambda";
  observability_provider = "aws_lambda_cloudwatch";
  benchmark = "demo";
  trace = "t1";
  family = "faas";
  config_path = "";
  start_time = pos 1;
  end_time = pos 2;
  targets = end;
  endpoint_map = end;
}

abbrev node_start : ℕ → String → NodeStart
node_start n name = record {
  node_id = n;
  node_name = name;
  node_type = "logic";
  runtime_name = "";
  target_id = "";
  family = "";
  runtime_config = end;
}

abbrev recording : RunRecorder
recording = finish_node 5 (some (pos 9)) (pos 0) (
    start_node (node_start 2 "answer") none (pos 7) (
      start_node (node_start 5 "plan") none (pos 4)
        (start_run "u" none (pos 3) (new_recorder context))))

recording-Recorded : Recorded recording
recording-Recorded = node_finished 5 (some (pos 9)) (pos 0) (
    node_started (node_start 2 "answer") none (pos 7) (
      node_started (node_start 5 "plan") none (pos 4)
        (run_started "u" none (pos 3) (created context))))

from_events-snapshot_example :
    (r' : RunRecorder) × (from_events (snapshot recording) ≡ ok r') × Same recording r'
from_events-snapshot_example = from_events-snapshot recording-Recorded
