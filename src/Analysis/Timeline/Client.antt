-- ===== src/Analysis/Timeline/Client.antt =====
-- The client's side of the timeline (atsuite/analysis/timeline.py): the run, its lanes, the model
-- calls and the sessions.
use atsuite.Base.{
  ℕ, ◌+◌, String, not, ◌&&◌, Option, none, some, List, [], ◌∷◌, ltb, leb, ◌==◌, nat_eq, string_eq,
  if◌then◌else◌,
}
use atsuite.Base.Dict.{Dict, get, get_or, values}
use atsuite.Base.Json.{int, str, Fields, end, field}
use atsuite.Base.Int.{pos, lt_ℤ}
use atsuite.Base.Text.{◌&◌, is_empty, or_else, show}
use atsuite.Analysis.Lanes.{Interval, allocate_lanes}
use atsuite.Analysis.Model.{RunContext, NodeObservation, InvocationObservation, SessionObservation}
use atsuite.Analysis.Timeline.Times.{sec_to_us, ms_to_us}
use atsuite.Analysis.Timeline.Event.{TimelineEvent, base_args, span, instant}

abbrev pub wall_clock : Fields
wall_clock = field "time_source" (str "client_wall_clock") (field "confidence" (str "client") end)

-- _add_run
unfoldable pub add_run : List TimelineEvent → RunContext → List TimelineEvent
unfolding base_args sec_to_us
add_run events context =
    span events "run" "client" "client" "run" (sec_to_us context.start_time)
      (some (sec_to_us context.end_time)) none
      (base_args context (
        field "provider" (str context.provider) (
          field "observability_provider" (str context.observability_provider) (
            field "benchmark" (str context.benchmark) (
              field "trace" (str context.trace)
                (field "family" (str context.family) wall_clock))))))

-- The intervals of the model calls.
unfoldable pub llm_intervals : List NodeObservation → List Interval
unfolding sec_to_us
llm_intervals [] = []
llm_intervals (n ∷ nodes) =
    let rest = llm_intervals nodes in
    if n.node_type == "llm"
    then record {
      item_id = n.node_id;
      start_us = sec_to_us n.start_time;
      end_us = sec_to_us n.end_time;
    }
      ∷ rest
    else rest

abbrev start_or : ℕ → Option NodeObservation → ℕ
start_or t none = t
start_or t (some n) = if leb t 0 then sec_to_us n.start_time else t

abbrev end_or : ℕ → ℕ → Option NodeObservation → ℕ
end_or t start_us none = t
end_or t start_us (some n) = if leb t start_us then sec_to_us n.end_time else t

-- The interval of a tool call.
unfoldable pub tool_interval : Dict ℕ NodeObservation → InvocationObservation → Interval
unfolding get sec_to_us ms_to_us
tool_interval nodes i =
    let node = get nodes i.node_id in
    let start_us = start_or (sec_to_us i.client_start_time) node in
    let dur_us = ms_to_us i.client_elapsed_ms in
    let end_us = if ltb 0 start_us && ltb 0 dur_us then start_us + dur_us else 0 in
    record { item_id = i.node_id; start_us = start_us; end_us = end_or end_us start_us node }

unfoldable pub tool_intervals : Dict ℕ NodeObservation → List InvocationObservation → List Interval
unfolding tool_interval
tool_intervals nodes [] = []
tool_intervals nodes (i ∷ invocations) = tool_interval nodes i ∷ tool_intervals nodes invocations

-- The lanes of `_client_lanes` under the keys ("llm", id) and ("tool_use", id).
pub record ClientLanes : Type 0 where
  pub llm : Dict ℕ String
  pub tool_use : Dict ℕ String

name_lanes : String → Dict ℕ ℕ → Dict ℕ String
unfolding show
name_lanes prefix [] = []
name_lanes prefix ((id, lane) ∷ lanes) = (id, prefix & show lane) ∷ name_lanes prefix lanes

-- _client_lanes
unfoldable pub client_lanes : Dict ℕ NodeObservation → List InvocationObservation → ClientLanes
unfolding llm_intervals tool_intervals name_lanes allocate_lanes
client_lanes nodes invocations = record {
  llm = name_lanes "llm/" (allocate_lanes (llm_intervals (values nodes)));
  tool_use = name_lanes "tool_use/" (allocate_lanes (tool_intervals nodes invocations));
}

-- One node of `_add_llm_nodes`.
unfoldable pub add_llm_node :
    RunContext → ClientLanes → List TimelineEvent → ℕ × NodeObservation → List TimelineEvent
unfolding base_args sec_to_us get show
add_llm_node context lanes events (id, n) =
    if not (n.node_type == "llm")
    then events
    else span events ("llm:" & show id & ":" & n.node_name) "client" "client"
        (get_or lanes.llm id "llm/0") (sec_to_us n.start_time) (some (sec_to_us n.end_time)) none
        (base_args context (
          field "node_id" (int (pos n.node_id)) (
            field "node_name" (str n.node_name) (
              field "node_type" (str n.node_type)
                (field "target_id" (str n.target_id) wall_clock)))))

unfoldable pub add_llm_nodes :
    RunContext → ClientLanes → List TimelineEvent → Dict ℕ NodeObservation → List TimelineEvent
unfolding add_llm_node
add_llm_nodes context lanes events [] = events
add_llm_nodes context lanes events (x ∷ nodes) =
    add_llm_nodes context lanes (add_llm_node context lanes events x) nodes

-- `sorted(nodes.items())`, by the distinct keys
insert_item : ℕ × NodeObservation → Dict ℕ NodeObservation → Dict ℕ NodeObservation
insert_item x [] = x ∷ []
insert_item x (y ∷ rest) = if leb x.0 y.0 then x ∷ y ∷ rest else y ∷ insert_item x rest

unfoldable pub sorted_items : Dict ℕ NodeObservation → Dict ℕ NodeObservation
unfolding insert_item
sorted_items [] = []
sorted_items (x ∷ rest) = insert_item x (sorted_items rest)

-- One session of `_add_sessions`.
unfoldable pub add_session :
    RunContext → List TimelineEvent → SessionObservation → List TimelineEvent
unfolding base_args sec_to_us
add_session context events s =
    let pid = "provider:" & or_else (or_else s.target_id s.runtime_name) "unknown" in
    let opened_us = sec_to_us s.opened_at in
    let closed_us = sec_to_us s.closed_at in
    let name = "session_open:" & s.target_id in
    let args = base_args context (
      field "target_id" (str s.target_id) (
        field "session_id" (str s.provider_session_id)
          (field "initialize_request_id" (str s.initialize_request_id) wall_clock))) in
    if is_empty s.provider_session_id
      && is_empty s.initialize_request_id
      && not (lt_ℤ s.opened_at s.closed_at)
    then events
    else if ltb opened_us closed_us
    then span events name "provider" pid "session" opened_us (some closed_us) none args
    else instant events name "provider" pid "session" opened_us args

unfoldable pub add_session_list :
    RunContext → List TimelineEvent → List SessionObservation → List TimelineEvent
unfolding add_session
add_session_list context events [] = events
add_session_list context events (s ∷ sessions) =
    add_session_list context (add_session context events s) sessions

-- _add_sessions
unfoldable pub add_sessions :
    List TimelineEvent → RunContext → List SessionObservation → List TimelineEvent
unfolding add_session_list
add_sessions events context sessions =
    if context.family == "faas" then events else add_session_list context events sessions
