-- ===== src/Replay/Worker.antt =====
-- execute_node of atsuite/invoker.py: what a worker thread does for one node. An exception is
-- returned beside the state that it leaves. The locks make each change of the shared state one step.
pub mod Sessions
pub mod Observed
pub mod Finished
use atsuite.Base.{
  ℕ, suc, String, Bool, Option, none, some, List, [], ◌∷◌, true, false, not, ◌&&◌, ◌||◌, nat_eq,
  string_eq, ◌==◌, if◌then◌else◌,
}
use atsuite.Base.Dict.{Dict, get, put}
use atsuite.Base.Int.{ℤ, pos}
use atsuite.Base.Json.{Value, null, str, obj, Fields, end}
use atsuite.Base.Text.{◌&◌, is_empty, or_else, show}
use atsuite.Base.Convert.{value_of, or_value, text_of, truthy}
use atsuite.Base.Sets.{add}
use atsuite.Result.{Result, ok, err, ◌>>=◌, missing_id, missing_key, runtime_error}
use atsuite.Arguments.{parse_arguments}
use atsuite.Scheduler.{ToolAccess, is_stateful}
use atsuite.Trace.{Node, Graph}
use atsuite.Snapshot.{maybe_attach_agentcore_state_snapshot}
use atsuite.Pipeline.Data.{ResolvedTarget, TraceRoute, ResolvedBenchmark, tool_access}
use atsuite.Analysis.Model.{InvocationObservation}
use atsuite.Analysis.Recorder.{
  RunRecorder, NodeStart, start_node, finish_node, record_session_open, record_invocation,
}
use atsuite.Runtime.{RuntimeTarget, RuntimeSession, InvocationRequest, InvocationResult, config_of}
use atsuite.Runtime.Adapter.{Clients, Adapter, open_session, invoke}
use atsuite.Replay.Calls.{
  Run, Times, analyzer_call, route_at, target_at, node_at, runtime_target_at, routed, plain_start,
  tool_start, input_of, call_id_of, observed, session_id_of, attach, request_of,
}

module _ (c : Clients) where
  -- What the workers share and change.
  pub record Shared : Type 0 where
    pub analyzer : Option RunRecorder
    pub adapter : Adapter c
    pub sessions : Dict String RuntimeSession
    pub seeded_targets : List String
    pub stateful_tool_num : ℕ
    pub toclean : List String

  -- A session that was opened is stored and observed.
  unfoldable pub keep_session : String → RuntimeSession → ℤ → Shared → Shared
  unfolding put analyzer_call value_of or_value text_of
  keep_session name session opened w = record w {
    sessions = put w.sessions name session;
    analyzer =
        analyzer_call
          (record_session_open name name session.provider_session_id
            (text_of (or_value (value_of session.metadata "initialize_request_id" null) (str "")))
            session.metadata none opened)
          w.analyzer;
  }

  -- What `runtime.open_session` answered is stored, or its exception goes on.
  unfoldable pub session_opened :
      String → ℤ → Result RuntimeSession → Shared → Shared × Result RuntimeSession
  unfolding keep_session
  session_opened name opened (err e) w = (w, err e)
  session_opened name opened (ok session) w = (keep_session name session opened w, ok session)

  unfoldable pub open_for :
      Run → ℤ → Result RuntimeTarget → String → Shared → Shared × Result RuntimeSession
  unfolding open_session session_opened
  open_for run opened (err e) name w = (w, err e)
  open_for run opened (ok target) name w =
      let answer = open_session c w.adapter target run.uid in
      session_opened name opened answer.1 (record w { adapter = answer.0 })

  -- session_for_target, where there is a session and where there is none
  unfoldable pub session_from :
      Run → ℤ → Option RuntimeSession → String → Shared → Shared × Result RuntimeSession
  unfolding runtime_target_at open_for
  session_from run opened (some session) name w = (w, ok session)
  session_from run opened none name w =
      open_for run opened (runtime_target_at run.targets name) name w

  unfoldable pub session_for_target : Run → ℤ → String → Shared → Shared × Result RuntimeSession
  unfolding get session_from
  session_for_target run opened name w = session_from run opened (get w.sessions name) name w

  -- `analyzer_call("end_node", ...)`
  unfoldable pub end_node : ℕ → ℤ → Shared → Shared
  unfolding analyzer_call
  end_node n ended w = record w { analyzer = analyzer_call (finish_node n none ended) w.analyzer }

  unfoldable pub observe : InvocationObservation → Shared → Shared
  unfolding analyzer_call
  observe i w = record w { analyzer = analyzer_call (record_invocation i) w.analyzer }

  -- A stateful call of a function is counted, and its target is to be cleaned.
  unfoldable pub mark_stateful : ResolvedTarget → Bool → Shared → Shared
  unfolding add
  mark_stateful target stateful w =
      if target.family == "faas" && stateful
      then record w {
        stateful_tool_num = suc w.stateful_tool_num;
        toclean = add w.toclean target.name;
      }
      else w

  -- A call that did not succeed is observed, and raises.
  unfoldable pub settle_failed :
      Run
      → Times
      → Node
      → TraceRoute
      → ResolvedTarget
      → RuntimeSession
      → InvocationResult
      → Shared
      → Shared × Result ℤ
  unfolding observed call_id_of end_node observe
  settle_failed run t node route target session result w = (
    end_node node.node_id t.ended (
        observe
          (observed node route target run.uid (call_id_of run.uid node.node_id t.call) t.invoked
            session.provider_session_id result.error result)
          w),
    err (runtime_error (or_else result.error ("Invocation failed for " & node.name))),
  )

  -- A call that succeeded is observed; the state of a function is marked first.
  unfoldable pub settle_done :
      Run
      → Times
      → Node
      → TraceRoute
      → ResolvedTarget
      → RuntimeSession
      → InvocationResult
      → Result ToolAccess
      → Shared
      → Shared × Result ℤ
  unfolding observed session_id_of call_id_of end_node observe mark_stateful is_stateful truthy
      value_of
  settle_done run t node route target session result (err e) w = (w, err e)
  settle_done run t node route target session result (ok access) w = (
    end_node node.node_id t.ended (
        observe
          (observed node route target run.uid (call_id_of run.uid node.node_id t.call) t.invoked
            (session_id_of result session) "" result)
          (mark_stateful target
            (is_stateful access || truthy (value_of result.provider_metadata "is_stateful" null))
            w)),
    ok result.client_elapsed_ms,
  )

  -- The end of a tool call, or the exception of `runtime.invoke`.
  unfoldable pub settle_call :
      Run
      → Times
      → Node
      → TraceRoute
      → ResolvedTarget
      → RuntimeSession
      → Result (Adapter c × InvocationResult)
      → Shared
      → Shared × Result ℤ
  unfolding settle_failed settle_done tool_access
  settle_call run t node route target session (err e) w = (w, err e)
  settle_call run t node route target session (ok (adapter, result)) w =
      let w' = record w { adapter = adapter } in
      if result.status == "ok"
      then settle_done run t node route target session result (tool_access route) w'
      else settle_failed run t node route target session result w'

  -- `runtime.invoke`, if there is a session.
  unfoldable pub invoke_tool :
      Run
      → Times
      → Node
      → TraceRoute
      → ResolvedTarget
      → Fields
      → Result RuntimeSession
      → Shared
      → Shared × Result ℤ
  unfolding invoke request_of settle_call
  invoke_tool run t node route target args (err e) w = (w, err e)
  invoke_tool run t node route target args (ok session) w =
      settle_call run t node route target session
        (invoke c t.elapsed_ms (request_of run t node route target args session) w.adapter) w

  -- With the arguments: the snapshot, the session and the call.
  unfoldable pub call_tool :
      Run → Times → Node → TraceRoute → ResolvedTarget → Result Fields → Shared → Shared × Result ℤ
  unfolding attach session_for_target invoke_tool
  call_tool run t node route target (err e) w = (w, err e)
  call_tool run t node route target (ok args) w =
      let attached = attach run target args w.seeded_targets in
      let opened =
        session_for_target run t.opened target.name (record w { seeded_targets = attached.1 }) in
      invoke_tool run t node route target attached.0 opened.1 opened.0

  unfoldable pub begin_node : NodeStart → ℤ → Shared → Shared
  unfolding analyzer_call
  begin_node s started w = record w {
    analyzer = analyzer_call (start_node s none started) w.analyzer;
  }

  -- A tool node, if it is routed.
  unfoldable pub run_tool :
      Run
      → Times
      → Node
      → Fields
      → Result (TraceRoute × ResolvedTarget)
      → Shared
      → Shared × Result ℤ
  unfolding parse_arguments call_tool begin_node tool_start input_of
  run_tool run t node params (err e) w = (w, err e)
  run_tool run t node params (ok (route, target)) w =
      call_tool run t node route target (parse_arguments run.loads (input_of params) run.uid)
        (begin_node (tool_start node target) t.started w)

  -- A node that is no tool, by its type.
  unfoldable pub run_plain : Times → Node → Shared → Shared × Result ℤ
  unfolding begin_node end_node plain_start
  run_plain t node w =
      let w' = begin_node (plain_start node) t.started w in
      let ended = end_node node.node_id t.ended w' in
      if node.node_type == "sandbox"
      then (
        w',
        err (
            runtime_error
              "Sandbox trace nodes are no longer supported; route them through MCP-Gateway"),
      )
      else (
        ended,
        ok (if node.node_type == "logic" || node.node_type == "llm" then node.time_ms else pos 0),
      )

  unfoldable pub execute_known : Run → Times → Fields → Result Node → Shared → Shared × Result ℤ
  unfolding routed run_tool run_plain
  execute_known run t params (err e) w = (w, err e)
  execute_known run t params (ok node) w =
      if node.node_type == "tool_use"
      then run_tool run t node params (routed run.resolved node) w
      else run_plain t node w

  -- execute_node, for the incoming parameters of the node
  unfoldable pub execute_node : Run → Times → ℕ → Fields → Shared → Shared × Result ℤ
  unfolding node_at execute_known
  execute_node run t n params w = execute_known run t params (node_at run.graph n) w
