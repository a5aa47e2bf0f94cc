-- ===== src/Replay/Worker/Finished.antt =====
-- execute_node (atsuite/invoker.py) from its start to its end.
use atsuite.Base.{
  ℕ, ◌≡◌, refl, sym, subst, ◌||◌, none, some, nat_eq, string_eq, ◌==◌, Bool-cases, inl, inr,
}
use atsuite.Base.Dict.{get}
use atsuite.Base.Int.{ℤ}
use atsuite.Base.Json.{null, Fields}
use atsuite.Base.Convert.{truthy, value_of}
use atsuite.Result.{Error, Result, ok, err}
use atsuite.Scheduler.{ToolAccess, is_stateful}
use atsuite.Arguments.{parse_arguments}
use atsuite.Trace.{Node, Graph}
use atsuite.Pipeline.Data.{ResolvedTarget, TraceRoute, tool_access}
use atsuite.Analysis.Recorder.{RunRecorder, NodeStart, start_node}
use atsuite.Analysis.Recorder.RoundTrip.{Recorded}
use atsuite.Runtime.{RuntimeSession, InvocationResult}
use atsuite.Runtime.Adapter.{Clients, Adapter, invoke}
use atsuite.Replay.Worker.{
  Shared, session_from, session_for_target, end_node, observe, mark_stateful, settle_failed,
  settle_done, settle_call, invoke_tool, call_tool, begin_node, run_tool, run_plain, execute_known,
  execute_node,
}
use atsuite.Replay.Calls.{
  Run, Times, analyzer_call, node_at, routed, plain_start, tool_start, attach, request_of, input_of,
  observed, session_id_of, call_id_of,
}
use atsuite.Replay.Worker.Observed.{
  IsRunning, IsEnded, start-IsRunning, finish-IsEnded, session_from-Runs, observe-Runs,
  mark_stateful-Runs,
}

module _ (c : Clients) (run : Run) (t : Times) (node : Node) where
  -- If the outcome is a value, the node was started and has ended.
  record Finishes (out : Shared c × Result ℤ) : Type 0 where
    ends : (z : ℤ) → out.1 ≡ ok z → IsEnded node.node_id t.started t.ended (out.0).analyzer

  raises : (w : Shared c) (e : Error) → Finishes (w, err e)
  raises w e = record { ends = λ z h. cc }

  abbrev IsOn : Shared c → Type 0
  IsOn w = IsRunning node.node_id t.started w.analyzer

  end_node-IsEnded :
      (w : Shared c)
      → IsOn w
      → IsEnded node.node_id t.started t.ended (end_node c node.node_id t.ended w).analyzer
  unfolding end_node
  end_node-IsEnded w k = finish-IsEnded t.ended k

  module _ (route : TraceRoute) (target : ResolvedTarget) where
    settle_done-Finishes :
        (session : RuntimeSession) (result : InvocationResult) (access : Result ToolAccess)
        (w : Shared c)
        → IsOn w
        → Finishes (settle_done c run t node route target session result access w)
    unfolding settle_done
    settle_done-Finishes session result (err e) w k = raises w e
    settle_done-Finishes session result (ok access) w k =
        let stateful =
          is_stateful access || truthy (value_of result.provider_metadata "is_stateful" null) in
        let i =
          observed node route target run.uid (call_id_of run.uid node.node_id t.call) t.invoked
            (session_id_of result session) "" result in
        let w' = mark_stateful c target stateful w in
        let k' =
          observe-Runs c node.node_id t.started i w'
            (mark_stateful-Runs c node.node_id t.started target stateful w k) in
        record { ends = λ z h. end_node-IsEnded (observe c i w') k' }

    settle_failed-Finishes :
        (session : RuntimeSession) (result : InvocationResult) (w : Shared c)
        → Finishes (settle_failed c run t node route target session result w)
    unfolding settle_failed
    settle_failed-Finishes session result w = raises _ _

    settle_call-Finishes :
        (session : RuntimeSession) (answer : Result (Adapter c × InvocationResult)) (w : Shared c)
        → IsOn w
        → Finishes (settle_call c run t node route target session answer w)
    unfolding settle_call
    settle_call-Finishes session (err e) w k = raises w e
    settle_call-Finishes session (ok (adapter, result)) w k =
        elim (Bool-cases (result.status == "ok")) [
          | inl good ↦ rw good (
              settle_done-Finishes session result (tool_access route)
                (record w { adapter = adapter }) k)
          | inr bad ↦
              rw bad (settle_failed-Finishes session result (record w { adapter = adapter }))
        ]

    invoke_tool-Finishes :
        (args : Fields) (session : Result RuntimeSession) (w : Shared c)
        → IsOn w
        → Finishes (invoke_tool c run t node route target args session w)
    unfolding invoke_tool
    invoke_tool-Finishes args (err e) w k = raises w e
    invoke_tool-Finishes args (ok session) w k =
        settle_call-Finishes session
          (invoke c t.elapsed_ms (request_of run t node route target args session) w.adapter) w k

    call_tool-Finishes :
        (args : Result Fields) (w : Shared c)
        → IsOn w
        → Finishes (call_tool c run t node route target args w)
    unfolding call_tool session_for_target
    call_tool-Finishes (err e) w k = raises w e
    call_tool-Finishes (ok args) w k =
        let attached = attach run target args w.seeded_targets in
        let w' = record w { seeded_targets = attached.1 } in
        let opened = session_from c run t.opened (get w.sessions target.name) target.name w' in
        invoke_tool-Finishes attached.0 opened.1 opened.0 (
          session_from-Runs c node.node_id t.started run t.opened (get w.sessions target.name)
            target.name w' k)

  begin_node-IsOn :
      (s : NodeStart) (w : Shared c) (r : RunRecorder)
      → s.node_id ≡ node.node_id
      → w.analyzer ≡ some r
      → Recorded r
      → IsOn (begin_node c s t.started w)
  unfolding begin_node analyzer_call
  begin_node-IsOn s w r same there h =
      subst (λ n. IsRunning n t.started (analyzer_call (start_node s none t.started) w.analyzer))
        same
        (subst (λ a. IsRunning s.node_id t.started (analyzer_call (start_node s none t.started) a))
          (sym there) (start-IsRunning s t.started r h))

  run_tool-Finishes :
      (params : Fields) (way : Result (TraceRoute × ResolvedTarget)) (w : Shared c)
      (r : RunRecorder)
      → w.analyzer ≡ some r
      → Recorded r
      → Finishes (run_tool c run t node params way w)
  unfolding run_tool tool_start
  run_tool-Finishes params (err e) w r there h = raises w e
  run_tool-Finishes params (ok (route, target)) w r there h =
      call_tool-Finishes route target (parse_arguments run.loads (input_of params) run.uid)
        (begin_node c (tool_start node target) t.started w)
        (begin_node-IsOn (tool_start node target) w r refl there h)

  run_plain-Finishes :
      (w : Shared c) (r : RunRecorder)
      → w.analyzer ≡ some r
      → Recorded r
      → Finishes (run_plain c t node w)
  unfolding run_plain plain_start
  run_plain-Finishes w r there h = elim (Bool-cases (node.node_type == "sandbox")) [
    | inl sandbox ↦ rw sandbox (raises _ _)
    | inr other ↦
        let k = begin_node-IsOn (plain_start node) w r refl there h in
        rw other (record {
          ends = λ z x. end_node-IsEnded (begin_node c (plain_start node) t.started w) k;
        })
  ]

  execute_known-Finishes :
      (params : Fields) (w : Shared c) (r : RunRecorder)
      → w.analyzer ≡ some r
      → Recorded r
      → Finishes (execute_known c run t params (ok node) w)
  unfolding execute_known
  execute_known-Finishes params w r there h = elim (Bool-cases (node.node_type == "tool_use")) [
    | inl tool ↦ rw tool (run_tool-Finishes params (routed run.resolved node) w r there h)
    | inr other ↦ rw other (run_plain-Finishes w r there h)
  ]

node_at-found :
    (g : Graph) (n : ℕ) (node : Node)
    → get g n ≡ some node
    → node_at g n ≡ ok (record node { node_id = n })
unfolding node_at
node_at-found g n node found = rw (node_at, found)

-- If the id is that of a node of the trace, the shared recorder has been reached by calls of its
-- methods, and `execute_node` returns without an error, then the recorder afterwards has been
-- reached by such calls too, and its observation of the node has the start and the end of this
-- execution and the time between them, in milliseconds and never below zero, as its elapsed time.
pub execute_node-IsEnded :
    (c : Clients) (run : Run) (t : Times) (n : ℕ) (params : Fields) (node : Node) (w : Shared c)
    (r : RunRecorder) (z : ℤ)
    → get run.graph n ≡ some node
    → w.analyzer ≡ some r
    → Recorded r
    → (execute_node c run t n params w).1 ≡ ok z
    → IsEnded n t.started t.ended (execute_node c run t n params w).0.analyzer
unfolding execute_node
execute_node-IsEnded c run t n params node w r z found there h =
    subst
      (λ x.
        (execute_known c run t params x w).1 ≡ ok z
        → IsEnded n t.started t.ended (execute_known c run t params x w).0.analyzer)
      (sym (node_at-found run.graph n node found))
      ((execute_known-Finishes c run t (record node { node_id = n }) params w r there h).ends z)
