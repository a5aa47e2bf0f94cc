-- ===== src/Tests/ReplayTests.antt =====
-- Tests of `run_node` of atsuite/invoker.py on a trace of four nodes.
use text.Mathlib.TextEquality.{eq_iff}
use atsuite.Base.{ℕ, String, true, false, some, List, [], ◌∷◌, ◌≡◌, refl, string_eq, nat_eq, arith}
use atsuite.Base.Dict.{Dict, get, put, pop}
use atsuite.Base.Int.{ℤ, pos}
use atsuite.Base.Json.{null, end, str, field}
use atsuite.Base.Sets.{elem}
use atsuite.Result.{Result, ok, err}
use atsuite.Scheduler.{ToolAccess, is_stateful}
use atsuite.Scheduler.Refinement.{Exclusive}
use atsuite.Trace.{Edge, Node, node_by_id}
use atsuite.Replay.Search.{get_reachable_nodes}
use atsuite.Replay.Search.Correct.{IsReachableSet, get_reachable_nodes_lem}
use atsuite.Replay.Setup.{zeros, survey}
use atsuite.Pipeline.Data.{TraceRoute, tool_access}
use atsuite.Replay.Loop.{Plan, State, access_of, try_node, complete_node}
use atsuite.Replay.Loop.Invariant.{edges_to, completed}
use atsuite.Replay.Loop.Termination.{IsWait}
use atsuite.Replay.Run.{first_state, run_pool, run_node}
use atsuite.Replay.Run.Safety.{
  Steps, here, next, tries, completes, pending-Exclusive, submitted_after_predecessors,
}
use atsuite.Replay.Run.Complete.{RanAll, run_node-RanAll}

abbrev edge : ℕ → Edge
edge n = record { target_id = n; params = field "input" (str "x") end; interval_ms = pos 0 }

abbrev node : ℕ → String → String → List Edge → Node
node n name kind edges = record {
  node_id = n;
  name = name;
  node_type = kind;
  edge_to = edges;
  time_ms = pos 5;
  output = null;
}

-- 0 leads to 1 and 2, both of which lead to 3; 9 is not reached.
abbrev nodes : List Node
nodes =
    node 0 "plan" "logic" (edge 1 ∷ edge 2 ∷ [])
    ∷ node 1 "disk.read" "tool_use" (edge 3 ∷ [])
    ∷ node 2 "disk.write" "tool_use" (edge 3 ∷ [])
    ∷ node 3 "answer" "llm" []
    ∷ node 9 "spare" "llm" []
    ∷ []

abbrev route : String → String → TraceRoute
route name access = record {
  trace_name = name;
  node_name = "disk";
  target_name = "disk";
  family = "faas";
  tool_name = name;
  domain = "disk";
  access = access;
}

abbrev access : String → ToolAccess
access mode = record { domain = "disk"; access = mode }

abbrev routes : Dict String TraceRoute
routes = ("disk.read", route "disk.read" "r") ∷ ("disk.write", route "disk.write" "w") ∷ []

abbrev wait_all : ℕ → List ℕ → List ℕ
wait_all f pending = pending

wait_all-IsWait : IsWait wait_all
wait_all-IsWait = record {
  done = λ f pending u. record { distinct = u; waiting = λ n m. m };
  wakes = λ f. elim [ [] ↦ λ h. absurd (h refl) | n ∷ ids ↦ λ h. omega arith ];
}

reachable_test : get_reachable_nodes (node_by_id nodes) 0 ≡ some (3 ∷ 2 ∷ 1 ∷ 0 ∷ [])
unfolding get_reachable_nodes node_by_id get nat_eq
reachable_test = refl

visited_of : Result State → List ℕ
visited_of (ok s) = s.visited
visited_of (err e) = []

-- The writer waits for the reader: 2 is submitted in the round after 1 has ended.
replay_test :
    visited_of (run_node routes true (node_by_id nodes) 0 end (λ n. true) wait_all)
    ≡ 3 ∷ 2 ∷ 1 ∷ 0 ∷ []
unfolding visited_of run_node get_reachable_nodes node_by_id survey tool_access zeros first_state
    run_pool is_stateful string_eq get nat_eq put pop elem
replay_test = refl

run_node_example :
    (s : State) × (run_node routes true (node_by_id nodes) 0 end (λ n. true) wait_all ≡ ok s)
    × RanAll (node_by_id nodes) 0 s
unfolding node_by_id get nat_eq tool_access string_eq
run_node_example =
    run_node-RanAll routes true nodes 0 end (λ n. true) wait_all (λ n. n)
      (record {
        started = refl;
        targets = ((refl, (refl, tt)), ((refl, tt), ((refl, tt), (tt, (tt, tt)))));
        routed = (
          (λ h. absurd (cc ((eq_iff "logic" "tool_use").1 h))),
          (
            (λ h. (route "disk.read" "r", access "r", refl, refl)),
            (
              (λ h. (route "disk.write" "w", access "w", refl, refl)),
              (
                (λ h. absurd (cc ((eq_iff "llm" "tool_use").1 h))),
                ((λ h. absurd (cc ((eq_iff "llm" "tool_use").1 h))), tt),
              ),
            ),
          ),
        );
        acyclic = omega arith;
      })
      (λ n. refl) wait_all-IsWait

-- The plan of the trace above, and its first in-degrees.
abbrev plan : Plan
plan = record {
  graph = node_by_id nodes;
  reachable = 3 ∷ 2 ∷ 1 ∷ 0 ∷ [];
  node_access = (1, access "r") ∷ (2, access "w") ∷ [];
}

abbrev degrees : Dict ℕ ℤ
degrees = (0, pos 0) ∷ (1, pos 1) ∷ (2, pos 1) ∷ (3, pos 2) ∷ (9, pos 0) ∷ []

surveyed :
    survey routes plan.reachable (node_by_id nodes) ([], zeros (node_by_id nodes))
    ≡ ok (plan.node_access, degrees)
unfolding survey tool_access node_by_id zeros string_eq nat_eq
surveyed = refl

abbrev first : State
first = first_state true plan degrees end

-- The start is submitted, and has completed.
abbrev submitted_start : State
submitted_start = record first { ready = []; visited = 0 ∷ []; pending = 0 ∷ [] }

abbrev completed_start : State
completed_start = record submitted_start {
  pending = [];
  ready = 1 ∷ 2 ∷ [];
  in_degree = (0, pos 0) ∷ (1, pos 0) ∷ (2, pos 0) ∷ (3, pos 2) ∷ (9, pos 0) ∷ [];
  incoming = (0, end) ∷ (1, (edge 1).params) ∷ (2, (edge 2).params) ∷ (3, end) ∷ (9, end) ∷ [];
}

abbrev submitted_reader : State
submitted_reader = record completed_start {
  ready = 2 ∷ [];
  visited = 1 ∷ 0 ∷ [];
  pending = 1 ∷ [];
  scheduler = record { enabled = true; readers = ("disk", 1) ∷ []; writers = [] };
}

three-Steps : Steps plan (λ n. true) first submitted_reader
unfolding first_state node_by_id try_node complete_node is_stateful string_eq nat_eq get put pop
    elem
three-Steps =
    next (next (next here (tries 0 false true refl refl)) (completes 0 refl refl))
      (tries 1 false true refl refl)

pending-Exclusive_example : Exclusive (access "r" ∷ [])
unfolding nat_eq access_of
pending-Exclusive_example =
    pending-Exclusive routes nodes plan.reachable plan.node_access degrees true end (λ n. true)
      submitted_reader surveyed three-Steps refl

submitted_after_predecessors_example : completed (1 ∷ 0 ∷ []) (1 ∷ []) 0 ≡ true
unfolding node_by_id nat_eq elem get edges_to
submitted_after_predecessors_example =
    submitted_after_predecessors routes nodes plan.reachable plan.node_access degrees true end
      (λ n. true) submitted_reader surveyed three-Steps 1 0
      (node 0 "plan" "logic" (edge 1 ∷ edge 2 ∷ [])) refl refl refl (omega arith)

get_reachable_nodes_example :
    (found : List ℕ) × (get_reachable_nodes (node_by_id nodes) 0 ≡ some found)
    × IsReachableSet (node_by_id nodes) 0 found
get_reachable_nodes_example = get_reachable_nodes_lem (node_by_id nodes) 0
