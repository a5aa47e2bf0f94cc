-- ===== src/Replay/Run.antt =====
-- `run_node` of atsuite/invoker.py as a whole, from a trace graph with nothing visited.
pub mod Start
pub mod Complete
pub mod Safety
use atsuite.Base.{ℕ, suc, String, Bool, Option, none, some, List, [], ◌∷◌, length, nat_eq}
use atsuite.Base.Dict.{Dict, put}
use atsuite.Base.Json.{Fields, end}
use atsuite.Base.Int.{ℤ}
use atsuite.Result.{Result, ok, err, exhausted, ◌>>=◌}
use atsuite.Scheduler.{ToolAccess, init}
use atsuite.Trace.{Graph}
use atsuite.Replay.Search.{get_reachable_nodes}
use atsuite.Pipeline.Data.{TraceRoute}
use atsuite.Replay.Setup.{zeros, survey, first_ready}
use atsuite.Replay.Loop.{Plan, State, schedule_ready_nodes, main_loop}

-- `{n_id: {} for n_id in node_by_id}`
unfoldable pub empty_params : Graph → Dict ℕ Fields
empty_params [] = []
empty_params ((k, node) ∷ g) = (k, end) ∷ empty_params g

-- `node_incoming_params[n_id] = incoming_params` for each node that is ready at first
unfoldable pub give_params : Fields → List ℕ → Dict ℕ Fields → Dict ℕ Fields
unfolding put
give_params params [] incoming = incoming
give_params params (n ∷ ids) incoming = give_params params ids (put incoming n params)

-- The state in which the pool is opened; `gated` says that the family is faas.
unfoldable pub first_state : Bool → Plan → Dict ℕ ℤ → Fields → State
unfolding empty_params give_params first_ready
first_state gated p in_degree params = record {
  in_degree = in_degree;
  incoming = give_params params (first_ready p.reachable in_degree p.graph) (empty_params p.graph);
  ready = first_ready p.reachable in_degree p.graph;
  pending = [];
  visited = [];
  scheduler = init gated;
}

-- The body of the `with ThreadPoolExecutor` block. One round for each reachable node is enough.
unfoldable pub run_pool : Plan → (ℕ → Bool) → (ℕ → List ℕ → List ℕ) → State → Result State
unfolding ◌>>=◌ schedule_ready_nodes main_loop
run_pool p succeeds wait s =
    schedule_ready_nodes p s >>= main_loop (suc (length p.reachable)) p succeeds wait

-- run_node
unfoldable pub run_node :
    Dict String TraceRoute
    → Bool
    → Graph
    → ℕ
    → Fields
    → (ℕ → Bool)
    → (ℕ → List ℕ → List ℕ)
    → Result State
run_node routes gated g start params succeeds wait = elim (get_reachable_nodes g start) [
  | none ↦ err exhausted
  | some reachable ↦ (do
    (node_access, in_degree) ← survey routes reachable g ([], zeros g)
    let p : Plan = record { graph = g; reachable = reachable; node_access = node_access }
    run_pool p succeeds wait (first_state gated p in_degree params))
]
