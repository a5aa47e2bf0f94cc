-- ===== src/Replay/Setup.antt =====
-- The part of `run_node` (atsuite/invoker.py) above its thread pool: in-degrees, the access of each
-- tool node, and the first ready nodes.
pub mod Counts
pub mod Total
use atsuite.Base.{
  ℕ, zero, suc, String, Bool, Option, none, some, List, [], ◌∷◌, ◌++◌, true, false, ◌&&◌, nat_eq,
  string_eq, ◌==◌, if◌then◌else◌,
}
use atsuite.Base.Dict.{Dict, get, put}
use atsuite.Base.Int.{ℤ, pos, suc_ℤ, is_zero}
use atsuite.Base.Sets.{elem}
use atsuite.Result.{Result, ok, err, missing_id, missing_key, ◌>>=◌}
use atsuite.Scheduler.{ToolAccess}
use atsuite.Pipeline.Data.{TraceRoute, tool_access}
use atsuite.Trace.{Edge, Node, Graph}

-- `{n_id: 0 for n_id in node_by_id}`
unfoldable pub zeros : Graph → Dict ℕ ℤ
zeros [] = []
zeros ((k, node) ∷ g) = (k, pos 0) ∷ zeros g

-- `in_degree[target_id] += 1`, if the target is reachable
unfoldable pub count_edge : List ℕ → Edge → Dict ℕ ℤ → Result (Dict ℕ ℤ)
unfolding elem get put suc_ℤ
count_edge reachable e in_degree =
    if elem reachable e.target_id
    then (elim (get in_degree e.target_id) [
      | none ↦ err (missing_id e.target_id)
      | some d ↦ ok (put in_degree e.target_id (suc_ℤ d))
    ])
    else ok in_degree

unfoldable pub count_edges : List ℕ → List Edge → Dict ℕ ℤ → Result (Dict ℕ ℤ)
unfolding ◌>>=◌ count_edge
count_edges reachable [] in_degree = ok in_degree
count_edges reachable (e ∷ edges) in_degree =
    count_edge reachable e in_degree >>= count_edges reachable edges

-- `node_access[node.node_id] = resolved.routes[node.name].tool_access`, for a tool node
unfoldable pub note_access :
    Dict String TraceRoute → Node → Dict ℕ ToolAccess → Result (Dict ℕ ToolAccess)
unfolding ◌>>=◌ get put
note_access routes node node_access =
    if node.node_type == "tool_use"
    then (elim (get routes node.name) [
      | none ↦ err (missing_key node.name)
      | some route ↦ tool_access route >>= λ access. ok (put node_access node.node_id access)
    ])
    else ok node_access

-- One node of the loop over `node_by_id.values()`.
unfoldable pub survey_node :
    Dict String TraceRoute
    → List ℕ
    → Node
    → Dict ℕ ToolAccess × Dict ℕ ℤ
    → Result (Dict ℕ ToolAccess × Dict ℕ ℤ)
unfolding ◌>>=◌ note_access count_edges
survey_node routes reachable node (node_access, in_degree) =
    if elem reachable node.node_id
    then (do
      access ← note_access routes node node_access
      degrees ← count_edges reachable node.edge_to in_degree
      ok (access, degrees))
    else ok (node_access, in_degree)

unfoldable pub survey :
    Dict String TraceRoute
    → List ℕ
    → Graph
    → Dict ℕ ToolAccess × Dict ℕ ℤ
    → Result (Dict ℕ ToolAccess × Dict ℕ ℤ)
unfolding ◌>>=◌ survey_node
survey routes reachable [] found = ok found
survey routes reachable ((k, node) ∷ g) found =
    survey_node routes reachable node found >>= survey routes reachable g

-- `in_degree[n_id] == 0`
unfoldable pub has_no_debt : Dict ℕ ℤ → ℕ → Bool
unfolding get is_zero
has_no_debt in_degree n = elim (get in_degree n) [ none ↦ false | some d ↦ is_zero d ]

-- The ids of `node_by_id`, in order, with no edge to wait for.
unfoldable pub first_ready : List ℕ → Dict ℕ ℤ → Graph → List ℕ
unfolding has_no_debt
first_ready reachable in_degree [] = []
first_ready reachable in_degree ((k, node) ∷ g) =
    let rest = first_ready reachable in_degree g in
    if has_no_debt in_degree k && elem reachable k then k ∷ rest else rest
