-- ===== src/Replay/Search.antt =====
-- `get_reachable_nodes` of `run_node` (atsuite/invoker.py): breadth-first search over a deque.
pub mod Correct
use atsuite.Base.{
  ℕ, zero, suc, ◌+◌, Option, none, some, List, [], ◌∷◌, ◌++◌, map, true, false, nat_eq, length,
}
use atsuite.Base.Dict.{get}
use atsuite.Base.Sets.{elem}
use atsuite.Trace.{Edge, Node, Graph}

abbrev pub target_ids : List Edge → List ℕ
target_ids [] = []
target_ids (e ∷ edges) = e.target_id ∷ target_ids edges

-- The targets of a node's edges, none for an id that is not in the graph.
unfoldable pub successors : Graph → ℕ → List ℕ
successors g n = elim (get g n) [ none ↦ [] | some node ↦ target_ids node.edge_to ]

-- One round pops one id; `none` means that the fuel ran out.
unfoldable pub search : ℕ → Graph → List ℕ → List ℕ → Option (List ℕ)
unfolding elem successors
search f g [] reachable = some reachable
search zero g (n ∷ queue) reachable = none
search (suc f) g (n ∷ queue) reachable = elim (elem reachable n) [
  | true ↦ search f g queue reachable
  | false ↦ search f g (queue ++ successors g n) (n ∷ reachable)
]

unfoldable pub edge_count : Graph → ℕ
edge_count [] = 0
edge_count ((k, node) ∷ g) = length (target_ids node.edge_to) + edge_count g

-- Every id is pushed by an edge of a node that is expanded once, but for the start.
unfoldable pub get_reachable_nodes : Graph → ℕ → Option (List ℕ)
unfolding search edge_count
get_reachable_nodes g start = search (suc (edge_count g)) g (start ∷ []) []
