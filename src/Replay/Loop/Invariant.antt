-- ===== src/Replay/Loop/Invariant.antt =====
-- The invariant of the main loop of `run_node` (atsuite/invoker.py).
use atsuite.Base.{
  ℕ, ◌+◌, ◌<◌, ◌≡◌, Bool, some, List, [], ◌∷◌, true, false, not, ◌&&◌, ◌||◌, nat_eq, ◌==◌,
  if◌then◌else◌,
}
use atsuite.Base.Dict.{get, has, keys}
use atsuite.Base.Int.{pos}
use atsuite.Base.Sets.{elem, Unique}
use atsuite.Trace.{Edge, Node, Graph}
use atsuite.Replay.Loop.{Plan, State}

-- How many of the edges lead to `t`.
unfoldable pub edges_to : List Edge → ℕ → ℕ
edges_to [] t = 0
edges_to (e ∷ edges) t = (if e.target_id == t then 1 else 0) + edges_to edges t

-- The node has run and its future is taken from `pending`.
abbrev pub completed : List ℕ → List ℕ → ℕ → Bool
completed visited pending n = elem visited n && not (elem pending n)

-- The edges to `t` of reachable nodes that have not completed.
unfoldable pub owed : List ℕ → List ℕ → List ℕ → Graph → ℕ → ℕ
unfolding edges_to
owed reachable visited pending [] t = 0
owed reachable visited pending ((k, node) ∷ g) t =
    (if elem reachable k && not (completed visited pending k) then edges_to node.edge_to t else 0)
    + owed reachable visited pending g t

-- A reachable id that has a node.
abbrev pub is_live : Plan → ℕ → Bool
is_live p t = elem p.reachable t && has p.graph t

-- What a target still waits for: `extra` are the edges of a completed node not yet delivered.
abbrev pub debt : Plan → List Edge → State → ℕ → ℕ
debt p extra s t = edges_to extra t + owed p.reachable s.visited s.pending p.graph t

pub record Inv (p : Plan) (extra : List Edge) (s : State) : Type 0 where
  pub pending_visited : (n : ℕ) → elem s.pending n ≡ true → elem s.visited n ≡ true
  pub pending_unique : Unique s.pending
  pub visited_unique : Unique s.visited
  pub ready_unique : Unique s.ready
  pub ready_fresh : (n : ℕ) → elem s.ready n ≡ true → elem s.visited n ≡ false
  pub ready_live : (n : ℕ) → elem s.ready n ≡ true → is_live p n ≡ true
  pub ready_free : (n : ℕ) → elem s.ready n ≡ true → debt p extra s n ≡ 0
  pub visited_live : (n : ℕ) → elem s.visited n ≡ true → is_live p n ≡ true
  pub visited_free : (n : ℕ) → elem s.visited n ≡ true → debt p extra s n ≡ 0
  pub degrees : (t : ℕ) → is_live p t ≡ true → get s.in_degree t ≡ some (pos (debt p extra s t))
  pub noticed :
      (t : ℕ)
      → is_live p t ≡ true
      → debt p extra s t ≡ 0
      → (elem s.ready t || elem s.visited t) ≡ true
  pub extra_live : (t : ℕ) → 0 < edges_to extra t → elem p.reachable t ≡ true → is_live p t ≡ true

-- The ids of a graph are distinct, and its edges between reachable nodes lead to nodes.
pub record IsClosed (p : Plan) : Type 0 where
  pub keys_unique : Unique (keys p.graph)
  pub edges_live :
      (m : ℕ) (node : Node)
      → elem p.reachable m ≡ true
      → get p.graph m ≡ some node
      → (t : ℕ) → 0 < edges_to node.edge_to t
      → elem p.reachable t ≡ true
      → is_live p t ≡ true
