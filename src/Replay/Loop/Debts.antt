-- ===== src/Replay/Loop/Debts.antt =====
-- What `owed` says of single edges: who owes, and that somebody owes where it is positive.
use atsuite.Base.{ℕ, ◌≤◌, ◌<◌, ◌≡◌, some, List, [], ◌∷◌, true, false, nat_eq, arith, dec_lt}
use atsuite.Base.Dict.{get, keys}
use atsuite.Base.Sets.{elem, Unique}
use atsuite.Trace.{Node, Graph}
use atsuite.Base.Sets.Keys.{has-elem-keys}
use atsuite.Replay.Loop.Invariant.{edges_to, owed, completed}

-- A reachable node that has not completed owes all its edges.
pub edges_to-le-owed :
    (reachable v w : List ℕ) (g : Graph) (m t : ℕ) (node : Node)
    → get g m ≡ some node
    → elem reachable m ≡ true
    → completed v w m ≡ false
    → edges_to node.edge_to t ≤ owed reachable v w g t
unfolding owed get
edges_to-le-owed reachable v w [] m t node e r c = cc
edges_to-le-owed reachable v w ((k, other) ∷ g) m t node e r c =
    ground (arith, edges_to-le-owed reachable v w g m t node)

-- Where something is owed, a node that has not completed has an edge there.
pub record Debtor (reachable v w : List ℕ) (g : Graph) (t : ℕ) : Type 0 where
  pub id : ℕ
  pub node : Node
  pub at : get g id ≡ some node
  pub reached : elem reachable id ≡ true
  pub open_still : completed v w id ≡ false
  pub edge : 0 < edges_to node.edge_to t

pub owed-Debtor :
    (reachable v w : List ℕ) (g : Graph) (t : ℕ)
    → Unique (keys g)
    → 0 < owed reachable v w g t
    → Debtor reachable v w g t
unfolding owed get
owed-Debtor reachable v w [] t u h = absurd (omega arith)
owed-Debtor reachable v w ((k, node) ∷ g) t u h = elim (dec_lt 0 (owed reachable v w g t)) [
  | yes later ↦
      let d = owed-Debtor reachable v w g t u.1 later in
      record {
        id = d.id;
        node = d.node;
        at = ground (arith, u.0, has-elem-keys g d.id, d.at);
        reached = d.reached;
        open_still = d.open_still;
        edge = d.edge;
      }
  | no here ↦ record {
    id = k;
    node = node;
    at = ground arith;
    reached = ground arith;
    open_still = ground arith;
    edge = ground arith;
  }
]
