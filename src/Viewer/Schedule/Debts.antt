-- ===== src/Viewer/Schedule/Debts.antt =====
-- The incoming edges of nodes that have not ended, as the in-degrees of compute_scheduled_start_times
-- (atsuite/cli/trace_viewer_metadata.py) count them.
use atsuite.Base.{
  ℕ, suc, ◌+◌, ◌<◌, ◌≡◌, refl, true, false, none, some, List, [], ◌∷◌, map, nat_eq, if◌then◌else◌,
  arith, dec_lt, Option-cases, inl, inr,
}
use atsuite.Base.Dict.{Dict, get, put, keys, get-put}
use atsuite.Base.Int.{ℤ, pos, suc_ℤ}
use atsuite.Base.Sets.{elem, count, Unique}
use atsuite.Base.Sets.Keys.{Unique-keys-put, has-elem-keys}
use atsuite.Viewer.{ViewNode, ViewGraph, view_index_onto, build_node_by_id}
use atsuite.Viewer.Schedule.{Input, targets_of, count_edges, count_incoming}

-- How many edges to a node come from nodes that have not ended.
unfoldable pub owes : ViewGraph → List ℕ → ℕ → ℕ
owes [] ended m = 0
owes ((k, node) ∷ g) ended m = (if elem ended k then 0 else count node.targets m) + owes g ended m

owes-other :
    (g : ViewGraph) (ended : List ℕ) (n m : ℕ)
    → elem (keys g) n ≡ false
    → owes g (n ∷ ended) m ≡ owes g ended m
unfolding owes elem
owes-other [] ended n m h = refl
owes-other ((k, node) ∷ g) ended n m h = ground (arith, owes-other g ended n m)

owes-end_in :
    (ended : List ℕ) (n m : ℕ)
    → elem ended n ≡ false
    → (g : ViewGraph) → Unique (keys g)
    → owes g ended m
      ≡ owes g (n ∷ ended) m + count (elim (get g n) [ none ↦ [] | some node ↦ node.targets ]) m
unfolding owes elem get count
owes-end_in ended n m open_still [] u = refl
owes-end_in ended n m open_still ((k, node) ∷ g) u =
    ground (arith, owes-end_in ended n m open_still g, owes-other g ended n m)

-- A node that ends takes its edges away.
pub owes-end :
    (p : Input) (ended : List ℕ) (n m : ℕ)
    → Unique (keys p.graph)
    → elem ended n ≡ false
    → owes p.graph ended m ≡ owes p.graph (n ∷ ended) m + count (targets_of p n) m
unfolding targets_of
owes-end p ended n m u open_still = owes-end_in ended n m open_still p.graph u

-- Where nothing is owed, every node with an edge has ended.
pub owes-zero :
    (g : ViewGraph) (ended : List ℕ) (k m : ℕ) (node : ViewNode)
    → get g k ≡ some node
    → 0 < count node.targets m
    → owes g ended m ≡ 0
    → elem ended k ≡ true
unfolding owes get
owes-zero [] ended k m node found edge h = cc
owes-zero ((j, other) ∷ g) ended k m node found edge h = ground (arith, owes-zero g ended k m node)

-- The edges to a node in the list of nodes.
pub edges_into : List ViewNode → ℕ → ℕ
edges_into [] m = 0
edges_into (node ∷ nodes) m = count node.targets m + edges_into nodes m

owes-put :
    (g : ViewGraph) (node : ViewNode) (m : ℕ)
    → get g node.node_id ≡ none
    → owes (put g node.node_id node) [] m ≡ owes g [] m + count node.targets m
unfolding owes get put elem
owes-put [] node m h = omega arith
owes-put ((k, other) ∷ g) node m h = ground (arith, owes-put g node m)

abbrev pub ids_of : List ViewNode → List ℕ
ids_of nodes = map (λ node. node.node_id) nodes

pub owes-index :
    (g : ViewGraph) (nodes : List ViewNode) (m : ℕ)
    → Unique (ids_of nodes)
    → ((n : ℕ) → elem (ids_of nodes) n ≡ true → get g n ≡ none)
    → owes (view_index_onto g nodes) [] m ≡ owes g [] m + edges_into nodes m
unfolding view_index_onto edges_into elem
owes-index g [] m u new = omega arith
owes-index g (node ∷ nodes) m u new =
    let h =
      owes-index (put g node.node_id node) nodes m u.1
        (λ n there. ground (arith, get-put g node.node_id n node, new n, u.0)) in
    omega (arith, h, owes-put g node m (new node.node_id (ground arith)))

index_onto-Unique :
    (g : ViewGraph) (nodes : List ViewNode)
    → Unique (keys g)
    → Unique (keys (view_index_onto g nodes))
unfolding view_index_onto
index_onto-Unique g [] u = u
index_onto-Unique g (node ∷ nodes) u =
    index_onto-Unique (put g node.node_id node) nodes (Unique-keys-put g node.node_id node u)

pub build_node_by_id-Unique : (nodes : List ViewNode) → Unique (keys (build_node_by_id nodes))
unfolding build_node_by_id
build_node_by_id-Unique nodes = index_onto-Unique [] nodes tt

-- A count that is kept grows by the edges.
count_edges-get :
    (targets : List ℕ) (d : Dict ℕ ℤ) (m c : ℕ)
    → get d m ≡ some (pos c)
    → get (count_edges targets d) m ≡ some (pos (c + count targets m))
unfolding count_edges count suc_ℤ
count_edges-get [] d m c h = ground arith
count_edges-get (n ∷ targets) d m c h = elim (Option-cases (get d n)) [
  | inl missing ↦ ground (arith, count_edges-get targets d m c h)
  | inr (z, there) ↦ elim (nat_eq.dec n m) [
    | yes same ↦
        let z_is : z ≡ pos c = ground arith in
        let e =
          count_edges-get targets (put d n (suc_ℤ z)) m (suc c)
            (ground (arith, get-put d n m (suc_ℤ z))) in
        ground (arith, e)
    | no differ ↦
        let e =
          count_edges-get targets (put d n (suc_ℤ z)) m c
            (ground (arith, get-put d n m (suc_ℤ z))) in
        ground (arith, e)
  ]
]

pub count_incoming-get :
    (nodes : List ViewNode) (d : Dict ℕ ℤ) (m c : ℕ)
    → get d m ≡ some (pos c)
    → get (count_incoming nodes d) m ≡ some (pos (c + edges_into nodes m))
unfolding count_incoming edges_into
count_incoming-get [] d m c h = ground arith
count_incoming-get (node ∷ nodes) d m c h =
    let e =
      count_incoming-get nodes (count_edges node.targets d) m (c + count node.targets m)
        (count_edges-get node.targets d m c h) in
    ground (arith, e)

-- Where something is owed, a node that has not ended has an edge there.
pub record Debtor (g : ViewGraph) (ended : List ℕ) (m : ℕ) : Type 0 where
  pub id : ℕ
  pub node : ViewNode
  pub at : get g id ≡ some node
  pub open_still : elem ended id ≡ false
  pub edge : 0 < count node.targets m

pub owes-Debtor :
    (g : ViewGraph) (ended : List ℕ) (m : ℕ)
    → Unique (keys g)
    → 0 < owes g ended m
    → Debtor g ended m
unfolding owes get
owes-Debtor [] ended m u h = absurd (omega arith)
owes-Debtor ((k, node) ∷ g) ended m u h = elim (dec_lt 0 (owes g ended m)) [
  | yes more ↦
      let d = owes-Debtor g ended m u.1 more in
      record {
        id = d.id;
        node = d.node;
        at = ground (arith, u.0, has-elem-keys g d.id, d.at);
        open_still = d.open_still;
        edge = d.edge;
      }
  | no here ↦ record {
    id = k;
    node = node;
    at = ground arith;
    open_still = ground arith;
    edge = ground arith;
  }
]
