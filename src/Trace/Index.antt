-- ===== src/Trace/Index.antt =====
-- The index `node_by_id` (atsuite/invoker.py).
use atsuite.Base.{ℕ, ◌≡◌, refl, List, [], ◌∷◌, nat_eq, arith, All}
use atsuite.Base.Dict.{put, keys, All-put}
use atsuite.Base.Sets.{Unique}
use atsuite.Base.Sets.Keys.{Unique-keys-put}
use atsuite.Trace.{Node, Graph, index_onto, node_by_id}

abbrev pub IsKeyed : Graph → Type 0
IsKeyed [] = Unit {0}
IsKeyed ((k, node) ∷ g) = (node.node_id ≡ k) × IsKeyed g

pub record IsIndex (g : Graph) : Type 0 where
  pub unique : Unique (keys g)
  pub keyed : IsKeyed g

put-IsKeyed : (g : Graph) (n : Node) → IsKeyed g → IsKeyed (put g n.node_id n)
unfolding put
put-IsKeyed [] n h = (refl, tt)
put-IsKeyed ((j, m) ∷ g) n h = ground (arith, put-IsKeyed g n)

index_onto-IsIndex : (g : Graph) (nodes : List Node) → IsIndex g → IsIndex (index_onto g nodes)
unfolding index_onto
index_onto-IsIndex g [] h = h
index_onto-IsIndex g (n ∷ nodes) h =
    index_onto-IsIndex (put g n.node_id n) nodes
      (record { unique = Unique-keys-put g n.node_id n h.unique; keyed = put-IsKeyed g n h.keyed })

pub node_by_id-IsIndex : (nodes : List Node) → IsIndex (node_by_id nodes)
unfolding node_by_id
node_by_id-IsIndex nodes = index_onto-IsIndex [] nodes (record { unique = tt; keyed = tt })

index_onto-All {ℓ} :
    (P : ℕ × Node → Type ℓ) (g : Graph) (nodes : List Node)
    → All P g
    → All (λ (n : Node). P (n.node_id, n)) nodes
    → All P (index_onto g nodes)
unfolding index_onto
index_onto-All P g [] h all = h
index_onto-All P g (n ∷ nodes) h all =
    index_onto-All P (put g n.node_id n) nodes (All-put P g n.node_id n h all.0) all.1

-- What holds of every node holds of every entry of the index.
pub All-node_by_id {ℓ} :
    (P : ℕ × Node → Type ℓ) (nodes : List Node)
    → All (λ (n : Node). P (n.node_id, n)) nodes
    → All P (node_by_id nodes)
unfolding node_by_id
All-node_by_id P nodes all = index_onto-All P [] nodes tt all
