-- ===== src/Trace.antt =====
-- atsuite_sdk/workflow.py: the recorded trace, a graph of nodes with weighted edges.
pub mod Index
pub mod Read
use atsuite.Base.{ℕ, String, List, [], ◌∷◌, nat_eq}
use atsuite.Base.Dict.{Dict, put}
use atsuite.Base.Json.{Value, Fields}
use atsuite.Base.Int.{ℤ}

pub record Edge : Type 0 where
  pub target_id : ℕ
  pub params : Fields
  pub interval_ms : ℤ

pub record Node : Type 0 where
  pub node_id : ℕ
  pub name : String
  pub node_type : String
  pub edge_to : List Edge
  pub time_ms : ℤ
  pub output : Value

pub record Trace : Type 0 where
  pub name : String
  pub description : String
  pub deploy_config : String
  pub nodes : List Node

abbrev pub Graph : Type 0
Graph = Dict ℕ Node

index_onto : Graph → List Node → Graph
unfolding put
index_onto g [] = g
index_onto g (n ∷ nodes) = index_onto (put g n.node_id n) nodes

-- `{n.node_id: n for n in trace.nodes}` of `run_trace`
unfoldable pub node_by_id : List Node → Graph
unfolding index_onto
node_by_id nodes = index_onto [] nodes
