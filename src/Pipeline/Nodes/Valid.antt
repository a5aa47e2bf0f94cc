-- ===== src/Pipeline/Nodes/Valid.antt =====
-- The accesses that a configuration binds (atsuite/pipeline.py).
use atsuite.Base.{
  String, true, List, [], ◌∷◌, ◌≡◌, refl, string_eq, arith, ◌⊎◌, All, inl, inr, Option-cases, subst,
  sym,
}
use atsuite.Base.Dict.{Dict, get, put, All-get, All-put}
use atsuite.Base.Sets.{elem}
use atsuite.Scheduler.{ToolAccess, valid_access_modes, from_values, default_access}
use atsuite.Base.Json.{Value, str, obj, Fields}
use atsuite.Result.{ok, >>=-eq-ok, >>-eq-ok}
use atsuite.Pipeline.Data.{NodeDefinition, access_for_trace}
use atsuite.Pipeline.Files.{FileSystem}
use atsuite.Base.Convert.{stripped_field}
use atsuite.Pipeline.Nodes.{
  Nodes, Binding, bound_access, bind_trace, bind_traces, define_node, resolve_node, resolve_nodes,
}

abbrev pub IsValidAccess : ToolAccess → Type 0
IsValidAccess a = elem valid_access_modes a.access ≡ true

from_values-IsValidAccess :
    (domain access : String) (a : ToolAccess) → from_values domain access ≡ ok a → IsValidAccess a
unfolding from_values
from_values-IsValidAccess domain access a h = ground arith

default_access-IsValidAccess : IsValidAccess default_access
unfolding elem
default_access-IsValidAccess = ground arith

access_cases :
    (access : String)
    → elem valid_access_modes access ≡ true
    → (access ≡ "stateless") ⊎ ((access ≡ "r") ⊎ ((access ≡ "w") ⊎ (access ≡ "rw")))
unfolding elem
access_cases access h = elim (string_eq.dec "stateless" access) [
  | yes p ↦ inl (sym p)
  | no n₁ ↦ elim (string_eq.dec "r" access) [
    | yes p ↦ inr (inl (sym p))
    | no n₂ ↦ elim (string_eq.dec "w" access) [
      | yes p ↦ inr (inr (inl (sym p)))
      | no n₃ ↦ inr (inr (inr (ground arith)))
    ]
  ]
]

-- A valid access goes through `from_values` once more.
pub from_values_valid :
    (domain access : String)
    → elem valid_access_modes access ≡ true
    → (a : ToolAccess) × (from_values domain access ≡ ok a)
unfolding from_values string_eq
from_values_valid domain access h = elim (access_cases access h) [
  | inl p ↦ rw p (_, refl)
  | inr q ↦ elim q [
    | inl p ↦ rw p (_, refl)
    | inr r ↦ elim r [ inl p ↦ rw p (_, refl) | inr p ↦ rw p (_, refl) ]
  ]
]

-- Every access of the node is valid.
abbrev pub HasValidAccess : NodeDefinition → Type 0
HasValidAccess node = All (λ (x : String × ToolAccess). IsValidAccess x.1) node.trace_access

pub access_for_trace-IsValidAccess :
    (node : NodeDefinition) (t : String)
    → HasValidAccess node
    → IsValidAccess (access_for_trace node t)
unfolding access_for_trace
access_for_trace-IsValidAccess node t h = elim (Option-cases (get node.trace_access t)) [
  | inl missing ↦
      let same : default_access ≡ access_for_trace node t = ground arith in
      subst IsValidAccess same default_access-IsValidAccess
  | inr (a, found) ↦
      let same : a ≡ access_for_trace node t = ground arith in
      subst IsValidAccess same
        (All-get (λ (x : String × ToolAccess). IsValidAccess x.1) node.trace_access t a h found)
]

bound_access-IsValidAccess :
    (file node_name : String) (item : Fields) (a : ToolAccess)
    → bound_access file node_name item ≡ ok a
    → IsValidAccess a
unfolding bound_access
bound_access-IsValidAccess file node_name item a h =
    let (_, _, rest) = >>-eq-ok _ _ h in from_values-IsValidAccess _ _ a rest

bind_trace-IsValidAccess :
    (file node_name : String) (v : Value) (b : Binding)
    → bind_trace file node_name v ≡ ok b
    → IsValidAccess b.access_info
unfolding bind_trace
bind_trace-IsValidAccess file node_name (str s) b h =
    let (_, _, rest) = >>-eq-ok _ _ h in
    let same : default_access ≡ b.access_info = ground arith in
    subst IsValidAccess same default_access-IsValidAccess
bind_trace-IsValidAccess file node_name (obj item) b h =
    let (a, bound, rest) = >>=-eq-ok _ _ h in
    let (_, _, rest') = >>-eq-ok _ _ rest in
    let same : a ≡ b.access_info = ground arith in
    subst IsValidAccess same (bound_access-IsValidAccess file node_name item a bound)
bind_trace-IsValidAccess file node_name v b h = cc

bind_traces-All :
    (file node_name : String) (vs : List Value) (d d' : Dict String String)
    (a a' : Dict String ToolAccess)
    → bind_traces file node_name vs d a ≡ ok (d', a')
    → All (λ (x : String × ToolAccess). IsValidAccess x.1) a
    → All (λ (x : String × ToolAccess). IsValidAccess x.1) a'
unfolding bind_traces
bind_traces-All file node_name [] d d' a a' h all =
    let same : a ≡ a' = ground arith in
    subst (All (λ (x : String × ToolAccess). IsValidAccess x.1)) same all
bind_traces-All file node_name (v ∷ vs) d d' a a' h all =
    let (b, bound, rest) = >>=-eq-ok _ _ h in
    bind_traces-All file node_name vs (put d b.trace_name b.tool_name) d'
      (put a b.trace_name b.access_info) a' rest
      (All-put (λ (x : String × ToolAccess). IsValidAccess x.1) a b.trace_name b.access_info all
        (bind_trace-IsValidAccess file node_name v b bound))

-- Every node has valid accesses only.
abbrev pub AllValid : Dict String NodeDefinition → Type 0
AllValid nodes = All (λ (x : String × NodeDefinition). HasValidAccess x.1) nodes

define_node-HasValidAccess :
    (fs : FileSystem) (file bench_root node_name : String) (raw : Fields)
    (owners owners' : Dict String String) (node : NodeDefinition)
    → define_node fs file bench_root node_name raw owners ≡ ok (node, owners')
    → HasValidAccess node
unfolding define_node
define_node-HasValidAccess fs file bench_root node_name raw owners owners' node h =
    let (_, _, h₁) = >>-eq-ok _ _ h in
    let (vs, _, h₂) = >>=-eq-ok _ _ h₁ in
    let (x, bound, h₃) = >>=-eq-ok _ _ h₂ in
    let (_, _, h₄) = >>-eq-ok _ _ h₃ in
    let (_, _, h₅) = >>=-eq-ok _ _ h₄ in
    let (_, _, h₆) = >>=-eq-ok _ _ h₅ in
    let (_, _, h₇) = >>=-eq-ok _ _ h₆ in
    let (_, _, h₈) = >>=-eq-ok _ _ h₇ in
    let (_, _, h₉) = >>=-eq-ok _ _ h₈ in
    let (_, _, h₁₀) = >>=-eq-ok _ _ h₉ in
    let same : x.1 ≡ node.trace_access = ground arith in
    subst (All (λ (x : String × ToolAccess). IsValidAccess x.1)) same
      (bind_traces-All file node_name vs [] x.0 [] x.1 bound tt)

resolve_node-AllValid :
    (fs : FileSystem) (file bench_root : String) (v : Value) (n n' : Nodes)
    → resolve_node fs file bench_root v n ≡ ok n'
    → AllValid n.resolved_nodes
    → AllValid n'.resolved_nodes
unfolding resolve_node
resolve_node-AllValid fs file bench_root (obj raw) n n' h all =
    let (_, _, h₁) = >>-eq-ok _ _ h in
    let (_, _, h₂) = >>-eq-ok _ _ h₁ in
    let ((node, owners), defined, h₃) = >>=-eq-ok _ _ h₂ in
    let name = stripped_field raw "name" in
    let same : put n.resolved_nodes name node ≡ n'.resolved_nodes = ground arith in
    subst AllValid same (
      All-put (λ (x : String × NodeDefinition). HasValidAccess x.1) n.resolved_nodes name node all
        (define_node-HasValidAccess fs file bench_root name raw n.trace_owner owners node defined))
resolve_node-AllValid fs file bench_root v n n' h all = cc

pub resolve_nodes-AllValid :
    (fs : FileSystem) (file bench_root : String) (vs : List Value) (n n' : Nodes)
    → resolve_nodes fs file bench_root vs n ≡ ok n'
    → AllValid n.resolved_nodes
    → AllValid n'.resolved_nodes
unfolding resolve_nodes
resolve_nodes-AllValid fs file bench_root [] n n' h all =
    let same : n ≡ n' = ground arith in subst (λ (m : Nodes). AllValid m.resolved_nodes) same all
resolve_nodes-AllValid fs file bench_root (v ∷ vs) n n' h all =
    let (m, one, rest) = >>=-eq-ok _ _ h in
    resolve_nodes-AllValid fs file bench_root vs m n' rest
      (resolve_node-AllValid fs file bench_root v n m one all)
