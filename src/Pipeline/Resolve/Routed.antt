-- ===== src/Pipeline/Resolve/Routed.antt =====
-- The routes of the tool nodes in what `resolve_benchmark` (atsuite/pipeline.py) returns.
use atsuite.Base.{
  String, true, List, [], ◌∷◌, ◌≡◌, refl, ◌==◌, string_eq, nat_eq, arith, All, All-map, subst,
  Option-cases, Bool-cases, inl, inr,
}
use atsuite.Base.Dict.{Dict, get, has, All-get}
use atsuite.Base.Json.{Fields}
use atsuite.Base.Convert.{value_of}
use atsuite.Base.Json.{null}
use atsuite.Base.Sets.{elem, add}
use atsuite.Result.{Error, ok, >>=-eq-ok, >>-eq-ok, ok_injective}
use atsuite.Trace.{Node, node_by_id}
use atsuite.Trace.Index.{All-node_by_id}
use atsuite.Pipeline.Data.{
  tool_access, ResolvedBenchmark, CliOverrides, ProviderSpec, NodeDefinition,
}
use atsuite.Pipeline.Files.{FileSystem}
use atsuite.Pipeline.Nodes.Valid.{AllValid, resolve_nodes-AllValid, from_values_valid}
use atsuite.Pipeline.Faas.{Routing}
use atsuite.Pipeline.Faas.Coherent.{resolve_faas_targets-IsCoherent}
use atsuite.Pipeline.Session.Coherent.{resolve_mcp_targets-IsCoherent}
use atsuite.Pipeline.Routing.{IsRoute, IsCoherent}
use atsuite.Pipeline.Resolve.{
  raise_unless_nil, names_outside, trace_tool_types, tool_trace_names, session_payload,
  resolve_targets, resolve_benchmark,
}
use atsuite.Replay.Setup.Total.{HasRoute}

raise_unless_nil-eq-ok :
    (names : List String) (error : List String → Error) {u : Unit {0}}
    → raise_unless_nil names error ≡ ok u
    → names ≡ []
unfolding raise_unless_nil
raise_unless_nil-eq-ok [] error h = refl
raise_unless_nil-eq-ok (name ∷ names) error h = cc

names_outside-nil :
    {V : Type 0} (d : Dict String V) (names : List String)
    → names_outside d names ≡ []
    → All (λ name. has d name ≡ true) names
unfolding names_outside add elem
names_outside-nil d [] h = tt
names_outside-nil d (name ∷ names) h =
    let here : has d name ≡ true = ground arith in (here, names_outside-nil d names (ground arith))

tool_nodes-All :
    (P : String → Type 0) (nodes : List Node)
    → All P (tool_trace_names nodes)
    → All (λ (n : Node). n.node_type ≡ "tool_use" → P n.name) nodes
unfolding tool_trace_names elem
tool_nodes-All P [] h = tt
tool_nodes-All P (n ∷ nodes) h = elim (Bool-cases (elem trace_tool_types n.node_type)) [
  | inl tool ↦
      let e : tool_trace_names (n ∷ nodes) ≡ n.name ∷ tool_trace_names nodes = ground arith in
      let all = subst (All P) e h in ((λ t. all.0), tool_nodes-All P nodes all.1)
  | inr other ↦
      let e : tool_trace_names (n ∷ nodes) ≡ tool_trace_names nodes = ground arith in
      ((λ t. absurd (ground arith)), tool_nodes-All P nodes (subst (All P) e h))
]

-- A routed tool node has what the replay asks of it.
HasRoute-of :
    (r : Routing) (n : Node)
    → All (IsRoute r.targets) r.routes
    → (n.node_type ≡ "tool_use" → has r.routes n.name ≡ true)
    → HasRoute r.routes (n.node_id, n)
unfolding tool_access
HasRoute-of r n routed found tool = elim (Option-cases (get r.routes n.name)) [
  | inl missing ↦ let here = found tool in absurd (ground arith)
  | inr (route, at) ↦
      let ok_route = All-get (IsRoute r.targets) r.routes n.name route routed at in
      let (access, valid) = from_values_valid route.domain route.access ok_route.valid in
      (route, access, at, valid)
]

resolve_targets-IsCoherent :
    (spec : ProviderSpec) (file : String) (nodes : Dict String NodeDefinition) (pipeline : Fields)
    (cli : CliOverrides) (r : Routing)
    → resolve_targets spec file nodes pipeline cli ≡ ok r
    → AllValid nodes
    → IsCoherent r
unfolding resolve_targets
resolve_targets-IsCoherent spec file nodes pipeline cli r h valid =
    elim (Bool-cases (spec.family == "faas")) [
      | inl faas ↦
          resolve_faas_targets-IsCoherent file nodes (value_of pipeline "faas" null) cli r
            (ground arith) valid
      | inr session ↦
          resolve_mcp_targets-IsCoherent file nodes (session_payload pipeline) cli r (ground arith)
            valid
    ]

-- The targets and routes of a benchmark.
abbrev pub routing_of : ResolvedBenchmark → Routing
routing_of b = record { targets = b.targets; routes = b.routes }

-- If `resolve_benchmark` returns a benchmark, then every route is stored under its trace name, has
-- a valid access and leads to a target of its family that lists the name, and every trace name of a
-- target is routed to that target; and every tool node in the index of the trace has a route whose
-- access `run_node` can read.
pub resolve_benchmark-IsCoherent :
    (fs : FileSystem) (config_path provider : String) (overrides : CliOverrides)
    (b : ResolvedBenchmark)
    → resolve_benchmark fs config_path provider overrides ≡ ok b
    → IsCoherent (routing_of b) × All (HasRoute b.routes) (node_by_id b.trace.nodes)
unfolding resolve_benchmark
resolve_benchmark-IsCoherent fs config_path provider overrides b h =
    let (spec, _, h₁) = >>=-eq-ok _ _ h in
    let (config, _, h₂) = >>=-eq-ok _ _ h₁ in
    let (_, _, h₃) = >>-eq-ok _ _ h₂ in
    let (trace_path, _, h₄) = >>=-eq-ok _ _ h₃ in
    let (trace, _, h₅) = >>=-eq-ok _ _ h₄ in
    let (sandbox, _, h₆) = >>=-eq-ok _ _ h₅ in
    let (_, _, h₇) = >>-eq-ok _ _ h₆ in
    let (raw_nodes, _, h₈) = >>=-eq-ok _ _ h₇ in
    let (nodes, resolved, h₉) = >>=-eq-ok _ _ h₈ in
    let (_, _, h₁₀) = >>-eq-ok _ _ h₉ in
    let (pipeline, _, h₁₁) = >>=-eq-ok _ _ h₁₀ in
    let (r, targets, h₁₂) = >>=-eq-ok _ _ h₁₁ in
    let (_, none_left, h₁₃) = >>-eq-ok _ _ h₁₂ in
    let coherent =
      resolve_targets-IsCoherent spec _ nodes.resolved_nodes pipeline overrides r targets
        (resolve_nodes-AllValid fs _ _ raw_nodes _ nodes resolved tt) in
    let named =
      tool_nodes-All (λ name. has r.routes name ≡ true) trace.nodes
        (names_outside-nil r.routes (tool_trace_names trace.nodes)
          (raise_unless_nil-eq-ok _ _ none_left)) in
    let runnable =
      All-node_by_id (HasRoute r.routes) trace.nodes
        (All-map (λ n. HasRoute-of r n coherent.routed) trace.nodes named) in
    subst
      (λ (x : ResolvedBenchmark).
        IsCoherent (routing_of x) × All (HasRoute x.routes) (node_by_id x.trace.nodes))
      (ok_injective h₁₃) (coherent, runnable)
