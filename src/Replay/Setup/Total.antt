-- ===== src/Replay/Setup/Total.antt =====
-- The survey of `run_node` (atsuite/invoker.py) on a routed trace.
use atsuite.Base.{
  ℕ, ◌≡◌, refl, String, some, List, [], ◌∷◌, true, nat_eq, string_eq, arith, Bool-cases, inl, inr,
  ◌∙◌, All,
}
use atsuite.Base.Dict.{Dict, get, put, has}
use atsuite.Base.Int.{ℤ}
use atsuite.Base.Sets.{elem}
use atsuite.Result.{Result, ok, err}
use atsuite.Scheduler.{ToolAccess}
use atsuite.Trace.{Edge, Node, Graph}
use atsuite.Pipeline.Data.{TraceRoute, tool_access}
use atsuite.Replay.Setup.{count_edge, count_edges, note_access, survey_node, survey}
use atsuite.Replay.Setup.Counts.{count_edge-Counted, survey_node-Counted}

-- Every edge leads to a node.
abbrev pub HasTargets : Graph → ℕ × Node → Type 0
HasTargets g (k, node) = All (λ e. has g e.target_id ≡ true) node.edge_to

-- A tool node has a route, whose access mode is valid.
abbrev pub HasRoute : Dict String TraceRoute → ℕ × Node → Type 0
HasRoute routes (k, node) =
    node.node_type ≡ "tool_use"
    → (route : TraceRoute) × (access : ToolAccess) × (get routes node.name ≡ some route)
      × (tool_access route ≡ ok access)

count_edges_total :
    (g : Graph) (reachable : List ℕ) (edges : List Edge) (d : Dict ℕ ℤ)
    → ((t : ℕ) → has d t ≡ has g t)
    → All (λ e. has g e.target_id ≡ true) edges
    → (d' : Dict ℕ ℤ) × (count_edges reachable edges d ≡ ok d')
unfolding count_edges
count_edges_total g reachable [] d same h = (d, refl)
count_edges_total g reachable (e ∷ edges) d same h =
    let (d₁, ran) = one (count_edge reachable e d) refl in
    let c = count_edge-Counted reachable e d d₁ ran in
    let (d₂, ran₂) = count_edges_total g reachable edges d₁ (λ t. c.same_keys t ∙ same t) h.1 in
    (d₂, rw ran ran₂)
  where
    one :
        (r : Result (Dict ℕ ℤ))
        → count_edge reachable e d ≡ r
        → (d₁ : Dict ℕ ℤ) × (count_edge reachable e d ≡ ok d₁)
    one (ok d₁) q = (d₁, q)
    one (err x) q = absurd (unfold count_edge in ground (arith, same e.target_id, h.0))

note_access_total :
    (routes : Dict String TraceRoute) (k : ℕ) (node : Node) (a : Dict ℕ ToolAccess)
    → HasRoute routes (k, node)
    → (a' : Dict ℕ ToolAccess) × (note_access routes node a ≡ ok a')
unfolding note_access
note_access_total routes k node a h = elim (string_eq.dec node.node_type "tool_use") [
  | yes p ↦ let (route, access, found, valid) = h p in (put a node.node_id access, ground arith)
  | no n ↦ (a, ground arith)
]

survey_node_total :
    (routes : Dict String TraceRoute) (g : Graph) (reachable : List ℕ) (k : ℕ) (node : Node)
    (a : Dict ℕ ToolAccess) (d : Dict ℕ ℤ)
    → ((t : ℕ) → has d t ≡ has g t)
    → HasTargets g (k, node)
    → HasRoute routes (k, node)
    → (a' : Dict ℕ ToolAccess) × (d' : Dict ℕ ℤ) × (survey_node routes reachable node (a, d)
        ≡ ok (a', d'))
unfolding survey_node
survey_node_total routes g reachable k node a d same targets routed =
    let (a', ran) = note_access_total routes k node a routed in
    let (d', ran₂) = count_edges_total g reachable node.edge_to d same targets in
    elim (Bool-cases (elem reachable node.node_id)) [
      | inl r ↦ (a', d', ground arith)
      | inr u ↦ (a, d, ground arith)
    ]

pub survey_total :
    (routes : Dict String TraceRoute) (g : Graph) (reachable : List ℕ) (h : Graph)
    (a : Dict ℕ ToolAccess) (d : Dict ℕ ℤ)
    → ((t : ℕ) → has d t ≡ has g t)
    → All (HasTargets g) h
    → All (HasRoute routes) h
    → (a' : Dict ℕ ToolAccess) × (d' : Dict ℕ ℤ) × (survey routes reachable h (a, d) ≡ ok (a', d'))
unfolding survey
survey_total routes g reachable [] a d same targets routed = (a, d, refl)
survey_total routes g reachable ((k, node) ∷ h) a d same targets routed =
    let (a₁, d₁, ran) = survey_node_total routes g reachable k node a d same targets.0 routed.0 in
    let c = survey_node-Counted routes reachable node a a₁ d d₁ ran in
    let (a₂, d₂, ran₂) =
      survey_total routes g reachable h a₁ d₁ (λ t. c.same_keys t ∙ same t) targets.1 routed.1 in
    (a₂, d₂, rw ran ran₂)
