-- ===== src/Replay/Run/Complete.antt =====
-- A whole replay of an acyclic trace (`run_node` of atsuite/invoker.py).
use atsuite.Base.{
  ℕ, zero, suc, ◌<◌, ◌≡◌, refl, String, Bool, some, List, [], ◌∷◌, true, nat_eq, arith, inl, inr,
  ◌∙◌, ap, All, Option-cases, dec_lt, length, subst,
}
use atsuite.Base.Dict.{Dict, get, has, All-get}
use atsuite.Base.Json.{Fields}
use atsuite.Base.Int.{ℤ}
use atsuite.Base.Sets.{elem, Unique}
use atsuite.Result.{ok, ◌>>=◌}
use atsuite.Scheduler.{ToolAccess}
use atsuite.Trace.{Edge, Node, Graph, node_by_id}
use atsuite.Trace.Index.{node_by_id-IsIndex}
use atsuite.Replay.Search.{target_ids, successors, get_reachable_nodes}
use atsuite.Replay.Search.Correct.{Reaches, here, along, IsReachableSet, get_reachable_nodes_lem}
use atsuite.Pipeline.Data.{TraceRoute}
use atsuite.Replay.Setup.{zeros, survey}
use atsuite.Replay.Setup.Counts.{survey-Counted, get-zeros}
use atsuite.Replay.Setup.Total.{HasTargets, HasRoute, survey_total}
use atsuite.Replay.Loop.{Plan, State}
use atsuite.Replay.Loop.Invariant.{edges_to, owed, is_live, debt, Inv, IsClosed}
use atsuite.Replay.Loop.Completion.{Locked}
use atsuite.Replay.Loop.Submission.{schedule_ready_nodes-Scheduled}
use atsuite.Replay.Loop.Termination.{IsWait, Finished, main_loop-Finished, Scheduled-to_do}
use atsuite.Replay.Loop.Debts.{owed-Debtor}
use atsuite.Replay.Run.{first_state, run_pool, run_node}
use atsuite.Replay.Run.Start.{first_Inv, first_IsClosed, first_Locked, the_plan}

-- Every edge of the node leads upwards in `rank`.
abbrev pub Rises : (ℕ → ℕ) → ℕ × Node → Type 0
Rises rank (k, node) = All (λ e. rank k < rank e.target_id) node.edge_to

Rises-edges_to :
    (rank : ℕ → ℕ) (edges : List Edge) (r t : ℕ)
    → All (λ e. r < rank e.target_id) edges
    → 0 < edges_to edges t
    → r < rank t
unfolding edges_to
Rises-edges_to rank [] r t h p = absurd (omega arith)
Rises-edges_to rank (e ∷ edges) r t h p = elim (nat_eq.dec e.target_id t) [
  | yes q ↦ subst (λ (x : ℕ). r < rank x) q h.0
  | no n ↦ Rises-edges_to rank edges r t h.1 (ground arith)
]

module _ (p : Plan) (s : State) (rank : ℕ → ℕ) (closed : IsClosed p)
    (rises : All (Rises rank) p.graph) (over : Finished p s) where
  no_debt :
      (n : ℕ)
      → ((m : ℕ) → rank m < rank n → is_live p m ≡ true → elem s.visited m ≡ true)
      → debt p [] s n ≡ 0
  unfolding edges_to elem
  no_debt n below = elim (dec_lt 0 (owed p.reachable s.visited s.pending p.graph n)) [
    | yes more ↦
        let d = owed-Debtor p.reachable s.visited s.pending p.graph n closed.keys_unique more in
        let lower : rank d.id < rank n =
          Rises-edges_to rank d.node.edge_to (rank d.id) n
            (All-get (Rises rank) p.graph d.id d.node rises d.at) d.edge in
        let live : is_live p d.id ≡ true = ground (arith, d.reached, d.at) in
        absurd (ground (arith, d.open_still, below d.id lower live, over.none_pending))
    | no done ↦ omega arith
  ]

  visited_below : (bound n : ℕ) → rank n < bound → is_live p n ≡ true → elem s.visited n ≡ true
  unfolding elem
  visited_below zero n h live = elim h [ ]
  visited_below (suc bound) n h live =
      let zero_debt = no_debt n (λ m lower at. visited_below bound m (omega arith) at) in
      ground (arith, over.inv.noticed n live zero_debt, over.none_ready)

elem-target_ids :
    (g : Graph) (edges : List Edge) (n : ℕ)
    → All (λ e. has g e.target_id ≡ true) edges
    → elem (target_ids edges) n ≡ true
    → has g n ≡ true
unfolding elem
elem-target_ids g [] n h m = cc
elem-target_ids g (e ∷ edges) n h m = elim (nat_eq.dec e.target_id n) [
  | yes q ↦ subst (λ (x : ℕ). has g x ≡ true) q h.0
  | no other ↦ elem-target_ids g edges n h.1 (ground arith)
]

Reaches-has :
    (g : Graph) (start n : ℕ)
    → has g start ≡ true
    → All (HasTargets g) g
    → Reaches g start n
    → has g n ≡ true
unfolding successors elem
Reaches-has g start n h targets here = h
Reaches-has g start n h targets (along {m = m} path step) = elim (Option-cases (get g m)) [
  | inl missing ↦ absurd (ground arith)
  | inr (node, found) ↦
      elem-target_ids g node.edge_to n (All-get (HasTargets g) g m node targets found)
        (ground arith)
]

-- The nodes submitted are those that a path of edges leads to, each once, and all have completed.
pub record RanAll (g : Graph) (start : ℕ) (s : State) : Type 0 where
  pub once : Unique s.visited
  pub only_reached : (n : ℕ) → elem s.visited n ≡ true → Reaches g start n
  pub all_reached : (n : ℕ) → Reaches g start n → elem s.visited n ≡ true
  pub none_pending : s.pending ≡ []
  pub none_ready : s.ready ≡ []

pub record IsRunnable (routes : Dict String TraceRoute) (g : Graph) (start : ℕ) (rank : ℕ → ℕ)
    : Type 0 where
  pub started : has g start ≡ true
  pub targets : All (HasTargets g) g
  pub routed : All (HasRoute routes) g
  pub acyclic : All (Rises rank) g

run_pool-Finished :
    (p : Plan) (succeeds : ℕ → Bool) (wait : ℕ → List ℕ → List ℕ) (s : State)
    → IsClosed p
    → ((n : ℕ) → succeeds n ≡ true)
    → IsWait wait
    → s.pending ≡ []
    → Inv p [] s
    → Locked p s
    → (s' : State) × (run_pool p succeeds wait s ≡ ok s') × Finished p s'
unfolding run_pool
run_pool-Finished p succeeds wait s c good w e v l =
    let (s₁, ran, k) = schedule_ready_nodes-Scheduled p s v l in
    let (s₂, ran₂, over) =
      main_loop-Finished (suc (length p.reachable)) p succeeds wait s₁ c good w
        (omega (arith, Scheduled-to_do p s s₁ v k, ap length e)) k.inv k.locked in
    (s₂, rw ran ran₂, over)

Finished-RanAll :
    (p : Plan) (start : ℕ) (rank : ℕ → ℕ) (s : State)
    → IsReachableSet p.graph start p.reachable
    → IsClosed p
    → has p.graph start ≡ true
    → All (HasTargets p.graph) p.graph
    → All (Rises rank) p.graph
    → Finished p s
    → RanAll p.graph start s
Finished-RanAll p start rank s found c h targets rises over = record {
  once = over.inv.visited_unique;
  only_reached = λ n m. found.sound n (ground (arith, over.inv.visited_live n m));
  all_reached = λ n path.
      visited_below p s rank c rises over (suc (rank n)) n (omega arith)
        (ground (arith, found.complete n path, Reaches-has p.graph start n h targets path));
  none_pending = over.none_pending;
  none_ready = over.none_ready;
}

run_node-run_pool :
    (routes : Dict String TraceRoute) (gated : Bool) (g : Graph) (start : ℕ) (params : Fields)
    (succeeds : ℕ → Bool) (wait : ℕ → List ℕ → List ℕ) (reachable : List ℕ) (a : Dict ℕ ToolAccess)
    (d : Dict ℕ ℤ)
    → get_reachable_nodes g start ≡ some reachable
    → survey routes reachable g ([], zeros g) ≡ ok (a, d)
    → run_node routes gated g start params succeeds wait
      ≡ run_pool
          (the_plan g reachable a d)
          succeeds
          wait
          (first_state gated (the_plan g reachable a d) d params)
unfolding run_node ◌>>=◌
run_node-run_pool routes gated g start params succeeds wait reachable a d e h =
    rw (e, run_node) (rw h)

-- If the start node is in the trace, every edge leads to a node of the trace, every tool node has a
-- route with a valid access, edges strictly raise some rank, every worker succeeds, and the pool
-- reports at least one pending future each round and never one that is not pending, then `run_node`
-- returns without an error, and the nodes it has submitted are those that a path of edges reaches
-- from the start, each exactly once, with none pending or ready at the end.
pub run_node-RanAll :
    (routes : Dict String TraceRoute) (gated : Bool) (nodes : List Node) (start : ℕ)
    (params : Fields) (succeeds : ℕ → Bool) (wait : ℕ → List ℕ → List ℕ) (rank : ℕ → ℕ)
    → IsRunnable routes (node_by_id nodes) start rank
    → ((n : ℕ) → succeeds n ≡ true)
    → IsWait wait
    → (s : State) × (run_node routes gated (node_by_id nodes) start params succeeds wait ≡ ok s)
      × RanAll (node_by_id nodes) start s
unfolding first_state
run_node-RanAll routes gated nodes start params succeeds wait rank r good w =
    let g = node_by_id nodes in
    let x = node_by_id-IsIndex nodes in
    let (reachable, search, found) = get_reachable_nodes_lem g start in
    let (a, d, surveyed) =
      survey_total routes g reachable g [] (zeros g) (λ t. ground (arith, get-zeros g t)) r.targets
        r.routed in
    let c = survey-Counted routes reachable g [] a (zeros g) d x.keyed surveyed in
    let p : Plan = record { graph = g; reachable = reachable; node_access = a } in
    let (s, ran, over) =
      run_pool-Finished p succeeds wait (first_state gated p d params)
        (first_IsClosed g reachable a d x c) good w refl
        (first_Inv g reachable a d gated params x c) (first_Locked g reachable a d gated params) in
    (
      s,
      run_node-run_pool routes gated g start params succeeds wait reachable a d search surveyed
          ∙ ran,
      Finished-RanAll p start rank s found (first_IsClosed g reachable a d x c) r.started r.targets
          r.acyclic over,
    )
