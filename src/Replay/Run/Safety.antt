-- ===== src/Replay/Run/Safety.antt =====
-- What holds in every state that the loop of `run_node` (atsuite/invoker.py) passes through, also
-- before an exception: locks and order.
use atsuite.Base.{
  ℕ, ◌<◌, ◌≡◌, String, Bool, some, List, [], true, nat_eq, arith, inl, inr, Bool-cases, subst, map,
}
use atsuite.Base.Dict.{Dict, get}
use atsuite.Base.Json.{Fields}
use atsuite.Base.Int.{ℤ}
use atsuite.Base.Sets.{elem}
use atsuite.Result.{ok}
use atsuite.Scheduler.{ToolAccess, can_start}
use atsuite.Scheduler.Refinement.{Exclusive, Agrees-Exclusive}
use atsuite.Trace.{Node, node_by_id}
use atsuite.Trace.Index.{node_by_id-IsIndex}
use atsuite.Pipeline.Data.{TraceRoute}
use atsuite.Replay.Setup.{zeros, survey}
use atsuite.Replay.Setup.Counts.{survey-Counted}
use atsuite.Replay.Loop.{Plan, State, access_of, try_node, complete_node}
use atsuite.Replay.Loop.Invariant.{edges_to, completed, Inv, IsClosed}
use atsuite.Replay.Loop.Completion.{Locked, complete_node-Inv}
use atsuite.Replay.Loop.Submission.{submitted, submitted-Inv, submit_node-ready}
use atsuite.Replay.Loop.Debts.{edges_to-le-owed}
use atsuite.Replay.Run.{first_state}
use atsuite.Replay.Run.Start.{first_Inv, first_IsClosed, first_Locked}

-- One turn of the loop: a ready node is tried, or a pending one has completed. The workers choose.
pub data Step (p : Plan) (succeeds : ℕ → Bool) (s t : State) : Type 0 where
  tries :
      (n : ℕ) (b c : Bool)
      → elem s.ready n ≡ true
      → try_node p n (s, b) ≡ ok (t, c)
      → Step p succeeds s t
  completes :
      (n : ℕ) → elem s.pending n ≡ true → complete_node p succeeds n s ≡ ok t → Step p succeeds s t

pub data Steps (p : Plan) (succeeds : ℕ → Bool) (s : State) : State → Type 0 where
  here : Steps p succeeds s s
  next : {t u : State} → Steps p succeeds s t → Step p succeeds t u → Steps p succeeds s u

pub record IsSafe (p : Plan) (s : State) : Type 0 where
  pub inv : Inv p [] s
  pub locked : Locked p s

complete_node-succeeds :
    (p : Plan) (succeeds : ℕ → Bool) (n : ℕ) (s t : State)
    → complete_node p succeeds n s ≡ ok t
    → succeeds n ≡ true
unfolding complete_node
complete_node-succeeds p succeeds n s t h = ground arith

try_node-IsSafe :
    (p : Plan) (n : ℕ) (b c : Bool) (s t : State)
    → elem s.ready n ≡ true
    → try_node p n (s, b) ≡ ok (t, c)
    → IsSafe p s
    → IsSafe p t
unfolding try_node
try_node-IsSafe p n b c s t m h safe = elim (Bool-cases (can_start s.scheduler (access_of p n))) [
  | inl free ↦
      let (sched, ran, l) = submit_node-ready p n s m free safe.inv safe.locked in
      let same : submitted n sched s ≡ t = ground arith in
      subst (IsSafe p) same (record { inv = submitted-Inv p n sched s m safe.inv; locked = l })
  | inr busy ↦ let same : s ≡ t = ground arith in subst (IsSafe p) same safe
]

Step-IsSafe :
    (p : Plan) (succeeds : ℕ → Bool) (s t : State)
    → IsClosed p
    → Step p succeeds s t
    → IsSafe p s
    → IsSafe p t
Step-IsSafe p succeeds s t closed (tries n b c m h) safe = try_node-IsSafe p n b c s t m h safe
Step-IsSafe p succeeds s t closed (completes n m h) safe =
    let (u, ran, v, l, a, b) =
      complete_node-Inv p succeeds n s closed (complete_node-succeeds p succeeds n s t h) m safe.inv
        safe.locked in
    let same : u ≡ t = cc (ran, h) in subst (IsSafe p) same (record { inv = v; locked = l })

Steps-IsSafe :
    (p : Plan) (succeeds : ℕ → Bool) (s : State) {t : State}
    → IsClosed p
    → IsSafe p s
    → Steps p succeeds s t
    → IsSafe p t
Steps-IsSafe p succeeds s closed safe here = safe
Steps-IsSafe p succeeds s closed safe (next {t = t} {u = u} r step) =
    Step-IsSafe p succeeds t u closed step (Steps-IsSafe p succeeds s closed safe r)

-- The plan that `run_node` makes of a survey.
abbrev pub plan_of : List Node → List ℕ → Dict ℕ ToolAccess → Plan
plan_of nodes reachable node_access = record {
  graph = node_by_id nodes;
  reachable = reachable;
  node_access = node_access;
}

module _ (routes : Dict String TraceRoute) (nodes : List Node) (reachable : List ℕ)
    (node_access : Dict ℕ ToolAccess) (in_degree : Dict ℕ ℤ) (gated : Bool) (params : Fields)
    (succeeds : ℕ → Bool) (t : State)
    (surveyed : survey routes reachable (node_by_id nodes) ([], zeros (node_by_id nodes))
      ≡ ok (node_access, in_degree))
    (steps : Steps
      (plan_of nodes reachable node_access)
      succeeds
      (first_state gated (plan_of nodes reachable node_access) in_degree params)
      t) where
  abbrev the_plan : Plan
  the_plan = plan_of nodes reachable node_access

  reached-IsSafe : IsSafe the_plan t
  reached-IsSafe =
      let x = node_by_id-IsIndex nodes in
      let c =
        survey-Counted routes reachable (node_by_id nodes) [] node_access (zeros (node_by_id nodes))
          in_degree x.keyed surveyed in
      Steps-IsSafe the_plan succeeds (first_state gated the_plan in_degree params)
        (first_IsClosed (node_by_id nodes) reachable node_access in_degree x c)
        (record {
          inv = first_Inv (node_by_id nodes) reachable node_access in_degree gated params x c;
          locked = first_Locked (node_by_id nodes) reachable node_access in_degree gated params;
        })
        steps

  -- For any list of reachable nodes for which the survey of accesses and in-degrees returns, after
  -- any sequence of submissions of ready nodes and completions of pending ones from the state in
  -- which `run_node` opens its pool, if a node has been submitted, every reachable node of the
  -- trace with an edge to it has completed: it has been submitted and is no longer pending.
  pub submitted_after_predecessors :
      (n m : ℕ) (node : Node)
      → elem t.visited n ≡ true
      → elem reachable m ≡ true
      → get (node_by_id nodes) m ≡ some node
      → 0 < edges_to node.edge_to n
      → completed t.visited t.pending m ≡ true
  unfolding edges_to
  submitted_after_predecessors n m node v r at edge =
      elim (Bool-cases (completed t.visited t.pending m)) [
        | inl done ↦ done
        | inr waits ↦ absurd (
            omega (
              arith,
              reached-IsSafe.inv.visited_free n v,
              edges_to-le-owed reachable t.visited t.pending (node_by_id nodes) m n node at r waits,
            ))
      ]

  -- For any list of reachable nodes for which the survey of accesses and in-degrees returns, after
  -- any sequence of submissions of ready nodes and completions of pending ones from the state in
  -- which `run_node` opens its pool, if the lock table is enabled, no two pending nodes hold
  -- accesses in conflict.
  pub pending-Exclusive :
      t.scheduler.enabled ≡ true → Exclusive (map (access_of the_plan) t.pending)
  pending-Exclusive on = elim (reached-IsSafe.locked) [
    | inl off ↦ absurd (ground arith)
    | inr agrees ↦ Agrees-Exclusive t.scheduler (map (access_of the_plan) t.pending) agrees
  ]
