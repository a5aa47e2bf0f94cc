-- ===== src/Replay/Loop.antt =====
-- The thread pool of `run_node` (atsuite/invoker.py): submission, completion and the main loop. The
-- pool is a parameter: what `wait` returns in each round, and whether a worker raised.
pub mod Invariant
pub mod Delivery
pub mod Completion
pub mod Submission
pub mod Termination
pub mod Debts
use atsuite.Base.{
  ℕ, zero, suc, String, Bool, Option, none, some, List, [], ◌∷◌, ◌++◌, true, false, not, ◌&&◌, ◌||◌,
  nat_eq, string_eq, ◌==◌, if◌then◌else◌, length, leb,
}
use atsuite.Base.Dict.{Dict, get, get_or, put}
use atsuite.Base.Int.{ℤ, pred_ℤ, is_zero}
use atsuite.Base.Json.{Value, obj, Fields, end, find, assign, update}
use atsuite.Base.Sets.{elem, remove}
use atsuite.Base.Sets.Sorted.{sorted}
use atsuite.Result.{Result, ok, err, missing_id, node_failed, exhausted, ◌>>=◌}
use atsuite.Scheduler.{ToolAccess, default_access, AccessScheduler, can_start, start, finish, init}
use atsuite.Trace.{Edge, Node, Graph}
use atsuite.Replay.Search.{get_reachable_nodes}
use atsuite.Pipeline.Data.{TraceRoute}
use atsuite.Replay.Setup.{zeros, survey, first_ready}

-- What the loop reads and never changes.
pub record Plan : Type 0 where
  pub graph : Graph
  pub reachable : List ℕ
  pub node_access : Dict ℕ ToolAccess

-- What the loop changes. `pending` holds the ids of the futures, `incoming` the parameters gathered.
pub record State : Type 0 where
  pub in_degree : Dict ℕ ℤ
  pub incoming : Dict ℕ Fields
  pub ready : List ℕ
  pub pending : List ℕ
  pub visited : List ℕ
  pub scheduler : AccessScheduler

-- `node_access.get(n_id, ToolAccess())`
unfoldable pub access_of : Plan → ℕ → ToolAccess
unfolding get
access_of p n = get_or p.node_access n default_access

-- submit_node
unfoldable pub submit_node : Plan → ℕ → State → Result State
unfolding ◌>>=◌ access_of elem start
submit_node p n s = if not (elem p.reachable n) || elem s.visited n then ok s else (do
  scheduler ← start s.scheduler (access_of p n)
  ok (record s { scheduler = scheduler; visited = n ∷ s.visited; pending = n ∷ s.pending }))

-- One id of the `for` loop of schedule_ready_nodes; the flag is `scheduled`.
unfoldable pub try_node : Plan → ℕ → State × Bool → Result (State × Bool)
unfolding ◌>>=◌ submit_node can_start remove
try_node p n (s, scheduled) =
    if can_start s.scheduler (access_of p n)
    then (do s' ← submit_node p n (record s { ready = remove s.ready n }); ok (s', true))
    else ok (s, scheduled)

unfoldable pub try_nodes : Plan → List ℕ → State × Bool → Result (State × Bool)
unfolding ◌>>=◌ try_node
try_nodes p [] st = ok st
try_nodes p (n ∷ ids) st = try_node p n st >>= try_nodes p ids

-- schedule_ready_nodes: passes over the ready ids until one starts nothing.
unfoldable pub schedule_passes : ℕ → Plan → State → Result State
unfolding ◌>>=◌ try_nodes sorted
schedule_passes zero p s = err exhausted
schedule_passes (suc f) p s = do
  (s', scheduled) ← try_nodes p (sorted s.ready) (s, false)
  let again = schedule_passes f p s'
  if scheduled then again else ok s'

-- A pass that starts something takes it from the ready ids.
unfoldable pub schedule_ready_nodes : Plan → State → Result State
unfolding schedule_passes
schedule_ready_nodes p s = schedule_passes (suc (length s.ready)) p s

both_objects : Value → Value → Fields → Fields
unfolding assign update
both_objects (obj old) (obj new) params = assign params "input" (obj (update old new))
both_objects _ _ params = params

-- The `input` of an edge joins the parameters that its target has gathered.
unfoldable pub merge_input : Fields → Fields → Fields
unfolding both_objects find
merge_input edge_params params = elim (find edge_params "input") [
  | none ↦ params
  | some new ↦ elim (find params "input") [
    | none ↦ assign params "input" new
    | some old ↦ both_objects old new params
  ]
]

-- One edge of a node that has completed.
unfoldable pub deliver_edge : Plan → Edge → State → Result State
unfolding merge_input get put pred_ℤ is_zero
deliver_edge p e s =
    if not (elem p.reachable e.target_id) then ok s else elim (get s.in_degree e.target_id) [
      | none ↦ err (missing_id e.target_id)
      | some d ↦ ok (record s {
        incoming =
            put s.incoming e.target_id (merge_input e.params (get_or s.incoming e.target_id end));
        in_degree = put s.in_degree e.target_id (pred_ℤ d);
        ready = if is_zero (pred_ℤ d) then s.ready ++ e.target_id ∷ [] else s.ready;
      })
    ]

unfoldable pub deliver_edges : Plan → List Edge → State → Result State
unfolding ◌>>=◌ deliver_edge
deliver_edges p [] s = ok s
deliver_edges p (e ∷ edges) s = deliver_edge p e s >>= deliver_edges p edges

-- One future of `done`: the access is given back, a worker's exception is raised again, and the
-- edges are delivered.
unfoldable pub complete_node : Plan → (ℕ → Bool) → ℕ → State → Result State
unfolding deliver_edges finish access_of
complete_node p succeeds n s =
    let s' = record s {
      pending = remove s.pending n;
      scheduler = finish s.scheduler (access_of p n);
    } in
    if succeeds n
    then (elim (get p.graph n) [
      | none ↦ err (missing_id n)
      | some node ↦ deliver_edges p node.edge_to s'
    ])
    else err (node_failed n)

unfoldable pub complete_nodes : Plan → (ℕ → Bool) → List ℕ → State → Result State
unfolding ◌>>=◌ complete_node
complete_nodes p succeeds [] s = ok s
complete_nodes p succeeds (n ∷ done) s =
    complete_node p succeeds n s >>= complete_nodes p succeeds done

is_nil : List ℕ → Bool
is_nil [] = true
is_nil (n ∷ ids) = false

-- The `while pending or ready_nodes` loop; `wait f` is what the pool reports in that round.
unfoldable pub main_loop : ℕ → Plan → (ℕ → Bool) → (ℕ → List ℕ → List ℕ) → State → Result State
unfolding ◌>>=◌ is_nil complete_nodes schedule_ready_nodes
main_loop zero p succeeds wait s = err exhausted
main_loop (suc f) p succeeds wait s = if is_nil s.pending && is_nil s.ready then ok s else (do
  s₁ ← (if is_nil s.pending then schedule_ready_nodes p s else ok s)
  let round = complete_nodes p succeeds (wait f s₁.pending) s₁ >>= schedule_ready_nodes p
  let rest = round >>= main_loop f p succeeds wait
  if is_nil s₁.pending then ok s₁ else rest)
