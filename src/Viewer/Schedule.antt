-- ===== src/Viewer/Schedule.antt =====
-- compute_scheduled_start_times of atsuite/cli/trace_viewer_metadata.py: a simulation of the run, in
-- which at most one stateful tool runs at a time. The heap of running nodes is a sorted list.
pub mod Heap
pub mod Debts
pub mod Degrees
pub mod Order
pub mod Invariant
pub mod Steps
pub mod Disjoint
pub mod Ordered
pub mod Progress
pub mod Released
pub mod Started
use atsuite.Base.{
  ℕ, zero, suc, ◌+◌, String, Bool, Option, none, some, List, [], ◌∷◌, true, false, not, ◌&&◌, ◌||◌,
  nat_eq, string_eq, ◌==◌, if◌then◌else◌, length, ltb,
}
use atsuite.Base.Dict.{Dict, get, get_or, has, put, keys}
use atsuite.Base.Int.{ℤ, pos, suc_ℤ, pred_ℤ, is_zero}
use atsuite.Base.Sets.{elem, add, remove}
use atsuite.Base.Sets.Sorted.{sorted}
use atsuite.Viewer.{ViewNode, ViewGraph, is_tool_node, display_duration, build_node_by_id}

-- An entry of the heap: when a node ends, when it was submitted, and its id.
pub record Running : Type 0 where
  pub end_time : ℕ
  pub order : ℕ
  pub node : ℕ

-- Tuples compare by their first difference; no two entries have the same order.
unfoldable pub runs_before : Running → Running → Bool
runs_before a b =
    if ltb a.end_time b.end_time
    then true
    else if ltb b.end_time a.end_time
    then false
    else ltb a.order b.order

-- `heappush`
unfoldable pub heappush : Running → List Running → List Running
unfolding runs_before
heappush a [] = a ∷ []
heappush a (b ∷ heap) = if runs_before a b then a ∷ b ∷ heap else b ∷ heappush a heap

pub record Schedule : Type 0 where
  pub in_degree : Dict ℕ ℤ
  pub ready : List ℕ
  pub start_time_by_id : Dict ℕ ℕ
  pub pending : List Running
  pub submitted : List ℕ
  pub current_time : ℕ
  pub active : Option ℕ
  pub submission_order : ℕ

unfoldable pub all_zero : ViewGraph → Dict ℕ ℤ
all_zero [] = []
all_zero ((k, node) ∷ g) = (k, pos 0) ∷ all_zero g

-- `if target_id in in_degree: in_degree[target_id] += 1`
unfoldable pub count_edges : List ℕ → Dict ℕ ℤ → Dict ℕ ℤ
unfolding get put suc_ℤ
count_edges [] d = d
count_edges (target ∷ targets) d =
    count_edges targets (elim (get d target) [ none ↦ d | some n ↦ put d target (suc_ℤ n) ])

unfoldable pub count_incoming : List ViewNode → Dict ℕ ℤ → Dict ℕ ℤ
unfolding count_edges
count_incoming [] d = d
count_incoming (node ∷ nodes) d = count_incoming nodes (count_edges node.targets d)

-- _build_node_maps; its set of reachable nodes is that of the keys
unfoldable pub build_node_maps : List ViewNode → ViewGraph × Dict ℕ ℤ
unfolding build_node_by_id count_incoming all_zero
build_node_maps nodes = let g = build_node_by_id nodes in (g, count_incoming nodes (all_zero g))

-- What the simulation reads and never changes.
pub record Input : Type 0 where
  pub graph : ViewGraph
  pub stateful : List String

-- Of a node by id: `_is_tool_node`, `is_stateful_tool_node`, `_display_duration_ms`.
unfoldable pub is_tool_id : Input → ℕ → Bool
unfolding get is_tool_node
is_tool_id p n = elim (get p.graph n) [ none ↦ false | some node ↦ is_tool_node node ]

unfoldable pub is_stateful_tool_node : Input → ℕ → Bool
unfolding get is_tool_node elem
is_stateful_tool_node p n = elim (get p.graph n) [
  | none ↦ false
  | some node ↦ is_tool_node node && elem p.stateful node.name
]

unfoldable pub duration_of : Input → ℕ → ℕ
unfolding get display_duration
duration_of p n = elim (get p.graph n) [ none ↦ 0 | some node ↦ display_duration node ]

-- submit_node
unfoldable pub submit_view_node : Input → ℕ → Schedule → Schedule
unfolding elem get heappush duration_of put
submit_view_node p n s = if elem s.submitted n || not (has p.graph n) then s else record s {
  submitted = n ∷ s.submitted;
  start_time_by_id = put s.start_time_by_id n s.current_time;
  pending =
      heappush
        (record {
          end_time = s.current_time + duration_of p n;
          order = s.submission_order;
          node = n;
        })
        s.pending;
  submission_order = suc s.submission_order;
}

-- `ready_nodes.remove(node_id); submit_node(node_id)`
unfoldable pub take_ready : Input → ℕ → Schedule → Schedule
unfolding remove submit_view_node
take_ready p n s = submit_view_node p n (record s { ready = remove s.ready n })

unfoldable pub take_all : Input → List ℕ → Schedule → Schedule
unfolding take_ready
take_all p [] s = s
take_all p (n ∷ ids) s = take_all p ids (take_ready p n s)

unfoldable pub non_tools : Input → List ℕ → List ℕ
unfolding is_tool_id
non_tools p [] = []
non_tools p (n ∷ ids) = let rest = non_tools p ids in if is_tool_id p n then rest else n ∷ rest

unfoldable pub stateful_tools : Input → List ℕ → List ℕ
unfolding is_stateful_tool_node
stateful_tools p [] = []
stateful_tools p (n ∷ ids) =
    let rest = stateful_tools p ids in if is_stateful_tool_node p n then n ∷ rest else rest

-- The tools: none while a stateful one runs, else the first stateful one alone, else all of them.
unfoldable pub start_tools : Input → Option ℕ → List ℕ → Schedule → Schedule
unfolding sorted take_ready take_all
start_tools p (some n) stateful s = s
start_tools p none (chosen ∷ others) s = take_ready p chosen (record s { active = some chosen })
start_tools p none [] s = take_all p (sorted s.ready) s

unfoldable pub schedule_tools : Input → Schedule → Schedule
unfolding sorted stateful_tools start_tools
schedule_tools p s = start_tools p s.active (sorted (stateful_tools p s.ready)) s

-- schedule_ready_nodes
unfoldable pub schedule_view_nodes : Input → Schedule → Schedule
unfolding sorted non_tools take_all schedule_tools
schedule_view_nodes p s = schedule_tools p (take_all p (sorted (non_tools p s.ready)) s)

-- `in_degree[target_id] -= 1`, and the target is ready at zero
unfoldable pub release_at : Option ℤ → ℕ → Schedule → Schedule
unfolding put pred_ℤ is_zero add
release_at none n s = s
release_at (some d) n s = record s {
  in_degree = put s.in_degree n (pred_ℤ d);
  ready = if is_zero (pred_ℤ d) then add s.ready n else s.ready;
}

unfoldable pub release_target : ℕ → Schedule → Schedule
unfolding get release_at
release_target n s = release_at (get s.in_degree n) n s

unfoldable pub release_targets : List ℕ → Schedule → Schedule
unfolding release_target
release_targets [] s = s
release_targets (n ∷ targets) s = release_targets targets (release_target n s)

-- `if completed_node_id == active_stateful_node: active_stateful_node = None`
unfoldable pub deactivate : ℕ → Option ℕ → Option ℕ
deactivate n none = none
deactivate n (some m) = if n == m then none else some m

unfoldable pub targets_of : Input → ℕ → List ℕ
unfolding get
targets_of p n = elim (get p.graph n) [ none ↦ [] | some node ↦ node.targets ]

-- One node of `for completed_node_id in completed`.
unfoldable pub complete_view_node : Input → ℕ → Schedule → Schedule
unfolding deactivate release_targets targets_of
complete_view_node p n s =
    release_targets (targets_of p n) (record s { active = deactivate n s.active })

unfoldable pub complete_view_nodes : Input → List ℕ → Schedule → Schedule
unfolding complete_view_node
complete_view_nodes p [] s = s
complete_view_nodes p (n ∷ ids) s = complete_view_nodes p ids (complete_view_node p n s)

-- `while pending and pending[0][0] == current_time: completed.append(heappop(pending)[2])`: the ids
-- that end at a time, and the heap that is left
unfoldable pub pop_at : ℕ → List Running → List ℕ × List Running
pop_at t [] = ([], [])
pop_at t (a ∷ heap) =
    let rest = pop_at t heap in
    if a.end_time == t then (a.node ∷ rest.0, rest.1) else ([], a ∷ heap)

-- The body of the loop, once something is pending.
unfoldable pub advance : Input → Running → List Running → Schedule → Schedule
unfolding pop_at complete_view_nodes schedule_view_nodes
advance p first heap s =
    let popped = pop_at first.end_time heap in
    schedule_view_nodes p (
      complete_view_nodes p (first.node ∷ popped.0)
        (record s { current_time = first.end_time; pending = popped.1 }))

-- A turn of the loop goes on by `next`, or breaks where nothing is pending.
unfoldable pub resume :
    (Schedule → Option Schedule) → Input → List Running → Schedule → Option Schedule
unfolding advance
resume next p [] s = some s
resume next p (first ∷ heap) s = next (advance p first heap s)

-- Where nothing is pending, the nodes that are ready are scheduled first.
unfoldable pub turn :
    (Schedule → Option Schedule) → Input → List Running → List ℕ → Schedule → Option Schedule
unfolding schedule_view_nodes advance resume
turn next p (first ∷ heap) ready s = next (advance p first heap s)
turn next p [] [] s = some s
turn next p [] (n ∷ ready) s = let s' = schedule_view_nodes p s in resume next p s'.pending s'

-- `while pending or ready_nodes`
unfoldable pub simulate : ℕ → Input → Schedule → Option Schedule
unfolding turn
simulate zero p s = none
simulate (suc f) p s = turn (simulate f p) p s.pending s.ready s

unfoldable pub zero_ids : Dict ℕ ℤ → List ℕ
unfolding is_zero
zero_ids [] = []
zero_ids ((k, d) ∷ rest) = let ids = zero_ids rest in if is_zero d then k ∷ ids else ids

unfoldable pub first_schedule : Dict ℕ ℤ → Schedule
unfolding zero_ids
first_schedule in_degree = record {
  in_degree = in_degree;
  ready = zero_ids in_degree;
  start_time_by_id = [];
  pending = [];
  submitted = [];
  current_time = 0;
  active = none;
  submission_order = 0;
}

-- compute_scheduled_start_times: the state at the end of the loop, which takes a node off the heap in
-- each turn, so that a turn for each node and one more are enough
unfoldable pub run_schedule : List ViewNode → List String → Option Schedule
unfolding build_node_maps simulate schedule_view_nodes first_schedule
run_schedule nodes stateful =
    let (g, in_degree) = build_node_maps nodes in
    let p : Input = record { graph = g; stateful = stateful } in
    simulate (suc (length g)) p (schedule_view_nodes p (first_schedule in_degree))

-- Its result, by numeric id.
unfoldable pub compute_scheduled_start_times : List ViewNode → List String → Option (Dict ℕ ℕ)
unfolding run_schedule
compute_scheduled_start_times nodes stateful = elim (run_schedule nodes stateful) [
  | none ↦ none
  | some s ↦ some s.start_time_by_id
]
