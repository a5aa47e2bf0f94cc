-- ===== src/Viewer/Schedule/Started.antt =====
-- Whole runs of compute_scheduled_start_times (atsuite/cli/trace_viewer_metadata.py): how they stop,
-- and what has started by then.
use atsuite.Base.{
  ℕ, zero, suc, String, ◌≤◌, ◌<◌, ◌≡◌, refl, sym, ap, subst, ◌∙◌, true, false, Option, none, some,
  List, [], ◌∷◌, ◌++◌, nat_eq, length, arith, All, dec_lt, Bool-cases, inl, inr,
}
use atsuite.Base.Dict.{Dict, get, has, keys}
use atsuite.Base.Sets.{elem, count, Unique, count-not_elem}
use atsuite.Viewer.{ViewNode, build_node_by_id}
use atsuite.Viewer.Schedule.{
  Running, Schedule, Input, complete_view_nodes, pop_at, advance, schedule_view_nodes, resume, turn,
  simulate, first_schedule, run_schedule, compute_scheduled_start_times, build_node_maps,
}
use atsuite.Viewer.Schedule.Invariant.{Inv}
use atsuite.Viewer.Schedule.Steps.{schedule_view_nodes-Keeps}
use atsuite.Viewer.Schedule.Debts.{owes, owes-Debtor, ids_of, build_node_by_id-Unique}
use atsuite.Viewer.Schedule.Degrees.{
  first_ready-Unique, degree_covered, degree_in_graph, first_ready-has, owes-first_ready,
}
use atsuite.Viewer.Schedule.Order.{InOrder-later, nodes_of, pop_at-nodes, schedule_view_nodes-Waits}
use atsuite.Viewer.Schedule.Disjoint.{
  input_of, popped-EndsAt, advance-Inv, first_schedule-Inv, run_schedule-Inv,
}
use atsuite.Viewer.Schedule.Ordered.{complete_view_nodes-pending, first_schedule-Waits}
use atsuite.Viewer.Schedule.Progress.{
  Live, Goes, all_ended, schedule_view_nodes-Goes, schedule_view_nodes-settles,
}
use atsuite.Viewer.Schedule.Released.{Steady, complete_view_nodes-Steady}

module _ (p : Input) where
  module _ (unique : Unique (keys p.graph)) where
    abbrev Going : Schedule → Type 0
    Going s = (ended : List ℕ) × Steady p ended (nodes_of s.pending) s

    goes : (ended : List ℕ) (s : Schedule) → Steady p ended (nodes_of s.pending) s → Goes p ended s
    goes ended s k = record { live = k.lives; busy = k.busy }

    schedule_view_nodes-Going : (s : Schedule) → Going s → Going (schedule_view_nodes p s)
    schedule_view_nodes-Going s (ended, k) =
        let g = schedule_view_nodes-Goes p ended s (goes ended s k) in
        (
          ended,
          record {
            order = schedule_view_nodes-Waits p ended s k.order;
            lives = g.live;
            busy = g.busy;
          },
        )

    advance-Going :
        (first : Running) (heap : List Running) (s : Schedule)
        → s.pending ≡ first ∷ heap
        → Inv p s
        → Going s
        → Going (advance p first heap s)
    unfolding advance
    advance-Going first heap s e inv (ended, k) =
        let out = pop_at first.end_time heap in
        let ids = first.node ∷ out.0 in
        let s' = record s { current_time = first.end_time; pending = out.1 } in
        let live : nodes_of s.pending ≡ ids ++ nodes_of out.1 =
          ap nodes_of e ∙ sym (ap (◌∷◌ first.node) (pop_at-nodes first.end_time heap)) in
        let late = (subst (All (λ a. s.current_time ≤ a.end_time)) e inv.late).0 in
        let k' : Steady p ended (ids ++ nodes_of out.1) s' =
          subst (λ xs. Steady p ended xs s') live
            (record {
              order =
                  InOrder-later p ended (nodes_of s.pending) first.end_time out.1 s late k.order;
              lives = k.lives;
              busy = k.busy;
            }) in
        let (ended', done) =
          complete_view_nodes-Steady p unique ids (nodes_of out.1) ended s'
            (popped-EndsAt p first heap s e inv) k' in
        schedule_view_nodes-Going (complete_view_nodes p ids s') (
          ended',
          subst (λ heap. Steady p ended' (nodes_of heap) (complete_view_nodes p ids s'))
              (sym (complete_view_nodes-pending p ids s')) done,
        )

    -- How a run stops: nothing runs and nothing is ready.
    record Stopped (s : Schedule) : Type 0 where
      ended : List ℕ
      goes_on : Goes p ended s
      idle : s.pending ≡ []
      none_ready : (n : ℕ) → elem s.ready n ≡ false

    Outcome : (Schedule → Option Schedule) → Type 0
    Outcome next = (t t' : Schedule) → next t ≡ some t' → Inv p t → Going t → Stopped t'

    stop :
        (s s' : Schedule)
        → some s ≡ some s'
        → s.pending ≡ []
        → ((n : ℕ) → elem s.ready n ≡ false)
        → Going s
        → Stopped s'
    stop s s' h idle none_ready (ended, k) =
        let same : s ≡ s' = cc in
        subst Stopped same
          (record { ended = ended; goes_on = goes ended s k; idle = idle; none_ready = none_ready })

    resume-Stopped :
        (next : Schedule → Option Schedule) (pending : List Running) (s s' : Schedule)
        → Outcome next
        → s.pending ≡ pending
        → (s.pending ≡ [] → (n : ℕ) → elem s.ready n ≡ false)
        → resume next p pending s ≡ some s'
        → Inv p s
        → Going s
        → Stopped s'
    unfolding resume Outcome
    resume-Stopped next [] s s' ih e settles h inv k = stop s s' h e (settles e) k
    resume-Stopped next (first ∷ heap) s s' ih e settles h inv k =
        ih (advance p first heap s) s' h (advance-Inv p first heap s e inv).0
          (advance-Going first heap s e inv k)

    turn-Stopped :
        (next : Schedule → Option Schedule) (pending : List Running) (ready : List ℕ)
        (s s' : Schedule)
        → Outcome next
        → s.pending ≡ pending
        → s.ready ≡ ready
        → turn next p pending ready s ≡ some s'
        → Inv p s
        → Going s
        → Stopped s'
    unfolding turn Outcome elem
    turn-Stopped next (first ∷ heap) ready s s' ih e r h inv k =
        ih (advance p first heap s) s' h (advance-Inv p first heap s e inv).0
          (advance-Going first heap s e inv k)
    turn-Stopped next [] [] s s' ih e r h inv k = stop s s' h e (λ n. ap (λ xs. elem xs n) r) k
    turn-Stopped next [] (n ∷ ready) s s' ih e r h inv (ended, k) =
        resume-Stopped next _ (schedule_view_nodes p s) s' ih refl
          (schedule_view_nodes-settles p ended s (goes ended s k)) h
          (schedule_view_nodes-Keeps p s inv).inv (schedule_view_nodes-Going s (ended, k))

    simulate-Stopped : (f : ℕ) → Outcome (simulate f p)
    unfolding simulate Outcome
    simulate-Stopped zero s s' h inv k = cc
    simulate-Stopped (suc f) s s' h inv k =
        turn-Stopped (simulate f p) s.pending s.ready s s' (simulate-Stopped f) refl refl h inv k

    -- A node that was left out would wait for one that was, and so on without end.
    module _ (s : Schedule) (k : Stopped s) (rank : ℕ → ℕ)
        (rises : (n m : ℕ) (node : ViewNode)
          → get p.graph n ≡ some node
          → elem node.targets m ≡ true
          → rank n < rank m) where
      all_submitted : (f m : ℕ) → rank m < f → has p.graph m ≡ true → elem s.submitted m ≡ true
      unfolding count
      all_submitted zero m less known = elim less [ ]
      all_submitted (suc f) m less known = elim (dec_lt 0 (owes p.graph k.ended m)) [
        | no paid ↦ elim (k.goes_on.live.paid_known m known (omega arith)) [
          | inl ready ↦ let none_there = k.none_ready m in absurd (ground arith)
          | inr done ↦ done
        ]
        | yes more ↦
            let d = owes-Debtor p.graph k.ended m unique more in
            let edge : elem d.node.targets m ≡ true = elim (Bool-cases (elem d.node.targets m)) [
              | inl e ↦ e
              | inr e ↦ absurd (omega (arith, d.edge, count-not_elem d.node.targets m e))
            ] in
            let less' = rises d.id m d.node d.at edge in
            let known' : has p.graph d.id ≡ true =
              ap (λ o. elim o [ none ↦ false | some x ↦ true ]) d.at in
            let done =
              all_ended p k.ended s d.id k.goes_on k.idle
                (all_submitted f d.id (omega arith) known') in
            absurd (ground (arith, d.open_still))
      ]

      all_started : (m : ℕ) → has p.graph m ≡ true → (t : ℕ) × (get s.start_time_by_id m ≡ some t)
      all_started m known =
          k.goes_on.live.started m (all_submitted (suc (rank m)) m (omega arith) known)

-- At first nothing runs, and what has no incoming edge is ready.
first_schedule-Live :
    (nodes : List ViewNode) (stateful : List String)
    → Unique (ids_of nodes)
    → Live (input_of nodes stateful) [] [] [] (first_schedule (build_node_maps nodes).1)
unfolding first_schedule elem count
first_schedule-Live nodes stateful u = record {
  covered = degree_covered nodes;
  in_graph = degree_in_graph nodes;
  paid_known = λ m known paid. inl (owes-first_ready nodes m u known (omega arith));
  started = λ m h. cc;
  runs = λ m h. cc;
  ended_known = λ m h. cc;
  ready_known = first_ready-has nodes;
  ready_new = λ m h. refl;
  ready_unique = first_ready-Unique nodes;
}

run_schedule-Stopped :
    (nodes : List ViewNode) (stateful : List String) (s : Schedule)
    → Unique (ids_of nodes)
    → run_schedule nodes stateful ≡ some s
    → Stopped (input_of nodes stateful) (build_node_by_id-Unique nodes) s
unfolding run_schedule build_node_maps Outcome first_schedule
run_schedule-Stopped nodes stateful s u h =
    let p = input_of nodes stateful in
    let unique = build_node_by_id-Unique nodes in
    let first = first_schedule (build_node_maps nodes).1 in
    let k : Steady p [] [] first = record {
      order = first_schedule-Waits nodes stateful u;
      lives = first_schedule-Live nodes stateful u;
      busy = λ a e. cc;
    } in
    simulate-Stopped p unique (suc (length p.graph)) (schedule_view_nodes p first) s h
      (schedule_view_nodes-Keeps p first (first_schedule-Inv p (build_node_maps nodes).1)).inv
      (schedule_view_nodes-Going p unique first ([], k))

-- If the ids of the nodes are distinct and the edges of the nodes strictly raise some rank, the
-- simulation of `compute_scheduled_start_times` ends and returns start times in which every node of
-- the trace has one.
pub compute_scheduled_start_times-started :
    (nodes : List ViewNode) (stateful : List String) (rank : ℕ → ℕ)
    → Unique (ids_of nodes)
    → ((n m : ℕ) (node : ViewNode)
        → get (build_node_by_id nodes) n ≡ some node
        → elem node.targets m ≡ true
        → rank n < rank m)
    → (starts : Dict ℕ ℕ) × (compute_scheduled_start_times nodes stateful ≡ some starts)
      × ((m : ℕ) → has (build_node_by_id nodes) m ≡ true → (t : ℕ) × (get starts m ≡ some t))
unfolding compute_scheduled_start_times
compute_scheduled_start_times-started nodes stateful rank u rises =
    let (s, e, inv) = run_schedule-Inv nodes stateful in
    (
      s.start_time_by_id,
      rw (e, compute_scheduled_start_times),
      all_started (input_of nodes stateful) (build_node_by_id-Unique nodes) s
          (run_schedule-Stopped nodes stateful s u e) rank rises,
    )
