-- ===== src/Viewer/Schedule/Disjoint.antt =====
-- A whole run of compute_scheduled_start_times (atsuite/cli/trace_viewer_metadata.py).
use atsuite.Base.{
  ℕ, zero, suc, String, ◌+◌, ◌≤◌, ◌<◌, ◌≡◌, ◌⊎◌, refl, sym, ap, subst, ◌∙◌, Option, none, some,
  List, [], ◌∷◌, nat_eq, length, arith, All, All-map, inl, inr,
}
use atsuite.Base.Dict.{Dict, get, get-nil}
use atsuite.Base.Int.{ℤ}
use atsuite.Viewer.{ViewNode, build_node_by_id}
use atsuite.Viewer.Schedule.{
  Running, Schedule, Input, duration_of, release_at, release_target, release_targets, deactivate,
  targets_of, complete_view_node, complete_view_nodes, pop_at, advance, schedule_view_nodes, resume,
  turn, simulate, first_schedule, run_schedule, compute_scheduled_start_times, build_node_maps,
}
use atsuite.Viewer.Schedule.Heap.{IsHeap, pop_at-Popped, length-pop_at, unsubmitted-le-length}
use atsuite.Viewer.Schedule.Invariant.{Ends, Apart, Inv, cost, Keeps, Keeps-trans}
use atsuite.Viewer.Schedule.Steps.{
  schedule_view_nodes-Keeps, release_targets-Keeps, EndsAt, settled-deactivate,
}

pub release_at-same :
    (d : Option ℤ) (n : ℕ) (s : Schedule)
    → ((release_at d n s).start_time_by_id ≡ s.start_time_by_id)
      × ((release_at d n s).current_time ≡ s.current_time)
unfolding release_at
release_at-same none n s = (refl, refl)
release_at-same (some d) n s = (refl, refl)

module _ (p : Input) where
  -- A step on the completed nodes: the clock and the starts stay.
  record Completes (s s' : Schedule) : Type 0 where
    keeps : Keeps p s s'
    starts_same : s'.start_time_by_id ≡ s.start_time_by_id
    now_same : s'.current_time ≡ s.current_time

  pub release_targets-same :
      (targets : List ℕ) (s : Schedule)
      → ((release_targets targets s).start_time_by_id ≡ s.start_time_by_id)
        × ((release_targets targets s).current_time ≡ s.current_time)
  unfolding release_targets release_target
  release_targets-same [] s = (refl, refl)
  release_targets-same (n ∷ targets) s =
      let (starts, now) = release_targets-same targets (release_target n s) in
      let (starts', now') = release_at-same (get s.in_degree n) n s in
      (starts ∙ starts', now ∙ now')

  complete_view_node-Completes :
      (n : ℕ) (s : Schedule)
      → EndsAt p s.start_time_by_id s.current_time n
      → Inv p s
      → Completes s (complete_view_node p n s)
  unfolding complete_view_node
  complete_view_node-Completes n s ends v =
      let s' = record s { active = deactivate n s.active } in
      let v' : Inv p s' = record {
        late = v.late;
        is_heap = v.is_heap;
        entries = v.entries;
        fresh = v.fresh;
        settled = λ m t stateful found.
            settled-deactivate p n s.active s.start_time_by_id s.current_time m t ends found
              (v.settled m t stateful found);
        apart = v.apart;
      } in
      let k = release_targets-Keeps p (targets_of p n) s' v' in
      let (starts, now) = release_targets-same (targets_of p n) s' in
      record { keeps = record { inv = k.inv; work = k.work }; starts_same = starts; now_same = now }

  complete_view_nodes-Keeps :
      (ids : List ℕ) (s : Schedule)
      → All (EndsAt p s.start_time_by_id s.current_time) ids
      → Inv p s
      → Keeps p s (complete_view_nodes p ids s)
  unfolding complete_view_nodes
  complete_view_nodes-Keeps [] s ends v = record { inv = v; work = omega arith }
  complete_view_nodes-Keeps (n ∷ ids) s ends v =
      let c = complete_view_node-Completes n s ends.0 v in
      let s' = complete_view_node p n s in
      let ends' : All (EndsAt p s'.start_time_by_id s'.current_time) ids =
        subst (λ d. All (EndsAt p d s'.current_time) ids) (sym c.starts_same)
          (subst (λ now. All (EndsAt p s.start_time_by_id now) ids) (sym c.now_same) ends.1) in
      Keeps-trans p c.keeps (complete_view_nodes-Keeps ids s' ends' c.keeps.inv)

  settled_later :
      (t : ℕ) {active : Option ℕ} {now : ℕ} (m u : ℕ)
      → now ≤ t
      → (active ≡ some m) ⊎ (u + duration_of p m ≤ now)
      → (active ≡ some m) ⊎ (u + duration_of p m ≤ t)
  settled_later t m u le (inl busy) = inl busy
  settled_later t m u le (inr done) = inr (omega arith)

  ends_at :
      (starts : Dict ℕ ℕ) (n now : ℕ)
      → (a : Running) × (a.node ≡ n) × (a.end_time ≡ now) × Ends p starts a
      → EndsAt p starts now n
  ends_at starts n now (a, same, at, (t, found, ends)) =
      subst (EndsAt p starts now) same (t, found, sym at ∙ ends)

  -- What is popped ends now.
  pub popped-EndsAt :
      (first : Running) (heap : List Running) (s : Schedule)
      → s.pending ≡ first ∷ heap
      → Inv p s
      → All
          (EndsAt p s.start_time_by_id first.end_time)
          (first.node ∷ (pop_at first.end_time heap).0)
  popped-EndsAt first heap s e v =
      let is_heap = subst IsHeap e v.is_heap in
      let entries = subst (All (Ends p s.start_time_by_id)) e v.entries in
      let popped =
        pop_at-Popped (Ends p s.start_time_by_id) first.end_time heap is_heap.1 entries.1
          is_heap.0 in
      (
        entries.0,
        All-map (λ n h. ends_at s.start_time_by_id n first.end_time h)
            (pop_at first.end_time heap).0 popped.ended,
      )

  -- A turn keeps the invariant, and takes a node off the heap.
  pub advance-Inv :
      (first : Running) (heap : List Running) (s : Schedule)
      → s.pending ≡ first ∷ heap
      → Inv p s
      → Inv p (advance p first heap s) × (cost p (advance p first heap s) < cost p s)
  unfolding advance
  advance-Inv first heap s e v =
      let late = subst (All (λ a. s.current_time ≤ a.end_time)) e v.late in
      let is_heap = subst IsHeap e v.is_heap in
      let entries = subst (All (Ends p s.start_time_by_id)) e v.entries in
      let popped =
        pop_at-Popped (Ends p s.start_time_by_id) first.end_time heap is_heap.1 entries.1
          is_heap.0 in
      let out = pop_at first.end_time heap in
      let s' = record s { current_time = first.end_time; pending = out.1 } in
      let v' : Inv p s' = record {
        late = popped.late;
        is_heap = popped.is_heap;
        entries = popped.kept;
        fresh = v.fresh;
        settled = λ m t stateful found.
            settled_later first.end_time m t late.0 (v.settled m t stateful found);
        apart = v.apart;
      } in
      let ends = popped-EndsAt first heap s e v in
      let k = complete_view_nodes-Keeps (first.node ∷ out.0) s' ends v' in
      let k' = schedule_view_nodes-Keeps p (complete_view_nodes p (first.node ∷ out.0) s') k.inv in
      (k'.inv, omega (arith, k.work, k'.work, length-pop_at first.end_time heap, ap length e))

  resume-Ended :
      (f : ℕ) (pending : List Running) (s : Schedule)
      → s.pending ≡ pending
      → ((t : Schedule)
          → cost p t < f
          → Inv p t
          → (t' : Schedule) × (simulate f p t ≡ some t') × Inv p t')
      → cost p s < suc f
      → Inv p s
      → (s' : Schedule) × (resume (simulate f p) p pending s ≡ some s') × Inv p s'
  unfolding resume
  resume-Ended f [] s e ih h v = (s, refl, v)
  resume-Ended f (first ∷ heap) s e ih h v =
      let (v', less) = advance-Inv first heap s e v in ih (advance p first heap s) (omega arith) v'

  turn-Ended :
      (f : ℕ) (pending : List Running) (ready : List ℕ) (s : Schedule)
      → s.pending ≡ pending
      → ((t : Schedule)
          → cost p t < f
          → Inv p t
          → (t' : Schedule) × (simulate f p t ≡ some t') × Inv p t')
      → cost p s < suc f
      → Inv p s
      → (s' : Schedule) × (turn (simulate f p) p pending ready s ≡ some s') × Inv p s'
  unfolding turn
  turn-Ended f (first ∷ heap) ready s e ih h v =
      let (v', less) = advance-Inv first heap s e v in ih (advance p first heap s) (omega arith) v'
  turn-Ended f [] [] s e ih h v = (s, refl, v)
  turn-Ended f [] (n ∷ ready) s e ih h v =
      let k = schedule_view_nodes-Keeps p s v in
      resume-Ended f _ (schedule_view_nodes p s) refl ih (omega (arith, k.work)) k.inv

  simulate-Ended :
      (f : ℕ) (s : Schedule)
      → cost p s < f
      → Inv p s
      → (s' : Schedule) × (simulate f p s ≡ some s') × Inv p s'
  unfolding simulate
  simulate-Ended zero s h v = elim h [ ]
  simulate-Ended (suc f) s h v = turn-Ended f s.pending s.ready s refl (simulate-Ended f) h v

  pub first_schedule-Inv : (d : Dict ℕ ℤ) → Inv p (first_schedule d)
  unfolding first_schedule
  first_schedule-Inv d = record {
    late = tt;
    is_heap = tt;
    entries = tt;
    fresh = λ n h. get-nil n;
    settled = λ m t stateful found. cc (get-nil {V = ℕ} m);
    apart = λ n m t u sn sm differ found found'. cc (get-nil {V = ℕ} n);
  }

  first_schedule-cost : (d : Dict ℕ ℤ) → cost p (first_schedule d) ≤ length p.graph
  unfolding first_schedule
  first_schedule-cost d = omega (arith, unsubmitted-le-length p.graph [])

-- What the run is given to read.
abbrev pub input_of : List ViewNode → List String → Input
input_of nodes stateful = record { graph = build_node_by_id nodes; stateful = stateful }

pub run_schedule-Inv :
    (nodes : List ViewNode) (stateful : List String)
    → (s : Schedule) × (run_schedule nodes stateful ≡ some s) × Inv (input_of nodes stateful) s
unfolding run_schedule build_node_maps
run_schedule-Inv nodes stateful =
    let p = input_of nodes stateful in
    let in_degree = (build_node_maps nodes).1 in
    let k =
      schedule_view_nodes-Keeps p (first_schedule in_degree) (first_schedule-Inv p in_degree) in
    simulate-Ended p (suc (length p.graph)) (schedule_view_nodes p (first_schedule in_degree))
      (omega (arith, k.work, first_schedule-cost p in_degree)) k.inv

-- For any nodes and names of stateful tools, the simulation of `compute_scheduled_start_times` ends
-- and returns start times, and of any two different stateful tools that have a start time one has
-- ended, by its display duration, when the other starts.
pub compute_scheduled_start_times-Apart :
    (nodes : List ViewNode) (stateful : List String)
    → (starts : Dict ℕ ℕ) × (compute_scheduled_start_times nodes stateful ≡ some starts)
      × Apart (input_of nodes stateful) starts
unfolding compute_scheduled_start_times
compute_scheduled_start_times-Apart nodes stateful =
    let (s, e, v) = run_schedule-Inv nodes stateful in
    (s.start_time_by_id, rw (e, compute_scheduled_start_times), v.apart)
