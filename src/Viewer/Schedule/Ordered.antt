-- ===== src/Viewer/Schedule/Ordered.antt =====
-- The order of nodes along edges in a whole run of compute_scheduled_start_times
-- (atsuite/cli/trace_viewer_metadata.py).
use atsuite.Base.{
  ℕ, zero, suc, String, ◌+◌, ◌≤◌, ◌≡◌, refl, sym, ap, subst, ◌∙◌, true, false, Option, none, some,
  List, [], ◌∷◌, ◌++◌, nat_eq, length, arith, All, Bool-cases, inl, inr,
}
use atsuite.Base.Dict.{Dict, get, get-nil, keys, get-put}
use atsuite.Base.Int.{ℤ, pos, pred_ℤ, is_zero}
use atsuite.Base.Sets.{elem, count, Unique, elem-add}
use atsuite.Viewer.{ViewNode}
use atsuite.Viewer.Schedule.{
  Running, Schedule, Input, duration_of, release_at, release_target, release_targets, deactivate,
  targets_of, complete_view_node, complete_view_nodes, pop_at, advance, schedule_view_nodes, resume,
  turn, simulate, first_schedule, run_schedule, compute_scheduled_start_times, build_node_maps,
}
use atsuite.Viewer.Schedule.Invariant.{Inv}
use atsuite.Viewer.Schedule.Steps.{EndsAt, schedule_view_nodes-Keeps}
use atsuite.Viewer.Schedule.Debts.{owes, owes-end, ids_of, build_node_by_id-Unique}
use atsuite.Viewer.Schedule.Degrees.{build_node_maps-owes, ready-owes, is_zero-eq}
use atsuite.Viewer.Schedule.Order.{
  InOrder-later, nodes_of, pop_at-nodes, Ordered, InOrder, Waits, schedule_view_nodes-Waits,
}
use atsuite.Viewer.Schedule.Disjoint.{
  input_of, release_targets-same, popped-EndsAt, advance-Inv, first_schedule-Inv, run_schedule-Inv,
}

pub count_first : (n : ℕ) (xs : List ℕ) → count (n ∷ xs) n ≡ suc (count xs n)
unfolding count
count_first n xs = ground arith

release_at-pending : (d : Option ℤ) (n : ℕ) (s : Schedule) → (release_at d n s).pending ≡ s.pending
unfolding release_at
release_at-pending none n s = refl
release_at-pending (some d) n s = refl

release_targets-pending :
    (targets : List ℕ) (s : Schedule) → (release_targets targets s).pending ≡ s.pending
unfolding release_targets release_target
release_targets-pending [] s = refl
release_targets-pending (n ∷ targets) s =
    release_targets-pending targets (release_target n s)
    ∙ release_at-pending (get s.in_degree n) n s

-- Completion leaves the heap as it is.
pub complete_view_nodes-pending :
    (p : Input) (ids : List ℕ) (s : Schedule) → (complete_view_nodes p ids s).pending ≡ s.pending
unfolding complete_view_nodes complete_view_node
complete_view_nodes-pending p [] s = refl
complete_view_nodes-pending p (n ∷ ids) s =
    complete_view_nodes-pending p ids (complete_view_node p n s)
    ∙ release_targets-pending (targets_of p n) (record s { active = deactivate n s.active })

module _ (p : Input) where
  -- An edge is released: the in-degree of its target falls, and at zero the target is ready.
  pub release_at-InOrder :
      (ended extra live : List ℕ) (d : Option ℤ) (n : ℕ) (s : Schedule)
      → get s.in_degree n ≡ d
      → InOrder p ended (n ∷ extra) live s
      → InOrder p ended extra live (release_at d n s)
  unfolding release_at count
  release_at-InOrder ended extra live none n s missing v = record {
    degree = λ m z h. let e = v.degree m z h in ground arith;
    ready_paid = λ m h. let e = v.ready_paid m h in ground arith;
    submitted_paid = λ m h. let e = v.submitted_paid m h in ground arith;
    closed = v.closed;
    unique = v.unique;
    open_still = v.open_still;
    known = v.known;
    ended_known = v.ended_known;
    fresh = v.fresh;
    ordered = v.ordered;
  }
  release_at-InOrder ended extra live (some z) n s found v =
      let z_is : z ≡ pos (suc (owes p.graph ended n + count extra n)) =
        v.degree n z found ∙ ap pos (omega (arith, count_first n extra)) in
      let falls : pred_ℤ z ≡ pos (owes p.graph ended n + count extra n) = ap pred_ℤ z_is in
      record {
        degree = λ m y h. elim (nat_eq.dec n m) [
          | yes same ↦
              let y_is : y ≡ pred_ℤ z = ground (arith, get-put s.in_degree n m (pred_ℤ z)) in
              y_is ∙ falls ∙ ap (λ j. pos (owes p.graph ended j + count extra j)) same
          | no differ ↦
              let old : get s.in_degree m ≡ some y =
                ground (arith, get-put s.in_degree n m (pred_ℤ z)) in
              let e = v.degree m y old in ground arith
        ];
        ready_paid = λ m h. elim (Bool-cases (is_zero (pred_ℤ z))) [
          | inl e ↦
              let zero_left = is_zero-eq (pred_ℤ z) e in
              let paid : owes p.graph ended n + count extra n ≡ 0 = ground arith in
              elim (nat_eq.dec n m) [
                | yes same ↦ subst (λ j. owes p.graph ended j + count extra j ≡ 0) same paid
                | no differ ↦
                    let old : elem s.ready m ≡ true = ground (arith, elem-add s.ready n m) in
                    let x = v.ready_paid m old in ground arith
              ]
          | inr e ↦
              let old : elem s.ready m ≡ true = ground arith in
              let x = v.ready_paid m old in ground arith
        ];
        submitted_paid = λ m h. let e = v.submitted_paid m h in ground arith;
        closed = v.closed;
        unique = v.unique;
        open_still = v.open_still;
        known = v.known;
        ended_known = v.ended_known;
        fresh = v.fresh;
        ordered = v.ordered;
      }

  release_targets-InOrder :
      (ended live targets : List ℕ) (s : Schedule)
      → InOrder p ended targets live s
      → InOrder p ended [] live (release_targets targets s)
  unfolding release_targets release_target
  release_targets-InOrder ended live [] s v = v
  release_targets-InOrder ended live (n ∷ targets) s v =
      release_targets-InOrder ended live targets (release_target n s)
        (release_at-InOrder ended targets live (get s.in_degree n) n s refl v)

  module _ (unique : Unique (keys p.graph)) where
    -- A node ends: its edges are no longer counted, and are to be released.
    pub end-InOrder :
        (ended live : List ℕ) (n : ℕ) (active : Option ℕ) (s : Schedule)
        → EndsAt p s.start_time_by_id s.current_time n
        → InOrder p ended [] (n ∷ live) s
        → InOrder p (n ∷ ended) (targets_of p n) live (record s { active = active })
    unfolding elem count
    end-InOrder ended live n active s (t, started, now) v =
        let open_still : elem ended n ≡ false = v.open_still n (ground arith) in
        let debt : (m : ℕ)
            → owes p.graph ended m ≡ owes p.graph (n ∷ ended) m + count (targets_of p n) m =
          λ m. owes-end p ended n m unique open_still in
        record {
          degree = λ m z h. let e = v.degree m z h in let e' = debt m in ground arith;
          ready_paid = λ m h. omega (arith, v.ready_paid m h, debt m);
          submitted_paid = λ m h. omega (arith, v.submitted_paid m h, debt m);
          closed = λ k h. elim (nat_eq.dec n k) [
            | yes same ↦
                subst
                  (λ j.
                    (x : ℕ) × (get s.start_time_by_id j ≡ some x)
                    × (x + duration_of p j ≤ s.current_time))
                  same (t, started, omega arith)
            | no differ ↦ v.closed k (ground arith)
          ];
          unique = (v.unique).1;
          open_still = λ m h. elim (nat_eq.dec n m) [
            | yes same ↦ absurd (ground (arith, (v.unique).0))
            | no differ ↦ let x = v.open_still m (ground arith) in ground arith
          ];
          known = λ m h. v.known m (ground arith);
          ended_known = λ m h. elim (nat_eq.dec n m) [
            | yes same ↦ subst (λ j. elem s.submitted j ≡ true) same (v.known n (ground arith))
            | no differ ↦ v.ended_known m (ground arith)
          ];
          fresh = v.fresh;
          ordered = v.ordered;
        }

    complete_view_nodes-InOrder :
        (ids live ended : List ℕ) (s : Schedule)
        → All (EndsAt p s.start_time_by_id s.current_time) ids
        → InOrder p ended [] (ids ++ live) s
        → (ended' : List ℕ) × InOrder p ended' [] live (complete_view_nodes p ids s)
    unfolding complete_view_nodes complete_view_node
    complete_view_nodes-InOrder [] live ended s ends v = (ended, v)
    complete_view_nodes-InOrder (n ∷ ids) live ended s ends v =
        let s₁ = record s { active = deactivate n s.active } in
        let s₂ = complete_view_node p n s in
        let v' =
          release_targets-InOrder (n ∷ ended) (ids ++ live) (targets_of p n) s₁
            (end-InOrder ended (ids ++ live) n (deactivate n s.active) s ends.0 v) in
        let (starts, now) = release_targets-same p (targets_of p n) s₁ in
        let ends' : All (EndsAt p s₂.start_time_by_id s₂.current_time) ids =
          subst (λ d. All (EndsAt p d s₂.current_time) ids) (sym starts)
            (subst (λ t. All (EndsAt p s.start_time_by_id t) ids) (sym now) ends.1) in
        complete_view_nodes-InOrder ids live (n ∷ ended) s₂ ends' v'

    abbrev Runs : Schedule → Type 0
    Runs s = (ended : List ℕ) × Waits p ended s

    schedule_view_nodes-Runs : (s : Schedule) → Runs s → Runs (schedule_view_nodes p s)
    schedule_view_nodes-Runs s (ended, v) = (ended, schedule_view_nodes-Waits p ended s v)

    advance-Runs :
        (first : Running) (heap : List Running) (s : Schedule)
        → s.pending ≡ first ∷ heap
        → Inv p s
        → Runs s
        → Runs (advance p first heap s)
    unfolding advance
    advance-Runs first heap s e inv (ended, v) =
        let out = pop_at first.end_time heap in
        let ids = first.node ∷ out.0 in
        let s' = record s { current_time = first.end_time; pending = out.1 } in
        let live : nodes_of s.pending ≡ ids ++ nodes_of out.1 =
          ap nodes_of e ∙ sym (ap (◌∷◌ first.node) (pop_at-nodes first.end_time heap)) in
        let late = (subst (All (λ a. s.current_time ≤ a.end_time)) e inv.late).0 in
        let v' : InOrder p ended [] (ids ++ nodes_of out.1) s' =
          subst (λ xs. InOrder p ended [] xs s') live
            (InOrder-later p ended (nodes_of s.pending) first.end_time out.1 s late v) in
        let (ended', done) =
          complete_view_nodes-InOrder ids (nodes_of out.1) ended s'
            (popped-EndsAt p first heap s e inv) v' in
        schedule_view_nodes-Runs (complete_view_nodes p ids s') (
          ended',
          subst (λ heap. InOrder p ended' [] (nodes_of heap) (complete_view_nodes p ids s'))
              (sym (complete_view_nodes-pending p ids s')) done,
        )

    Outcome : (Schedule → Option Schedule) → Type 0
    Outcome next = (t t' : Schedule) → next t ≡ some t' → Inv p t → Runs t → Runs t'

    resume-Runs :
        (next : Schedule → Option Schedule) (pending : List Running) (s s' : Schedule)
        → Outcome next
        → s.pending ≡ pending
        → resume next p pending s ≡ some s'
        → Inv p s
        → Runs s
        → Runs s'
    unfolding resume Outcome
    resume-Runs next [] s s' ih e h inv v = let same : s ≡ s' = cc in subst Runs same v
    resume-Runs next (first ∷ heap) s s' ih e h inv v =
        ih (advance p first heap s) s' h (advance-Inv p first heap s e inv).0
          (advance-Runs first heap s e inv v)

    turn-Runs :
        (next : Schedule → Option Schedule) (pending : List Running) (ready : List ℕ)
        (s s' : Schedule)
        → Outcome next
        → s.pending ≡ pending
        → turn next p pending ready s ≡ some s'
        → Inv p s
        → Runs s
        → Runs s'
    unfolding turn Outcome
    turn-Runs next (first ∷ heap) ready s s' ih e h inv v =
        ih (advance p first heap s) s' h (advance-Inv p first heap s e inv).0
          (advance-Runs first heap s e inv v)
    turn-Runs next [] [] s s' ih e h inv v = let same : s ≡ s' = cc in subst Runs same v
    turn-Runs next [] (n ∷ ready) s s' ih e h inv v =
        resume-Runs next _ (schedule_view_nodes p s) s' ih refl h
          (schedule_view_nodes-Keeps p s inv).inv (schedule_view_nodes-Runs s v)

    simulate-Runs : (f : ℕ) → Outcome (simulate f p)
    unfolding simulate Outcome
    simulate-Runs zero s s' h inv v = cc
    simulate-Runs (suc f) s s' h inv v =
        turn-Runs (simulate f p) s.pending s.ready s s' (simulate-Runs f) refl h inv v

-- At first nothing has started.
pub first_schedule-Waits :
    (nodes : List ViewNode) (stateful : List String)
    → Unique (ids_of nodes)
    → Waits (input_of nodes stateful) [] (first_schedule (build_node_maps nodes).1)
unfolding first_schedule elem count
first_schedule-Waits nodes stateful u = record {
  degree = λ m z h. let e = build_node_maps-owes nodes m z u h in ground arith;
  ready_paid = λ m h. omega (arith, ready-owes nodes m u h);
  submitted_paid = λ m h. cc;
  closed = λ k h. cc;
  unique = tt;
  open_still = λ n h. cc;
  known = λ n h. cc;
  ended_known = λ n h. cc;
  fresh = λ n h. get-nil n;
  ordered = λ k m t node at edge found. cc (get-nil {V = ℕ} m);
}

run_schedule-Runs :
    (nodes : List ViewNode) (stateful : List String) (s : Schedule)
    → Unique (ids_of nodes)
    → run_schedule nodes stateful ≡ some s
    → Runs (input_of nodes stateful) (build_node_by_id-Unique nodes) s
unfolding run_schedule build_node_maps Outcome
run_schedule-Runs nodes stateful s u h =
    let p = input_of nodes stateful in
    let unique = build_node_by_id-Unique nodes in
    let first = first_schedule (build_node_maps nodes).1 in
    simulate-Runs p unique (suc (length p.graph)) (schedule_view_nodes p first) s h
      (schedule_view_nodes-Keeps p first (first_schedule-Inv p (build_node_maps nodes).1)).inv
      (schedule_view_nodes-Runs p unique first ([], first_schedule-Waits nodes stateful u))

-- If the ids of the nodes are distinct, the simulation of `compute_scheduled_start_times` ends and
-- returns start times, and when a node starts, every node with an edge to it has started and, by
-- its display duration, ended.
pub compute_scheduled_start_times-Ordered :
    (nodes : List ViewNode) (stateful : List String)
    → Unique (ids_of nodes)
    → (starts : Dict ℕ ℕ) × (compute_scheduled_start_times nodes stateful ≡ some starts)
      × Ordered (input_of nodes stateful) starts
unfolding compute_scheduled_start_times
compute_scheduled_start_times-Ordered nodes stateful u =
    let (s, e, inv) = run_schedule-Inv nodes stateful in
    let (ended, v) = run_schedule-Runs nodes stateful s u e in
    (s.start_time_by_id, rw (e, compute_scheduled_start_times), v.ordered)
