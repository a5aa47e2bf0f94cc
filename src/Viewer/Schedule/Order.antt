-- ===== src/Viewer/Schedule/Order.antt =====
-- Submissions of compute_scheduled_start_times (atsuite/cli/trace_viewer_metadata.py), as far as the
-- order of nodes along edges goes.
use atsuite.Base.{
  ℕ, ◌+◌, ◌≤◌, ◌≡◌, refl, sym, ap, subst, ◌∙◌, true, false, not, Option, none, some, List, [], ◌∷◌,
  ◌++◌, ◌||◌, map, nat_eq, ◌==◌, arith, Bool-cases, inl, inr,
}
use atsuite.Base.Dict.{Dict, get, put, has, get-put, get-put_old, get-put_cases}
use atsuite.Base.Int.{ℤ, pos}
use atsuite.Base.Sets.{elem, count, remove, Unique, elem-count}
use atsuite.Base.Sets.Removal.{not_elem-remove}
use atsuite.Base.Sets.Sorted.{sorted, elem-sorted}
use atsuite.Viewer.{ViewNode}
use atsuite.Viewer.Schedule.{
  Running, Schedule, Input, runs_before, heappush, pop_at, duration_of, submit_view_node,
  take_ready, take_all, non_tools, stateful_tools, start_tools, schedule_tools, schedule_view_nodes,
}
use atsuite.Viewer.Schedule.Debts.{owes, owes-zero}

abbrev pub nodes_of : List Running → List ℕ
nodes_of heap = map (λ a. a.node) heap

pub elem-heappush :
    (a : Running) (heap : List Running) (n : ℕ)
    → elem (nodes_of (heappush a heap)) n ≡ (a.node == n || elem (nodes_of heap) n)
unfolding heappush elem
elem-heappush a [] n = refl
elem-heappush a (b ∷ heap) n = ground (arith, elem-heappush a heap n)

Unique-heappush :
    (a : Running) (heap : List Running)
    → elem (nodes_of heap) a.node ≡ false
    → Unique (nodes_of heap)
    → Unique (nodes_of (heappush a heap))
unfolding heappush elem
Unique-heappush a [] h u = (refl, tt)
Unique-heappush a (b ∷ heap) h u = elim (Bool-cases (runs_before a b)) [
  | inl e ↦ rw e (h, u)
  | inr e ↦
      rw e (
        ground (arith, elem-heappush a heap b.node, u.0),
        Unique-heappush a heap (ground arith) u.1,
      )
]

pub pop_at-nodes :
    (t : ℕ) (heap : List Running) → (pop_at t heap).0 ++ nodes_of (pop_at t heap).1 ≡ nodes_of heap
unfolding pop_at
pop_at-nodes t [] = refl
pop_at-nodes t (a ∷ heap) = elim (Bool-cases (a.end_time == t)) [
  | inl e ↦ rw e (ap (◌∷◌ a.node) (pop_at-nodes t heap))
  | inr e ↦ rw e refl
]

pub elem-remove : (xs : List ℕ) (n m : ℕ) → elem (remove xs n) m ≡ true → elem xs m ≡ true
elem-remove xs n m h = elim (Bool-cases (elem xs m)) [
  | inl e ↦ e
  | inr e ↦ let gone = not_elem-remove xs n m e in cc
]

module _ (p : Input) where
  -- A node starts when every node with an edge to it has started and ended.
  abbrev pub Ordered : Dict ℕ ℕ → Type 0
  Ordered starts =
      (k m u : ℕ) (node : ViewNode)
      → get p.graph k ≡ some node
      → elem node.targets m ≡ true
      → get starts m ≡ some u
      → (t : ℕ) × (get starts k ≡ some t) × (t + duration_of p k ≤ u)

  -- The in-degrees count the edges from nodes that have not ended, less those to `extra` that are
  -- still to be released; what is ready or submitted has none. `live` are the nodes that run.
  pub record InOrder (ended extra live : List ℕ) (s : Schedule) : Type 0 where
    pub degree :
        (m : ℕ) (z : ℤ)
        → get s.in_degree m ≡ some z
        → z ≡ pos (owes p.graph ended m + count extra m)
    pub ready_paid : (m : ℕ) → elem s.ready m ≡ true → owes p.graph ended m + count extra m ≡ 0
    pub submitted_paid :
        (m : ℕ) → elem s.submitted m ≡ true → owes p.graph ended m + count extra m ≡ 0
    pub closed :
        (k : ℕ)
        → elem ended k ≡ true
        → (t : ℕ) × (get s.start_time_by_id k ≡ some t) × (t + duration_of p k ≤ s.current_time)
    pub unique : Unique live
    pub open_still : (n : ℕ) → elem live n ≡ true → elem ended n ≡ false
    pub known : (n : ℕ) → elem live n ≡ true → elem s.submitted n ≡ true
    pub ended_known : (n : ℕ) → elem ended n ≡ true → elem s.submitted n ≡ true
    pub fresh : (n : ℕ) → elem s.submitted n ≡ false → get s.start_time_by_id n ≡ none
    pub ordered : Ordered s.start_time_by_id

  abbrev pub Waits : List ℕ → Schedule → Type 0
  Waits ended s = InOrder ended [] (nodes_of s.pending) s

  pub elem-non_tools_ready :
      (ids : List ℕ) (n : ℕ) → elem (non_tools p ids) n ≡ true → elem ids n ≡ true
  unfolding non_tools elem
  elem-non_tools_ready [] n h = cc
  elem-non_tools_ready (m ∷ ids) n h = ground (arith, elem-non_tools_ready ids n)

  pub elem-stateful_tools_ready :
      (ids : List ℕ) (n : ℕ) → elem (stateful_tools p ids) n ≡ true → elem ids n ≡ true
  unfolding stateful_tools elem
  elem-stateful_tools_ready [] n h = cc
  elem-stateful_tools_ready (m ∷ ids) n h = ground (arith, elem-stateful_tools_ready ids n)

  module _ (ended : List ℕ) where
    Ordered-put :
        (n : ℕ) (s : Schedule)
        → owes p.graph ended n ≡ 0
        → get s.start_time_by_id n ≡ none
        → Waits ended s
        → Ordered (put s.start_time_by_id n s.current_time)
    Ordered-put n s paid new v k m u node at edge found =
        elim (get-put_cases s.start_time_by_id n m s.current_time u found) [
          | inl (same, now) ↦
              let edge' = elem-count node.targets m edge in
              let done =
                owes-zero p.graph ended k m node at edge'
                  (subst (λ j. owes p.graph ended j ≡ 0) same paid) in
              let (t, started, le) = v.closed k done in
              (t, get-put_old s.start_time_by_id n k s.current_time t new started, omega arith)
          | inr old ↦
              let (t, started, le) = v.ordered k m u node at edge old in
              (t, get-put_old s.start_time_by_id n k s.current_time t new started, le)
        ]

    -- A node that has not been submitted does not run and has not ended.
    not_live :
        (n : ℕ) (s : Schedule)
        → elem s.submitted n ≡ false
        → Waits ended s
        → (elem (nodes_of s.pending) n ≡ false) × (elem ended n ≡ false)
    not_live n s first_time v = (
      elim (Bool-cases (elem (nodes_of s.pending) n)) [
        | inr e ↦ e
        | inl e ↦ let k = v.known n e in cc
      ],
      elim (Bool-cases (elem ended n)) [ inr e ↦ e | inl e ↦ let k = v.ended_known n e in cc ],
    )

    submit_view_node-Waits :
        (n : ℕ) (s : Schedule)
        → owes p.graph ended n ≡ 0
        → Waits ended s
        → Waits ended (submit_view_node p n s)
    unfolding submit_view_node elem count
    submit_view_node-Waits n s paid v =
        elim (Bool-cases (elem s.submitted n || not (has p.graph n))) [
          | inl skip ↦ rw skip v
          | inr go ↦
              let first_time : elem s.submitted n ≡ false = ground arith in
              let (idle, open_still) = not_live n s first_time v in
              let new = v.fresh n first_time in
              let entry : Running = record {
                end_time = s.current_time + duration_of p n;
                order = s.submission_order;
                node = n;
              } in
              rw go (record {
                degree = v.degree;
                ready_paid = v.ready_paid;
                submitted_paid = λ m h. elim (nat_eq.dec n m) [
                  | yes same ↦ subst (λ j. owes p.graph ended j + 0 ≡ 0) same (omega arith)
                  | no differ ↦ v.submitted_paid m (ground arith)
                ];
                closed = λ k done.
                    let (t, started, le) = v.closed k done in
                    (t, get-put_old s.start_time_by_id n k s.current_time t new started, le);
                unique = Unique-heappush entry s.pending idle v.unique;
                open_still = λ m h. elim (nat_eq.dec n m) [
                  | yes same ↦ subst (λ j. elem ended j ≡ false) same open_still
                  | no differ ↦ v.open_still m (ground (arith, elem-heappush entry s.pending m))
                ];
                known = λ m h. elim (nat_eq.dec n m) [
                  | yes same ↦ ground arith
                  | no differ ↦
                      let old = v.known m (ground (arith, elem-heappush entry s.pending m)) in
                      ground arith
                ];
                ended_known = λ m h. let old = v.ended_known m h in ground arith;
                fresh =
                    λ m h. ground (arith, get-put s.start_time_by_id n m s.current_time, v.fresh m);
                ordered = Ordered-put n s paid new v;
              })
        ]

    take_ready-Waits :
        (n : ℕ) (s : Schedule)
        → owes p.graph ended n ≡ 0
        → Waits ended s
        → Waits ended (take_ready p n s)
    unfolding take_ready
    take_ready-Waits n s paid v =
        submit_view_node-Waits n (record s { ready = remove s.ready n }) paid
          (record {
            degree = v.degree;
            ready_paid = λ m h. v.ready_paid m (elem-remove s.ready n m h);
            submitted_paid = v.submitted_paid;
            closed = v.closed;
            unique = v.unique;
            open_still = v.open_still;
            known = v.known;
            ended_known = v.ended_known;
            fresh = v.fresh;
            ordered = v.ordered;
          })

    take_all-Waits :
        (ids : List ℕ) (s : Schedule)
        → ((n : ℕ) → elem ids n ≡ true → owes p.graph ended n ≡ 0)
        → Waits ended s
        → Waits ended (take_all p ids s)
    unfolding take_all elem
    take_all-Waits [] s paid v = v
    take_all-Waits (n ∷ ids) s paid v =
        take_all-Waits ids (take_ready p n s) (λ m h. paid m (ground arith))
          (take_ready-Waits n s (paid n (ground arith)) v)

    ready-paid :
        (s : Schedule) (n : ℕ) → Waits ended s → elem s.ready n ≡ true → owes p.graph ended n ≡ 0
    unfolding count
    ready-paid s n v h = omega (arith, v.ready_paid n h)

    start_tools-Waits :
        (active : Option ℕ) (stateful : List ℕ) (s : Schedule)
        → ((n : ℕ) → elem stateful n ≡ true → owes p.graph ended n ≡ 0)
        → Waits ended s
        → Waits ended (start_tools p active stateful s)
    unfolding start_tools elem
    start_tools-Waits (some n) stateful s paid v = v
    start_tools-Waits none (chosen ∷ others) s paid v =
        take_ready-Waits chosen (record s { active = some chosen }) (paid chosen (ground arith))
          (record {
            degree = v.degree;
            ready_paid = v.ready_paid;
            submitted_paid = v.submitted_paid;
            closed = v.closed;
            unique = v.unique;
            open_still = v.open_still;
            known = v.known;
            ended_known = v.ended_known;
            fresh = v.fresh;
            ordered = v.ordered;
          })
    start_tools-Waits none [] s paid v =
        take_all-Waits (sorted s.ready) s
          (λ n h. ready-paid s n v (sym (elem-sorted s.ready n) ∙ h)) v

    pub schedule_view_nodes-Waits :
        (s : Schedule) → Waits ended s → Waits ended (schedule_view_nodes p s)
    unfolding schedule_view_nodes schedule_tools
    schedule_view_nodes-Waits s v =
        let ids = sorted (non_tools p s.ready) in
        let s' = take_all p ids s in
        let v' =
          take_all-Waits ids s
            (λ n h.
              ready-paid s n v
                (elem-non_tools_ready s.ready n (sym (elem-sorted (non_tools p s.ready) n) ∙ h)))
            v in
        start_tools-Waits s'.active (sorted (stateful_tools p s'.ready)) s'
          (λ n h. ready-paid s' n v' (
            elem-stateful_tools_ready s'.ready n
              (sym (elem-sorted (stateful_tools p s'.ready) n) ∙ h)))
          v'

  -- Time passes, and entries leave the heap.
  pub InOrder-later :
      (ended live : List ℕ) (now : ℕ) (heap : List Running) (s : Schedule)
      → s.current_time ≤ now
      → InOrder ended [] live s
      → InOrder ended [] live (record s { current_time = now; pending = heap })
  InOrder-later ended live now heap s le v = record {
    degree = v.degree;
    ready_paid = v.ready_paid;
    submitted_paid = v.submitted_paid;
    closed = λ k done. let (t, started, before) = v.closed k done in (t, started, omega arith);
    unique = v.unique;
    open_still = v.open_still;
    known = v.known;
    ended_known = v.ended_known;
    fresh = v.fresh;
    ordered = v.ordered;
  }
