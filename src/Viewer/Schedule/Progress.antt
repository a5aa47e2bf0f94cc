-- ===== src/Viewer/Schedule/Progress.antt =====
-- Submissions of compute_scheduled_start_times (atsuite/cli/trace_viewer_metadata.py), as far as no
-- node is left behind.
use atsuite.Base.{
  ℕ, suc, ◌+◌, ◌≡◌, ◌≢◌, ◌⊎◌, refl, sym, ap, subst, ◌∙◌, true, false, not, Option, none, some, List,
  [], ◌∷◌, ◌||◌, nat_eq, arith, Bool-cases, inl, inr,
}
use atsuite.Base.Dict.{Dict, get, put, has, get-put, get-put_self}
use atsuite.Base.Int.{ℤ}
use atsuite.Base.Sets.{elem, count, remove, Unique}
use atsuite.Base.Sets.Removal.{elem-remove_ne, elem-remove_self, Unique-remove}
use atsuite.Base.Sets.Sorted.{sorted, elem-sorted, Unique-sorted}
use atsuite.Viewer.Schedule.{
  Running, Schedule, Input, heappush, duration_of, submit_view_node, take_ready, take_all,
  non_tools, stateful_tools, is_tool_id, start_tools, schedule_tools, schedule_view_nodes,
}
use atsuite.Viewer.Schedule.Debts.{owes}
use atsuite.Viewer.Schedule.Order.{
  nodes_of, elem-heappush, elem-remove, elem-non_tools_ready, elem-stateful_tools_ready,
}

module _ (p : Input) where
  -- A node of the graph to which nothing is owed is ready or submitted, and what is submitted has a
  -- start and runs, unless it has ended.
  pub record LiveOn (ended extra live : List ℕ) (in_degree : Dict ℕ ℤ) (ready submitted : List ℕ)
      (starts : Dict ℕ ℕ) : Type 0 where
    pub covered : (m : ℕ) → has p.graph m ≡ true → (z : ℤ) × (get in_degree m ≡ some z)
    pub in_graph : (m : ℕ) (z : ℤ) → get in_degree m ≡ some z → has p.graph m ≡ true
    pub paid_known :
        (m : ℕ)
        → has p.graph m ≡ true
        → owes p.graph ended m + count extra m ≡ 0
        → (elem ready m ≡ true) ⊎ (elem submitted m ≡ true)
    pub started : (m : ℕ) → elem submitted m ≡ true → (t : ℕ) × (get starts m ≡ some t)
    pub runs : (m : ℕ) → elem submitted m ≡ true → (elem ended m ≡ true) ⊎ (elem live m ≡ true)
    pub ended_known : (m : ℕ) → elem ended m ≡ true → elem submitted m ≡ true
    pub ready_known : (m : ℕ) → elem ready m ≡ true → has p.graph m ≡ true
    pub ready_new : (m : ℕ) → elem ready m ≡ true → elem submitted m ≡ false
    pub ready_unique : Unique ready

  abbrev pub Live : List ℕ → List ℕ → List ℕ → Schedule → Type 0
  Live ended extra live s =
      LiveOn ended extra live s.in_degree s.ready s.submitted s.start_time_by_id

  -- The active tool runs.
  abbrev pub Busy : List ℕ → Schedule → Type 0
  Busy live s = (a : ℕ) → s.active ≡ some a → elem live a ≡ true

  -- A state between two steps.
  pub record Goes (ended : List ℕ) (s : Schedule) : Type 0 where
    pub live : Live ended [] (nodes_of s.pending) s
    pub busy : Busy (nodes_of s.pending) s

  entry_of : ℕ → Schedule → Running
  entry_of n s = record {
    end_time = s.current_time + duration_of p n;
    order = s.submission_order;
    node = n;
  }

  abbrev taken : ℕ → Schedule → Schedule
  taken n s = record s {
    ready = remove s.ready n;
    submitted = n ∷ s.submitted;
    start_time_by_id = put s.start_time_by_id n s.current_time;
    pending = heappush (entry_of n s) s.pending;
    submission_order = suc s.submission_order;
  }

  -- A ready node is submitted when it is taken.
  take_ready-taken :
      (n : ℕ) (s : Schedule)
      → elem s.submitted n ≡ false
      → has p.graph n ≡ true
      → take_ready p n s ≡ taken n s
  unfolding take_ready submit_view_node entry_of
  take_ready-taken n s new known = rw (new, known) refl

  module _ (ended : List ℕ) where
    taken-Live :
        (n : ℕ) (s : Schedule)
        → elem s.ready n ≡ true
        → Live ended [] (nodes_of s.pending) s
        → Live ended [] (nodes_of (taken n s).pending) (taken n s)
    unfolding elem entry_of
    taken-Live n s there v = record {
      covered = v.covered;
      in_graph = v.in_graph;
      paid_known = λ m known paid. elim (nat_eq.dec n m) [
        | yes same ↦ inr (ground arith)
        | no differ ↦ elim (v.paid_known m known paid) [
          | inl ready ↦ inl (elem-remove_ne s.ready n m differ ∙ ready)
          | inr old ↦ inr (ground arith)
        ]
      ];
      started = λ m h. elim (nat_eq.dec n m) [
        | yes same ↦ (
          s.current_time,
          subst (λ j. get (put s.start_time_by_id n s.current_time) j ≡ some s.current_time) same
              (get-put_self s.start_time_by_id n s.current_time),
        )
        | no differ ↦
            let (t, old) = v.started m (ground arith) in
            (t, ground (arith, get-put s.start_time_by_id n m s.current_time))
      ];
      runs = λ m h. elim (nat_eq.dec n m) [
        | yes same ↦ inr (ground (arith, elem-heappush (entry_of n s) s.pending m))
        | no differ ↦ elim (v.runs m (ground arith)) [
          | inl e ↦ inl e
          | inr e ↦ inr (ground (arith, elem-heappush (entry_of n s) s.pending m))
        ]
      ];
      ended_known = λ m h. let old = v.ended_known m h in ground arith;
      ready_known = λ m h. v.ready_known m (elem-remove s.ready n m h);
      ready_new = λ m h. elim (nat_eq.dec n m) [
        | yes same ↦ absurd (ground (arith, elem-remove_self s.ready n v.ready_unique))
        | no differ ↦ let old = v.ready_new m (elem-remove s.ready n m h) in ground arith
      ];
      ready_unique = Unique-remove s.ready n v.ready_unique;
    }

    -- Ready nodes are taken; what is active runs, or is taken now.
    take_ready-Goes :
        (n : ℕ) (s : Schedule)
        → elem s.ready n ≡ true
        → Live ended [] (nodes_of s.pending) s
        → ((a : ℕ) → s.active ≡ some a → (elem (nodes_of s.pending) a ≡ true) ⊎ (a ≡ n))
        → Goes ended (take_ready p n s)
    unfolding elem entry_of
    take_ready-Goes n s there v busy =
        subst (Goes ended)
          (sym (take_ready-taken n s (v.ready_new n there) (v.ready_known n there)))
          (record {
            live = taken-Live n s there v;
            busy = λ a e. elim (busy a e) [
              | inl old ↦ ground (arith, elem-heappush (entry_of n s) s.pending a)
              | inr same ↦ ground (arith, elem-heappush (entry_of n s) s.pending a)
            ];
          })

    take_ready-ready :
        (n m : ℕ) (s : Schedule)
        → elem s.ready n ≡ true
        → n ≢ m
        → elem s.ready m ≡ true
        → Live ended [] (nodes_of s.pending) s
        → elem (take_ready p n s).ready m ≡ true
    take_ready-ready n m s there differ h v =
        ap (λ x. elem x.ready m)
          (take_ready-taken n s (v.ready_new n there) (v.ready_known n there))
        ∙ elem-remove_ne s.ready n m differ
        ∙ h

    take_all-Goes :
        (ids : List ℕ) (s : Schedule)
        → Unique ids
        → ((n : ℕ) → elem ids n ≡ true → elem s.ready n ≡ true)
        → Goes ended s
        → Goes ended (take_all p ids s)
    unfolding take_all elem
    take_all-Goes [] s u there g = g
    take_all-Goes (n ∷ ids) s u there g =
        let here = there n (ground arith) in
        take_all-Goes ids (take_ready p n s) u.1
          (λ m h.
            let differ : n ≢ m = λ same. absurd (ground (arith, u.0)) in
            take_ready-ready n m s here differ (there m (ground arith)) g.live)
          (take_ready-Goes n s here g.live (λ a e. inl (g.busy a e)))

    -- What is taken has been submitted.
    take_ready-submits :
        (n : ℕ) (s : Schedule) → has p.graph n ≡ true → elem (take_ready p n s).submitted n ≡ true
    unfolding take_ready submit_view_node elem
    take_ready-submits n s known = elim (Bool-cases (elem s.submitted n)) [
      | inl old ↦ rw old old
      | inr new ↦ rw (new, known) (ground arith)
    ]

    take_ready-keeps :
        (n m : ℕ) (s : Schedule)
        → elem s.submitted m ≡ true
        → elem (take_ready p n s).submitted m ≡ true
    unfolding take_ready submit_view_node elem
    take_ready-keeps n m s h = elim (Bool-cases (elem s.submitted n || not (has p.graph n))) [
      | inl skip ↦ rw skip h
      | inr go ↦ rw go (ground arith)
    ]

    take_all-keeps :
        (ids : List ℕ) (m : ℕ) (s : Schedule)
        → elem s.submitted m ≡ true
        → elem (take_all p ids s).submitted m ≡ true
    unfolding take_all
    take_all-keeps [] m s h = h
    take_all-keeps (n ∷ ids) m s h =
        take_all-keeps ids m (take_ready p n s) (take_ready-keeps n m s h)

    take_all-submits :
        (ids : List ℕ) (m : ℕ) (s : Schedule)
        → has p.graph m ≡ true
        → elem ids m ≡ true
        → elem (take_all p ids s).submitted m ≡ true
    unfolding take_all elem
    take_all-submits [] m s known h = cc
    take_all-submits (n ∷ ids) m s known h = elim (nat_eq.dec n m) [
      | yes same ↦ take_all-keeps ids m (take_ready p n s) (
          subst (λ j. elem (take_ready p n s).submitted j ≡ true) same
            (take_ready-submits n s (subst (λ j. has p.graph j ≡ true) (sym same) known)))
      | no differ ↦ take_all-submits ids m (take_ready p n s) known (ground arith)
    ]

    take_ready-shrinks :
        (n m : ℕ) (s : Schedule) → elem (take_ready p n s).ready m ≡ true → elem s.ready m ≡ true
    unfolding take_ready submit_view_node
    take_ready-shrinks n m s h = elim (Bool-cases (elem s.submitted n || not (has p.graph n))) [
      | inl skip ↦ elem-remove s.ready n m (rw skip at h)
      | inr go ↦ elem-remove s.ready n m (rw go at h)
    ]

    take_all-shrinks :
        (ids : List ℕ) (m : ℕ) (s : Schedule)
        → elem (take_all p ids s).ready m ≡ true
        → elem s.ready m ≡ true
    unfolding take_all
    take_all-shrinks [] m s h = h
    take_all-shrinks (n ∷ ids) m s h =
        take_ready-shrinks n m s (take_all-shrinks ids m (take_ready p n s) h)

    start_tools-Goes :
        (active : Option ℕ) (stateful : List ℕ) (s : Schedule)
        → s.active ≡ active
        → ((n : ℕ) → elem stateful n ≡ true → elem s.ready n ≡ true)
        → Goes ended s
        → Goes ended (start_tools p active stateful s)
    unfolding start_tools elem
    start_tools-Goes (some n) stateful s e there g = g
    start_tools-Goes none (chosen ∷ others) s e there g =
        take_ready-Goes chosen (record s { active = some chosen }) (there chosen (ground arith))
          g.live (λ a h. inr cc)
    start_tools-Goes none [] s e there g =
        take_all-Goes (sorted s.ready) s (Unique-sorted s.ready g.live.ready_unique)
          (λ n h. sym (elem-sorted s.ready n) ∙ h) g

    -- Where nothing is pending, what is submitted has ended.
    pub all_ended :
        (s : Schedule) (m : ℕ)
        → Goes ended s
        → s.pending ≡ []
        → elem s.submitted m ≡ true
        → elem ended m ≡ true
    unfolding elem
    all_ended s m g idle h = elim (g.live.runs m h) [
      | inl e ↦ e
      | inr e ↦
          let gone : false ≡ true = subst (λ heap. elem (nodes_of heap) m ≡ true) idle e in cc gone
    ]

    -- Where nothing is pending after the tools were started, nothing is ready.
    start_tools-settles :
        (active : Option ℕ) (stateful : List ℕ) (s : Schedule)
        → s.active ≡ active
        → ((n : ℕ) → elem stateful n ≡ true → elem s.ready n ≡ true)
        → Goes ended s
        → (start_tools p active stateful s).pending ≡ []
        → (n : ℕ) → elem (start_tools p active stateful s).ready n ≡ false
    unfolding start_tools elem
    start_tools-settles (some a) stateful s e there g idle n =
        let gone : false ≡ true = subst (λ heap. elem (nodes_of heap) a ≡ true) idle (g.busy a e) in
        cc gone
    start_tools-settles none (chosen ∷ others) s e there g idle n =
        let here = there chosen (ground arith) in
        let known = g.live.ready_known chosen here in
        let new = g.live.ready_new chosen here in
        let s' = record s { active = some chosen } in
        let g' = start_tools-Goes none (chosen ∷ others) s e there g in
        let done =
          all_ended (take_ready p chosen s') chosen g' idle (take_ready-submits chosen s' known) in
        let old = g.live.ended_known chosen done in absurd (ground arith)
    start_tools-settles none [] s e there g idle n =
        let s' = take_all p (sorted s.ready) s in
        elim (Bool-cases (elem s'.ready n)) [
          | inr done ↦ done
          | inl h ↦
              let ready = take_all-shrinks (sorted s.ready) n s h in
              let old =
                take_all-submits (sorted s.ready) n s (g.live.ready_known n ready)
                  (elem-sorted s.ready n ∙ ready) in
              let new = (start_tools-Goes none [] s e there g).live.ready_new n h in
              absurd (ground arith)
        ]

    Unique-non_tools : (ids : List ℕ) → Unique ids → Unique (non_tools p ids)
    unfolding non_tools elem
    Unique-non_tools [] u = tt
    Unique-non_tools (n ∷ ids) u = elim (Bool-cases (is_tool_id p n)) [
      | inl tool ↦ rw tool (Unique-non_tools ids u.1)
      | inr other ↦ rw other (
        elim (Bool-cases (elem (non_tools p ids) n)) [
          | inr e ↦ e
          | inl e ↦ let there = elem-non_tools_ready p ids n e in absurd (ground (arith, u.0))
        ],
        Unique-non_tools ids u.1,
      )
    ]

    -- What schedule_tools starts with.
    module _ (s : Schedule) (g : Goes ended s) where
      first-Goes : Goes ended (take_all p (sorted (non_tools p s.ready)) s)
      first-Goes =
          take_all-Goes (sorted (non_tools p s.ready)) s
            (Unique-sorted (non_tools p s.ready) (Unique-non_tools s.ready g.live.ready_unique))
            (λ n h.
              elem-non_tools_ready p s.ready n (sym (elem-sorted (non_tools p s.ready) n) ∙ h))
            g

      chosen_ready :
          (s' : Schedule) (n : ℕ)
          → elem (sorted (stateful_tools p s'.ready)) n ≡ true
          → elem s'.ready n ≡ true
      chosen_ready s' n h =
          elem-stateful_tools_ready p s'.ready n
            (sym (elem-sorted (stateful_tools p s'.ready) n) ∙ h)

      pub schedule_view_nodes-Goes : Goes ended (schedule_view_nodes p s)
      unfolding schedule_view_nodes schedule_tools
      schedule_view_nodes-Goes =
          let s' = take_all p (sorted (non_tools p s.ready)) s in
          start_tools-Goes s'.active (sorted (stateful_tools p s'.ready)) s' refl (chosen_ready s')
            first-Goes

      pub schedule_view_nodes-settles :
          (schedule_view_nodes p s).pending ≡ []
          → (n : ℕ) → elem (schedule_view_nodes p s).ready n ≡ false
      unfolding schedule_view_nodes schedule_tools
      schedule_view_nodes-settles idle n =
          let s' = take_all p (sorted (non_tools p s.ready)) s in
          start_tools-settles s'.active (sorted (stateful_tools p s'.ready)) s' refl
            (chosen_ready s') first-Goes idle n
