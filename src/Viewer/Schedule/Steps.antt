-- ===== src/Viewer/Schedule/Steps.antt =====
-- The steps of compute_scheduled_start_times (atsuite/cli/trace_viewer_metadata.py) on its
-- invariant.
use atsuite.Base.{
  ℕ, ◌+◌, ◌≤◌, ◌≡◌, ◌⊎◌, refl, sym, ◌∙◌, true, false, Option, none, some, List, [], ◌∷◌, nat_eq,
  ◌==◌, arith, Bool-cases, inl, inr,
}
use atsuite.Base.Dict.{Dict, get}
use atsuite.Base.Int.{ℤ}
use atsuite.Base.Sets.{elem, remove}
use atsuite.Base.Sets.Sorted.{sorted, elem-sorted}
use atsuite.Viewer.Schedule.{
  Schedule, Input, is_tool_id, is_stateful_tool_node, duration_of, take_ready, take_all, non_tools,
  stateful_tools, start_tools, schedule_tools, schedule_view_nodes, release_at, release_target,
  release_targets, deactivate,
}
use atsuite.Viewer.Schedule.Invariant.{Inv, Keeps, Keeps-trans, MayStart, submit_view_node-Keeps}

module _ (p : Input) where
  tool_of_stateful : (n : ℕ) → is_tool_id p n ≡ false → is_stateful_tool_node p n ≡ false
  unfolding is_tool_id is_stateful_tool_node
  tool_of_stateful n h = ground arith

  may_start : (n : ℕ) (s : Schedule) → is_stateful_tool_node p n ≡ false → MayStart p n s
  may_start n s h = record { owns = λ e. cc; quiet = λ e. cc }

  take_ready-Keeps :
      (n : ℕ) (s : Schedule) → MayStart p n s → Inv p s → Keeps p s (take_ready p n s)
  unfolding take_ready
  take_ready-Keeps n s may v =
      let k =
        submit_view_node-Keeps p n (record s { ready = remove s.ready n })
          (record { owns = may.owns; quiet = may.quiet }) v in
      record { inv = k.inv; work = k.work }

  -- Ids of nodes that are not stateful may be taken in any number.
  take_all-Keeps :
      (ids : List ℕ) (s : Schedule)
      → ((n : ℕ) → elem ids n ≡ true → is_stateful_tool_node p n ≡ false)
      → Inv p s
      → Keeps p s (take_all p ids s)
  unfolding take_all elem
  take_all-Keeps [] s harmless v = record { inv = v; work = omega arith }
  take_all-Keeps (n ∷ ids) s harmless v =
      let k = take_ready-Keeps n s (may_start n s (harmless n (ground arith))) v in
      let rest = take_all-Keeps ids (take_ready p n s) (λ m h. harmless m (ground arith)) k.inv in
      Keeps-trans p k rest

  elem-non_tools : (ids : List ℕ) (n : ℕ) → elem (non_tools p ids) n ≡ true → is_tool_id p n ≡ false
  unfolding non_tools elem
  elem-non_tools [] n h = cc
  elem-non_tools (m ∷ ids) n h = ground (arith, elem-non_tools ids n)

  elem-stateful_tools :
      (ids : List ℕ) (n : ℕ)
      → elem ids n ≡ true
      → is_stateful_tool_node p n ≡ true
      → elem (stateful_tools p ids) n ≡ true
  unfolding stateful_tools elem
  elem-stateful_tools [] n h stateful = cc
  elem-stateful_tools (m ∷ ids) n h stateful = ground (arith, elem-stateful_tools ids n)

  -- If no ready tool is stateful, none of the ready ids is.
  harmless_if_none :
      (ids : List ℕ)
      → sorted (stateful_tools p ids) ≡ []
      → (n : ℕ) → elem (sorted ids) n ≡ true
      → is_stateful_tool_node p n ≡ false
  unfolding elem
  harmless_if_none ids e n h = elim (Bool-cases (is_stateful_tool_node p n)) [
    | inr harmless ↦ harmless
    | inl stateful ↦
        let there =
          elem-sorted (stateful_tools p ids) n
          ∙ elem-stateful_tools ids n (sym (elem-sorted ids n) ∙ h) stateful in
        let gone : elem [] n ≡ true = (rw e at there) in cc gone
  ]

  -- The chosen tool becomes active, and starts.
  choose-Keeps :
      (chosen : ℕ) (s : Schedule)
      → s.active ≡ none
      → Inv p s
      → Keeps p s (take_ready p chosen (record s { active = some chosen }))
  choose-Keeps chosen s idle v =
      let ended : (m t : ℕ)
          → is_stateful_tool_node p m ≡ true
          → get s.start_time_by_id m ≡ some t
          → t + duration_of p m ≤ s.current_time =
        λ m t stateful found. elim (v.settled m t stateful found) [
          | inl active ↦ cc
          | inr done ↦ done
        ] in
      let k =
        take_ready-Keeps chosen (record s { active = some chosen })
          (record { owns = λ e. refl; quiet = λ e. ended })
          (record {
            late = v.late;
            is_heap = v.is_heap;
            entries = v.entries;
            fresh = v.fresh;
            settled = λ m t stateful found. inr (ended m t stateful found);
            apart = v.apart;
          }) in
      record { inv = k.inv; work = k.work }

  start_tools-Keeps :
      (active : Option ℕ) (stateful : List ℕ) (s : Schedule)
      → s.active ≡ active
      → sorted (stateful_tools p s.ready) ≡ stateful
      → Inv p s
      → Keeps p s (start_tools p active stateful s)
  unfolding start_tools
  start_tools-Keeps (some n) stateful s busy e v = record { inv = v; work = omega arith }
  start_tools-Keeps none (chosen ∷ others) s idle e v = choose-Keeps chosen s idle v
  start_tools-Keeps none [] s idle e v =
      take_all-Keeps (sorted s.ready) s (harmless_if_none s.ready e) v

  schedule_tools-Keeps : (s : Schedule) → Inv p s → Keeps p s (schedule_tools p s)
  unfolding schedule_tools
  schedule_tools-Keeps s v = start_tools-Keeps s.active _ s refl refl v

  pub schedule_view_nodes-Keeps : (s : Schedule) → Inv p s → Keeps p s (schedule_view_nodes p s)
  unfolding schedule_view_nodes
  schedule_view_nodes-Keeps s v =
      let ids = sorted (non_tools p s.ready) in
      let k =
        take_all-Keeps ids s
          (λ n h.
            tool_of_stateful n
              (elem-non_tools s.ready n (sym (elem-sorted (non_tools p s.ready) n) ∙ h)))
          v in
      Keeps-trans p k (schedule_tools-Keeps (take_all p ids s) k.inv)

  -- Releasing targets touches nothing that the invariant speaks of.
  release_at-Keeps : (d : Option ℤ) (n : ℕ) (s : Schedule) → Inv p s → Keeps p s (release_at d n s)
  unfolding release_at
  release_at-Keeps none n s v = record { inv = v; work = omega arith }
  release_at-Keeps (some d) n s v = record { inv = v; work = omega arith }

  pub release_targets-Keeps :
      (targets : List ℕ) (s : Schedule) → Inv p s → Keeps p s (release_targets targets s)
  unfolding release_targets release_target
  release_targets-Keeps [] s v = record { inv = v; work = omega arith }
  release_targets-Keeps (n ∷ targets) s v =
      let k = release_at-Keeps (get s.in_degree n) n s v in
      Keeps-trans p k (release_targets-Keeps targets (release_target n s) k.inv)

  -- The node has started, and it ends at `now`.
  abbrev pub EndsAt : Dict ℕ ℕ → ℕ → ℕ → Type 0
  EndsAt starts now n = (t : ℕ) × (get starts n ≡ some t) × (now ≡ t + duration_of p n)

  pub settled-deactivate :
      (n : ℕ) (active : Option ℕ) (starts : Dict ℕ ℕ) (now m t : ℕ)
      → EndsAt starts now n
      → get starts m ≡ some t
      → (active ≡ some m) ⊎ (t + duration_of p m ≤ now)
      → (deactivate n active ≡ some m) ⊎ (t + duration_of p m ≤ now)
  unfolding deactivate
  settled-deactivate n active starts now m t ends found (inr done) = inr done
  settled-deactivate n none starts now m t ends found (inl e) = inl e
  settled-deactivate n (some k) starts now m t (u, at, e) found (inl same) = elim (nat_eq.dec n k) [
    | no differ ↦ let other : (n == k) ≡ false = ground arith in inl (rw other same)
    | yes p ↦ inr (ground arith)
  ]
