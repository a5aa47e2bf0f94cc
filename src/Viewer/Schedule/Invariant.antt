-- ===== src/Viewer/Schedule/Invariant.antt =====
-- The invariant of compute_scheduled_start_times (atsuite/cli/trace_viewer_metadata.py).
use atsuite.Base.{
  ℕ, ◌+◌, ◌≤◌, ◌≡◌, ◌≢◌, ◌⊎◌, refl, sym, subst, ◌∙◌, true, false, not, ◌||◌, Option, none, some,
  List, ◌∷◌, nat_eq, length, arith, All, All-map, Bool-cases, inl, inr,
}
use atsuite.Base.Dict.{Dict, get, has, put, get-put, get-put_old, get-put_self, get-put_cases}
use atsuite.Base.Sets.{elem}
use atsuite.Viewer.Schedule.{
  Running, Schedule, Input, is_stateful_tool_node, duration_of, submit_view_node,
}
use atsuite.Viewer.Schedule.Heap.{
  IsHeap, All-heappush, heappush-IsHeap, length-heappush, unsubmitted, unsubmitted-submit,
}

fresh-put :
    (done : List ℕ) (d : Dict ℕ ℕ) (n m v : ℕ)
    → ((k : ℕ) → elem done k ≡ false → get d k ≡ none)
    → elem (n ∷ done) m ≡ false
    → get (put d n v) m ≡ none
unfolding elem
fresh-put done d n m v fresh h = ground (arith, get-put d n m v, fresh m)

module _ (p : Input) where
  -- An entry of the heap ends when its node does.
  abbrev pub Ends : Dict ℕ ℕ → Running → Type 0
  Ends starts a = (t : ℕ) × (get starts a.node ≡ some t) × (a.end_time ≡ t + duration_of p a.node)

  -- One stateful tool has ended when the other starts.
  abbrev pub Apart : Dict ℕ ℕ → Type 0
  Apart starts =
      (n m t u : ℕ)
      → is_stateful_tool_node p n ≡ true
      → is_stateful_tool_node p m ≡ true
      → n ≢ m
      → get starts n ≡ some t
      → get starts m ≡ some u
      → (t + duration_of p n ≤ u) ⊎ (u + duration_of p m ≤ t)

  pub record InvOn (starts : Dict ℕ ℕ) (pending : List Running) (submitted : List ℕ) (now : ℕ)
      (active : Option ℕ) : Type 0 where
    pub late : All (λ a. now ≤ a.end_time) pending
    pub is_heap : IsHeap pending
    pub entries : All (Ends starts) pending
    pub fresh : (n : ℕ) → elem submitted n ≡ false → get starts n ≡ none
    pub settled :
        (n t : ℕ)
        → is_stateful_tool_node p n ≡ true
        → get starts n ≡ some t
        → (active ≡ some n) ⊎ (t + duration_of p n ≤ now)
    pub apart : Apart starts

  abbrev pub Inv : Schedule → Type 0
  Inv s = InvOn s.start_time_by_id s.pending s.submitted s.current_time s.active

  abbrev pub cost : Schedule → ℕ
  cost s = length s.pending + unsubmitted p.graph s.submitted

  -- What an operation keeps: the invariant, and the work that is left.
  pub record Keeps (s s' : Schedule) : Type 0 where
    pub inv : Inv s'
    pub work : cost s' ≤ cost s

  pub Keeps-trans : {r s t : Schedule} → Keeps r s → Keeps s t → Keeps r t
  Keeps-trans a b = record { inv = b.inv; work = omega (arith, a.work, b.work) }

  -- A node that is stateful may start only as the active one, when all others have ended.
  pub record MayStart (n : ℕ) (s : Schedule) : Type 0 where
    pub owns : is_stateful_tool_node p n ≡ true → s.active ≡ some n
    pub quiet :
        is_stateful_tool_node p n ≡ true
        → (m t : ℕ) → is_stateful_tool_node p m ≡ true
        → get s.start_time_by_id m ≡ some t
        → t + duration_of p m ≤ s.current_time

  Ends-put :
      (starts : Dict ℕ ℕ) (n now : ℕ) (a : Running)
      → get starts n ≡ none
      → Ends starts a
      → Ends (put starts n now) a
  Ends-put starts n now a new (t, found, ends) =
      (t, get-put_old starts n a.node now t new found, ends)

  settled-put :
      (n : ℕ) (s : Schedule)
      → MayStart n s
      → Inv s
      → (m t : ℕ) → is_stateful_tool_node p m ≡ true
      → get (put s.start_time_by_id n s.current_time) m ≡ some t
      → (s.active ≡ some m) ⊎ (t + duration_of p m ≤ s.current_time)
  settled-put n s may v m t stateful found =
      elim (get-put_cases s.start_time_by_id n m s.current_time t found) [
        | inl (same, at) ↦ inl (
            subst (λ k. s.active ≡ some k) same
              (may.owns (subst (λ k. is_stateful_tool_node p k ≡ true) (sym same) stateful)))
        | inr old ↦ v.settled m t stateful old
      ]

  Apart-put :
      (n : ℕ) (s : Schedule)
      → MayStart n s
      → Inv s
      → Apart (put s.start_time_by_id n s.current_time)
  Apart-put n s may v i j t u si sj differ fi fj =
      elim (get-put_cases s.start_time_by_id n i s.current_time t fi) [
        | inl (same, at) ↦ elim (get-put_cases s.start_time_by_id n j s.current_time u fj) [
          | inl (same', at') ↦ absurd (differ (sym same ∙ same'))
          | inr old ↦
              let ended =
                may.quiet (subst (λ k. is_stateful_tool_node p k ≡ true) (sym same) si) j u sj
                  old in
              inr (omega arith)
        ]
        | inr old ↦ elim (get-put_cases s.start_time_by_id n j s.current_time u fj) [
          | inl (same', at') ↦
              let ended =
                may.quiet (subst (λ k. is_stateful_tool_node p k ≡ true) (sym same') sj) i t si
                  old in
              inl (omega arith)
          | inr old' ↦ v.apart i j t u si sj differ old old'
        ]
      ]

  pub submit_view_node-Keeps :
      (n : ℕ) (s : Schedule) → MayStart n s → Inv s → Keeps s (submit_view_node p n s)
  unfolding submit_view_node
  submit_view_node-Keeps n s may v = elim (Bool-cases (elem s.submitted n || not (has p.graph n))) [
    | inl skip ↦ rw skip (record { inv = v; work = omega arith })
    | inr go ↦
        let first_time : elem s.submitted n ≡ false = ground arith in
        let known : has p.graph n ≡ true = ground arith in
        let new = v.fresh n first_time in
        let starts = put s.start_time_by_id n s.current_time in
        let entry : Running = record {
          end_time = s.current_time + duration_of p n;
          order = s.submission_order;
          node = n;
        } in
        rw go (record {
          inv = record {
            late =
                All-heappush (λ a. s.current_time ≤ a.end_time) entry s.pending (omega arith)
                  v.late;
            is_heap = heappush-IsHeap entry s.pending v.is_heap;
            entries =
                All-heappush (Ends starts) entry s.pending
                  (s.current_time, get-put_self s.start_time_by_id n s.current_time, refl)
                  (All-map (λ a h. Ends-put s.start_time_by_id n s.current_time a new h) s.pending
                    v.entries);
            fresh = λ m h. fresh-put s.submitted s.start_time_by_id n m s.current_time v.fresh h;
            settled = settled-put n s may v;
            apart = Apart-put n s may v;
          };
          work = omega (
            arith,
            length-heappush entry s.pending,
            unsubmitted-submit p.graph s.submitted n known first_time,
          );
        })
  ]
