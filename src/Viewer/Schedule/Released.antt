-- ===== src/Viewer/Schedule/Released.antt =====
-- The end of nodes in compute_scheduled_start_times (atsuite/cli/trace_viewer_metadata.py): what waits
-- for them becomes ready.
use atsuite.Base.{
  ℕ, Bool, ◌+◌, ◌≡◌, ◌⊎◌, refl, sym, ap, subst, ◌∙◌, true, false, Option, none, some, List, [], ◌∷◌,
  ◌++◌, nat_eq, ◌==◌, if◌then◌else◌, arith, All, Bool-cases, inl, inr,
}
use atsuite.Base.Dict.{get, has, keys, get-put}
use atsuite.Base.Int.{ℤ, pos, pred_ℤ, is_zero}
use atsuite.Base.Sets.{elem, add, count, Unique, elem-add}
use atsuite.Viewer.Schedule.{
  Schedule, Input, release_at, release_target, release_targets, deactivate, targets_of,
  complete_view_node, complete_view_nodes,
}
use atsuite.Viewer.Schedule.Steps.{EndsAt}
use atsuite.Viewer.Schedule.Debts.{owes, owes-end}
use atsuite.Viewer.Schedule.Order.{InOrder}
use atsuite.Viewer.Schedule.Disjoint.{release_targets-same}
use atsuite.Viewer.Schedule.Ordered.{count_first, release_at-InOrder, end-InOrder}
use atsuite.Viewer.Schedule.Progress.{Live, Busy}

-- The ready ids after one more, or none, was added.
elem-released :
    (b : Bool) (xs : List ℕ) (n m : ℕ)
    → elem (if b then add xs n else xs) m ≡ true
    → (n ≡ m) ⊎ (elem xs m ≡ true)
elem-released true xs n m h = elim (nat_eq.dec n m) [
  | yes same ↦ inl same
  | no differ ↦ inr (ground (arith, elem-add xs n m))
]
elem-released false xs n m h = inr h

released_old :
    (b : Bool) (xs : List ℕ) (n m : ℕ)
    → elem xs m ≡ true
    → elem (if b then add xs n else xs) m ≡ true
released_old true xs n m h = ground (arith, elem-add xs n m)
released_old false xs n m h = h

Unique-released : (b : Bool) (xs : List ℕ) (n : ℕ) → Unique xs → Unique (if b then add xs n else xs)
unfolding add
Unique-released true xs n u = elim (Bool-cases (elem xs n)) [ inl e ↦ rw e u | inr e ↦ rw e (e, u) ]
Unique-released false xs n u = u

module _ (p : Input) where
  -- An edge is released, and its target may be ready.
  release_at-Live :
      (ended extra live : List ℕ) (d : Option ℤ) (n : ℕ) (s : Schedule)
      → get s.in_degree n ≡ d
      → InOrder p ended (n ∷ extra) live s
      → Live p ended (n ∷ extra) live s
      → Live p ended extra live (release_at d n s)
  unfolding release_at count
  release_at-Live ended extra live none n s missing o v = record {
    covered = v.covered;
    in_graph = v.in_graph;
    paid_known = λ m known paid. elim (nat_eq.dec n m) [
      | yes same ↦ let (z, at) = v.covered m known in absurd (ground arith)
      | no differ ↦ v.paid_known m known (ground arith)
    ];
    started = v.started;
    runs = v.runs;
    ended_known = v.ended_known;
    ready_known = v.ready_known;
    ready_new = v.ready_new;
    ready_unique = v.ready_unique;
  }
  release_at-Live ended extra live (some z) n s found o v =
      let z_is = o.degree n z found in
      let new : elem s.submitted n ≡ false = elim (Bool-cases (elem s.submitted n)) [
        | inr e ↦ e
        | inl e ↦ let x = o.submitted_paid n e in absurd (ground arith)
      ] in
      record {
        covered = λ m known.
            let (y, at) = v.covered m known in
            elim (nat_eq.dec n m) [
              | yes same ↦ (pred_ℤ z, ground (arith, get-put s.in_degree n m (pred_ℤ z)))
              | no differ ↦ (y, ground (arith, get-put s.in_degree n m (pred_ℤ z)))
            ];
        in_graph = λ m y h. elim (nat_eq.dec n m) [
          | yes same ↦ subst (λ j. has p.graph j ≡ true) same (v.in_graph n z found)
          | no differ ↦ v.in_graph m y (ground (arith, get-put s.in_degree n m (pred_ℤ z)))
        ];
        paid_known = λ m known paid. elim (nat_eq.dec n m) [
          | no differ ↦ elim (v.paid_known m known (ground arith)) [
            | inl r ↦ inl (released_old (is_zero (pred_ℤ z)) s.ready n m r)
            | inr r ↦ inr r
          ]
          | yes same ↦
              let paid' : owes p.graph ended n + count extra n ≡ 0 =
                subst (λ j. owes p.graph ended j + count extra j ≡ 0) (sym same) paid in
              let last : z ≡ pos 1 = z_is ∙ ap pos (omega (arith, count_first n extra, paid')) in
              let hit : is_zero (pred_ℤ z) ≡ true = ap (λ y. is_zero (pred_ℤ y)) last in
              inl (ground (arith, elem-add s.ready n m))
        ];
        started = v.started;
        runs = v.runs;
        ended_known = v.ended_known;
        ready_known = λ m h. elim (elem-released (is_zero (pred_ℤ z)) s.ready n m h) [
          | inl same ↦ subst (λ j. has p.graph j ≡ true) same (v.in_graph n z found)
          | inr r ↦ v.ready_known m r
        ];
        ready_new = λ m h. elim (elem-released (is_zero (pred_ℤ z)) s.ready n m h) [
          | inl same ↦ subst (λ j. elem s.submitted j ≡ false) same new
          | inr r ↦ v.ready_new m r
        ];
        ready_unique = Unique-released (is_zero (pred_ℤ z)) s.ready n v.ready_unique;
      }

  deactivate-busy :
      (n a : ℕ) (live : List ℕ) (active : Option ℕ)
      → (active ≡ some a → elem (n ∷ live) a ≡ true)
      → deactivate n active ≡ some a
      → elem live a ≡ true
  unfolding deactivate elem
  deactivate-busy n a live none busy e = cc
  deactivate-busy n a live (some m) busy e = elim (Bool-cases (n == m)) [
    | inl hit ↦ absurd (ground arith)
    | inr other ↦ let same : m ≡ a = ground arith in let x = busy (ap some same) in ground arith
  ]

  release_targets-Live :
      (ended live targets : List ℕ) (s : Schedule)
      → InOrder p ended targets live s
      → Live p ended targets live s
      → InOrder p ended [] live (release_targets targets s)
        × Live p ended [] live (release_targets targets s)
  unfolding release_targets release_target
  release_targets-Live ended live [] s o v = (o, v)
  release_targets-Live ended live (n ∷ targets) s o v =
      release_targets-Live ended live targets (release_target n s)
        (release_at-InOrder p ended targets live (get s.in_degree n) n s refl o)
        (release_at-Live ended targets live (get s.in_degree n) n s refl o v)

  release_at-active : (d : Option ℤ) (n : ℕ) (s : Schedule) → (release_at d n s).active ≡ s.active
  unfolding release_at
  release_at-active none n s = refl
  release_at-active (some d) n s = refl

  release_targets-active :
      (targets : List ℕ) (s : Schedule) → (release_targets targets s).active ≡ s.active
  unfolding release_targets release_target
  release_targets-active [] s = refl
  release_targets-active (n ∷ targets) s =
      release_targets-active targets (release_target n s)
      ∙ release_at-active (get s.in_degree n) n s

  pub record Steady (ended live : List ℕ) (s : Schedule) : Type 0 where
    pub order : InOrder p ended [] live s
    pub lives : Live p ended [] live s
    pub busy : Busy p live s

  module _ (unique : Unique (keys p.graph)) where
    end-Live :
        (ended live : List ℕ) (n : ℕ) (s : Schedule)
        → InOrder p ended [] (n ∷ live) s
        → Live p ended [] (n ∷ live) s
        → Live p (n ∷ ended) (targets_of p n) live s
    unfolding elem count
    end-Live ended live n s o v =
        let open_still : elem ended n ≡ false = o.open_still n (ground arith) in
        let debt : (m : ℕ)
            → owes p.graph ended m ≡ owes p.graph (n ∷ ended) m + count (targets_of p n) m =
          λ m. owes-end p ended n m unique open_still in
        record {
          covered = v.covered;
          in_graph = v.in_graph;
          paid_known = λ m known paid. v.paid_known m known (omega (arith, paid, debt m));
          started = v.started;
          runs = λ m h. elim (v.runs m h) [
            | inl e ↦ inl (ground arith)
            | inr e ↦ elim (nat_eq.dec n m) [
              | yes same ↦ inl (ground arith)
              | no differ ↦ inr (ground arith)
            ]
          ];
          ended_known = λ m h. elim (nat_eq.dec n m) [
            | yes same ↦ subst (λ j. elem s.submitted j ≡ true) same (o.known n (ground arith))
            | no differ ↦ v.ended_known m (ground arith)
          ];
          ready_known = v.ready_known;
          ready_new = v.ready_new;
          ready_unique = v.ready_unique;
        }

    pub complete_view_nodes-Steady :
        (ids live ended : List ℕ) (s : Schedule)
        → All (EndsAt p s.start_time_by_id s.current_time) ids
        → Steady ended (ids ++ live) s
        → (ended' : List ℕ) × Steady ended' live (complete_view_nodes p ids s)
    unfolding complete_view_nodes complete_view_node
    complete_view_nodes-Steady [] live ended s ends k = (ended, k)
    complete_view_nodes-Steady (n ∷ ids) live ended s ends k =
        let s₁ = record s { active = deactivate n s.active } in
        let s₂ = complete_view_node p n s in
        let (o, v) =
          release_targets-Live (n ∷ ended) (ids ++ live) (targets_of p n) s₁
            (end-InOrder p unique ended (ids ++ live) n (deactivate n s.active) s ends.0 k.order)
            (end-Live ended (ids ++ live) n s k.order k.lives) in
        let (starts, now) = release_targets-same p (targets_of p n) s₁ in
        let ends' : All (EndsAt p s₂.start_time_by_id s₂.current_time) ids =
          subst (λ d. All (EndsAt p d s₂.current_time) ids) (sym starts)
            (subst (λ t. All (EndsAt p s.start_time_by_id t) ids) (sym now) ends.1) in
        complete_view_nodes-Steady ids live (n ∷ ended) s₂ ends' (record {
          order = o;
          lives = v;
          busy = λ a e.
              deactivate-busy n a (ids ++ live) s.active (k.busy a)
                (sym (release_targets-active (targets_of p n) s₁) ∙ e);
        })
