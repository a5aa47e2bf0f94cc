-- ===== src/Viewer/Levels/Raised.antt =====
-- The levels along the drawn edges in the walk of compute_tool_graph_metrics
-- (atsuite/cli/trace_viewer_metadata.py): the target of an edge is above the source that is done.
use atsuite.Base.{
  ℕ, zero, suc, ◌+◌, ◌≤◌, ◌≡◌, refl, sym, ap, subst, ◌∙◌, true, false, Option, none, some, List, [],
  ◌∷◌, nat_eq, ◌==◌, if◌then◌else◌, arith, max,
}
use atsuite.Base.Dict.{Dict, get, get_or, put, keys, has, get-put}
use atsuite.Base.Int.{ℤ}
use atsuite.Base.Sets.{elem, count, Unique}
use atsuite.Viewer.{ViewGraph}
use atsuite.Viewer.Levels.{
  tool_weight, Walk, lower_at, visit_neighbor, visit_neighbors, walk_node, walk_queue, walk,
}
use atsuite.Viewer.Levels.Settled.{
  level_at, Settled, SettledOn, visit_neighbor-Settled, take-Settled,
}

lower_at-levels : (d : Option ℤ) (n : ℕ) (w : Walk) → (lower_at d n w).levels ≡ w.levels
unfolding lower_at
lower_at-levels none n w = refl
lower_at-levels (some d) n w = refl

module _ (g : ViewGraph) (adjacency : Dict ℕ (List ℕ)) where
  abbrev pub DrawnTo : ℕ → ℕ → Type 0
  DrawnTo k n = elem (get_or adjacency k []) n ≡ true

  -- The level of the target has room for that of the source and the target's own weight.
  abbrev pub Above : Dict ℕ ℕ → ℕ → ℕ → Type 0
  Above levels k n = level_at levels k + tool_weight g n ≤ level_at levels n

  abbrev pub Raised : List ℕ → Dict ℕ ℕ → Type 0
  Raised done levels = (k n : ℕ) → elem done k ≡ true → DrawnTo k n → Above levels k n

  -- While the edges of `current` are followed, of which those in `extra` are left.
  record Running (current : ℕ) (done extra : List ℕ) (level : ℕ) (w : Walk) : Type 0 where
    settled : Settled g adjacency (current ∷ done) extra w
    raised : Raised done w.levels
    now : (n : ℕ) → DrawnTo current n → elem extra n ≡ false → Above w.levels current n
    same_level : level_at w.levels current ≡ level

  level_at-visit :
      (level n m : ℕ) (w : Walk)
      → level_at (visit_neighbor g level n w).levels m ≡ (
          if n == m
          then max (level_at w.levels n) (level + tool_weight g n)
          else level_at w.levels m)
  unfolding visit_neighbor
  level_at-visit level n m w =
      let v = max (level_at w.levels n) (level + tool_weight g n) in
      let w' = record w { levels = put w.levels n v } in
      ap (λ d. level_at d m) (lower_at-levels (get w.indegree n) n w')
      ∙ ground (arith, get-put w.levels n m v)

  -- A node that is done is not the target of an edge to come.
  done_differs :
      (done extra : List ℕ) (n k : ℕ) (w : Walk)
      → Settled g adjacency done (n ∷ extra) w
      → elem done k ≡ true
      → (n == k) ≡ false
  unfolding count
  done_differs done extra n k w s h = elim (nat_eq.dec n k) [
    | yes same ↦ let x = s.settled k (ground arith) in absurd (ground arith)
    | no differ ↦ ground arith
  ]

  -- Levels only rise, and those of the nodes that are done stay.
  visit_neighbor-Above :
      (done extra : List ℕ) (level n k m : ℕ) (w : Walk)
      → Settled g adjacency done (n ∷ extra) w
      → elem done k ≡ true
      → Above w.levels k m
      → Above (visit_neighbor g level n w).levels k m
  visit_neighbor-Above done extra level n k m w s h above =
      let differ = done_differs done extra n k w s h in
      let at_k = level_at-visit level n k w in
      let at_m = level_at-visit level n m w in
      elim (nat_eq.dec n m) [
        | yes same ↦
            let hit : (n == m) ≡ true = ground arith in
            let source : level_at (visit_neighbor g level n w).levels k ≡ level_at w.levels k =
              at_k ∙ rw differ refl in
            let target : level_at (visit_neighbor g level n w).levels m
                ≡ max (level_at w.levels n) (level + tool_weight g n) =
              at_m ∙ rw hit refl in
            let old : level_at w.levels n ≡ level_at w.levels m = ap (level_at w.levels) same in
            omega arith
        | no other ↦
            let miss : (n == m) ≡ false = ground arith in
            let source : level_at (visit_neighbor g level n w).levels k ≡ level_at w.levels k =
              at_k ∙ rw differ refl in
            let target : level_at (visit_neighbor g level n w).levels m ≡ level_at w.levels m =
              at_m ∙ rw miss refl in
            omega arith
      ]

  -- The edge that is followed puts its target above the current node.
  visit_neighbor-followed :
      (current : ℕ) (done extra : List ℕ) (level n : ℕ) (w : Walk)
      → Running current done (n ∷ extra) level w
      → Above (visit_neighbor g level n w).levels current n
  unfolding elem
  visit_neighbor-followed current done extra level n w r =
      let differ = done_differs (current ∷ done) extra n current w r.settled (ground arith) in
      let source : level_at (visit_neighbor g level n w).levels current
          ≡ level_at w.levels current =
        level_at-visit level n current w ∙ rw differ refl in
      let hit : (n == n) ≡ true = ground arith in
      let target : level_at (visit_neighbor g level n w).levels n
          ≡ max (level_at w.levels n) (level + tool_weight g n) =
        level_at-visit level n n w ∙ rw hit refl in
      omega (arith, r.same_level)

  visit_neighbor-Running :
      (current : ℕ) (done extra : List ℕ) (level n : ℕ) (w : Walk)
      → has g n ≡ true
      → Running current done (n ∷ extra) level w
      → Running current done extra level (visit_neighbor g level n w)
  unfolding elem
  visit_neighbor-Running current done extra level n w known r =
      let keeps = λ (k m : ℕ) (h : elem (current ∷ done) k ≡ true) (a : Above w.levels k m).
        visit_neighbor-Above (current ∷ done) extra level n k m w r.settled h a in
      record {
        settled =
            visit_neighbor-Settled g adjacency (current ∷ done) extra level n w known r.settled;
        raised = λ k m h edge. keeps k m (ground arith) (r.raised k m h edge);
        now = λ m edge h. elim (nat_eq.dec n m) [
          | yes same ↦
              subst (Above (visit_neighbor g level n w).levels current) same
                (visit_neighbor-followed current done extra level n w r)
          | no differ ↦ keeps current m (ground arith) (r.now m edge (ground arith))
        ];
        same_level =
            let differ = done_differs (current ∷ done) extra n current w r.settled (ground arith) in
            level_at-visit level n current w ∙ rw differ r.same_level;
      }

  visit_neighbors-Running :
      (current : ℕ) (done extra : List ℕ) (level : ℕ) (w : Walk)
      → ((n : ℕ) → elem extra n ≡ true → has g n ≡ true)
      → Running current done extra level w
      → Running current done [] level (visit_neighbors g level extra w)
  unfolding visit_neighbors elem
  visit_neighbors-Running current done [] level w known r = r
  visit_neighbors-Running current done (n ∷ extra) level w known r =
      visit_neighbors-Running current done extra level (visit_neighbor g level n w)
        (λ m h. known m (ground arith))
        (visit_neighbor-Running current done extra level n w (known n (ground arith)) r)

  -- Between two nodes of the walk.
  pub record Idle (done : List ℕ) (w : Walk) : Type 0 where
    pub settled : Settled g adjacency done [] w
    pub raised : Raised done w.levels

  module _ (sources : Unique (keys adjacency))
      (known : (k n : ℕ) → DrawnTo k n → has g n ≡ true) where
    walk_node-Idle :
        (done queue : List ℕ) (n : ℕ) (w : Walk)
        → w.queue ≡ n ∷ queue
        → Idle done w
        → Idle (n ∷ done) (walk_node g adjacency n (record w { queue = queue }))
    unfolding walk_node elem
    walk_node-Idle done queue n w e i =
        let w' = record w { queue = queue } in
        let before = subst (λ q. SettledOn g adjacency done [] q w.indegree w.levels) e i.settled in
        let start : Running n done (get_or adjacency n []) (level_at w.levels n) w' = record {
          settled = take-Settled g adjacency done queue n w sources before;
          raised = i.raised;
          now = λ m edge h. absurd (ground arith);
          same_level = refl;
        } in
        let r =
          visit_neighbors-Running n done (get_or adjacency n []) (level_at w.levels n) w'
            (λ m h. known n m h) start in
        record {
          settled = r.settled;
          raised = λ k m h edge. elim (nat_eq.dec n k) [
            | yes same ↦
                subst (λ j. Above (walk_node g adjacency n w').levels j m) same
                  (r.now m (subst (λ j. DrawnTo j m) (sym same) edge) refl)
            | no differ ↦ r.raised k m (ground arith) edge
          ];
        }

    walk_queue-Idle :
        (f : ℕ) (queue done : List ℕ) (w y : Walk)
        → w.queue ≡ queue
        → ((done' : List ℕ) (x : Walk)
            → Idle done' x
            → walk f g adjacency x ≡ some y
            → (last : List ℕ) × Idle last y × (y.queue ≡ []))
        → Idle done w
        → walk_queue (walk f g adjacency) g adjacency queue w ≡ some y
        → (last : List ℕ) × Idle last y × (y.queue ≡ [])
    unfolding walk_queue
    walk_queue-Idle f [] done w y e ih i h =
        let same : w ≡ y = ground arith in
        subst (λ x. (last : List ℕ) × Idle last x × (x.queue ≡ [])) same (done, i, e)
    walk_queue-Idle f (n ∷ queue) done w y e ih i h =
        ih (n ∷ done) (walk_node g adjacency n (record w { queue = queue }))
          (walk_node-Idle done queue n w e i) h

    -- When the walk ends, every node that was to be done is.
    pub walk-Idle :
        (f : ℕ) (done : List ℕ) (w y : Walk)
        → Idle done w
        → walk f g adjacency w ≡ some y
        → (last : List ℕ) × Idle last y × (y.queue ≡ [])
    unfolding walk
    walk-Idle zero done w y i h = cc
    walk-Idle (suc f) done w y i h =
        walk_queue-Idle f w.queue done w y refl (λ d x. walk-Idle f d x y) i h
