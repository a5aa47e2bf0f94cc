-- ===== src/Viewer/Levels/Paths.antt =====
-- The walk of compute_tool_graph_metrics (atsuite/cli/trace_viewer_metadata.py), against drawn paths.
use atsuite.Base.{
  ℕ, ◌+◌, ◌≤◌, ◌≡◌, refl, sym, subst, Option, none, some, List, [], ◌∷◌, nat_eq, length,
  length-append, arith, All, All-append, All-map, In, Bool-cases, inl, inr, max,
}
use atsuite.Base.Dict.{Dict, get, get_or, put, get-put_self, All-put, All-get}
use atsuite.Base.Int.{ℤ, pred_ℤ, is_zero}
use atsuite.Viewer.{ViewGraph}
use atsuite.Viewer.Levels.{tool_weight, Walk, lower_at, visit_neighbor, visit_neighbors, walk_node}
use atsuite.Viewer.Levels.Counts.{
  positives, weight_of, positives-put, weight-pred, max_cases, all_in, put_keeps,
}

-- The work that is left to the walk.
abbrev pub left : Walk → ℕ
left w = length w.queue + positives w.indegree

module _ (g : ViewGraph) (adjacency : Dict ℕ (List ℕ)) where
  -- A drawn path that ends at a node, with the number of tools on it.
  pub data ToolPath : ℕ → ℕ → Type 0 where
    single : (n k : ℕ) → k ≡ tool_weight g n → ToolPath n k
    extend :
        (m n l k : ℕ)
        → ToolPath m l
        → In n (get_or adjacency m [])
        → k ≡ l + tool_weight g n
        → ToolPath n k

  abbrev pub Reached : ℕ × ℕ → Type 0
  Reached entry = ToolPath entry.0 entry.1

  -- Every level is that of a path, and what waits in the queue has a level.
  pub record WalkInv (w : Walk) : Type 0 where
    pub paths : All Reached w.levels
    pub queued : All (λ n. (l : ℕ) × (get w.levels n ≡ some l)) w.queue

  pub record Walks (w w' : Walk) : Type 0 where
    pub inv : WalkInv w'
    pub work : left w' ≤ left w
    pub keeps_levels : (n l : ℕ) → get w.levels n ≡ some l → (l' : ℕ) × (get w'.levels n ≡ some l')

  lower_at-Walks :
      (d : Option ℤ) (n : ℕ) (w : Walk)
      → get w.indegree n ≡ d
      → ((l : ℕ) × (get w.levels n ≡ some l))
      → WalkInv w
      → Walks w (lower_at d n w)
  unfolding lower_at
  lower_at-Walks none n w e has_level v = record {
    inv = v;
    work = omega arith;
    keeps_levels = λ m l h. (l, h);
  }
  lower_at-Walks (some d) n w e has_level v = elim (Bool-cases (is_zero (pred_ℤ d))) [
    | inl last ↦
        let drop : 1 + weight_of (pred_ℤ d) ≤ weight_of d = ground (arith, weight-pred d) in
        rw last (record {
          inv = record {
            paths = v.paths;
            queued =
                All-append (λ m. (l : ℕ) × (get w.levels m ≡ some l)) w.queue (n ∷ []) v.queued
                  (has_level, tt);
          };
          work = omega (
            arith,
            length-append {0} w.queue (n ∷ []),
            positives-put w.indegree n d (pred_ℤ d) e,
          );
          keeps_levels = λ m l h. (l, h);
        })
    | inr more ↦
        let drop : weight_of (pred_ℤ d) ≤ weight_of d = ground (arith, weight-pred d) in
        rw more (record {
          inv = record { paths = v.paths; queued = v.queued };
          work = omega (arith, positives-put w.indegree n d (pred_ℤ d) e);
          keeps_levels = λ m l h. (l, h);
        })
  ]

  put-Walks :
      (n new : ℕ) (w : Walk)
      → ToolPath n new
      → WalkInv w
      → Walks w (record w { levels = put w.levels n new })
  put-Walks n new w path v = record {
    inv = record {
      paths = All-put Reached w.levels n new v.paths path;
      queued = All-map (λ m h. put_keeps w.levels n m new h.0 h.1) w.queue v.queued;
    };
    work = omega arith;
    keeps_levels = λ m l h. put_keeps w.levels n m new l h;
  }

  Walks-trans : {w x y : Walk} → Walks w x → Walks x y → Walks w y
  Walks-trans a b = record {
    inv = b.inv;
    work = omega (arith, a.work, b.work);
    keeps_levels = λ n l h. let (l', h') = a.keeps_levels n l h in b.keeps_levels n l' h';
  }

  -- The larger of two levels of a node is one of them.
  path-max :
      (n x : ℕ) (old : Option ℕ)
      → ((l : ℕ) → old ≡ some l → ToolPath n l)
      → ToolPath n x
      → ToolPath n (max (elim old [ none ↦ 0 | some l ↦ l ]) x)
  path-max n x none paths path = subst (ToolPath n) (omega arith) path
  path-max n x (some l) paths path = elim (max_cases l x) [
    | inl e ↦ subst (ToolPath n) (sym e) (paths l refl)
    | inr e ↦ subst (ToolPath n) (sym e) path
  ]

  visit_neighbor-Walks :
      (m current n : ℕ) (w : Walk)
      → ToolPath m current
      → In n (get_or adjacency m [])
      → WalkInv w
      → Walks w (visit_neighbor g current n w)
  unfolding visit_neighbor
  visit_neighbor-Walks m current n w path edge v =
      let new = max (get_or w.levels n 0) (current + tool_weight g n) in
      let longer =
        path-max n (current + tool_weight g n) (get w.levels n)
          (λ l h. All-get Reached w.levels n l v.paths h)
          (extend m n current (current + tool_weight g n) path edge refl) in
      let w' = record w { levels = put w.levels n new } in
      let k = put-Walks n new w longer v in
      Walks-trans k
        (lower_at-Walks (get w.indegree n) n w' refl (new, get-put_self w.levels n new) k.inv)

  visit_neighbors-Walks :
      (m current : ℕ) (neighbors : List ℕ) (w : Walk)
      → ToolPath m current
      → All (λ n. In n (get_or adjacency m [])) neighbors
      → WalkInv w
      → Walks w (visit_neighbors g current neighbors w)
  unfolding visit_neighbors
  visit_neighbors-Walks m current [] w path edges v = record {
    inv = v;
    work = omega arith;
    keeps_levels = λ n l h. (l, h);
  }
  visit_neighbors-Walks m current (n ∷ neighbors) w path edges v =
      let k = visit_neighbor-Walks m current n w path edges.0 v in
      Walks-trans k (
        visit_neighbors-Walks m current neighbors (visit_neighbor g current n w) path edges.1 k.inv)

  pub walk_node-Walks :
      (n : ℕ) (w : Walk)
      → ((l : ℕ) × (get w.levels n ≡ some l))
      → WalkInv w
      → Walks w (walk_node g adjacency n w)
  unfolding walk_node
  walk_node-Walks n w (l, found) v =
      let level : get_or w.levels n 0 ≡ l = rw (found, get_or) in
      visit_neighbors-Walks n (get_or w.levels n 0) (get_or adjacency n []) w
        (subst (ToolPath n) (sym level) (All-get Reached w.levels n l v.paths found))
        (all_in (get_or adjacency n [])) v
