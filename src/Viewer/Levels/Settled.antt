-- ===== src/Viewer/Levels/Settled.antt =====
-- The order of the walk of compute_tool_graph_metrics (atsuite/cli/trace_viewer_metadata.py): a node
-- joins the queue when the sources of all its drawn edges are done, and its level rises no more.
use atsuite.Base.{
  ℕ, zero, suc, ◌+◌, ◌≤◌, ◌<◌, ◌≡◌, refl, sym, subst, true, false, ◌||◌, some, List, [], ◌∷◌, ◌++◌,
  nat_eq, arith, max, Bool-cases, inl, inr,
}
use atsuite.Base.Dict.{Dict, get, get_or, put, keys, has, get-put}
use atsuite.Base.Int.{ℤ, pos, pred_ℤ, is_zero}
use atsuite.Base.Sets.{elem, count, Unique, elem-append}
use atsuite.Viewer.{ViewGraph}
use atsuite.Viewer.Levels.{tool_weight, Walk, lower_at, visit_neighbor}
use atsuite.Viewer.Levels.Edges.{owed, owed-done}

-- The level of a node, zero if it has none yet.
abbrev pub level_at : Dict ℕ ℕ → ℕ → ℕ
level_at levels n = get_or levels n 0

Unique-append_one : (xs : List ℕ) (n : ℕ) → elem xs n ≡ false → Unique xs → Unique (xs ++ n ∷ [])
unfolding elem
Unique-append_one [] n h u = (refl, tt)
Unique-append_one (x ∷ xs) n h u = ground (arith, Unique-append_one xs n, elem-append xs (n ∷ []) x)

module _ (g : ViewGraph) (adjacency : Dict ℕ (List ℕ)) where
  -- What is still to come for a node: the edges of nodes that are not done, and those in `extra`, the
  -- rest of the edges of the node at work.
  abbrev pub to_come : List ℕ → List ℕ → ℕ → ℕ
  to_come done extra m = owed adjacency done m + count extra m

  pub record SettledOn (done extra queue : List ℕ) (indegree : Dict ℕ ℤ) (levels : Dict ℕ ℕ)
      : Type 0 where
    pub degrees : (m : ℕ) → has g m ≡ true → get indegree m ≡ some (pos (to_come done extra m))
    pub joined :
        (m : ℕ) → has g m ≡ true → to_come done extra m ≡ 0 → (elem queue m || elem done m) ≡ true
    pub settled : (m : ℕ) → (elem queue m || elem done m) ≡ true → to_come done extra m ≡ 0
    pub in_graph : (m : ℕ) → (elem queue m || elem done m) ≡ true → has g m ≡ true
    pub once : Unique queue
    pub apart : (m : ℕ) → elem queue m ≡ true → elem done m ≡ false
    pub has_level : (m : ℕ) → (elem queue m || elem done m) ≡ true → has levels m ≡ true
    pub own_weight :
        (m : ℕ) → (elem queue m || elem done m) ≡ true → tool_weight g m ≤ level_at levels m

  abbrev pub Settled : List ℕ → List ℕ → Walk → Type 0
  Settled done extra w = SettledOn done extra w.queue w.indegree w.levels

  -- A level that is written, of a node that has something to come.
  put-Settled :
      (done extra queue : List ℕ) (indegree : Dict ℕ ℤ) (levels : Dict ℕ ℕ) (n v : ℕ)
      → 0 < to_come done extra n
      → SettledOn done extra queue indegree levels
      → SettledOn done extra queue indegree (put levels n v)
  put-Settled done extra queue indegree levels n v open_still s = record {
    degrees = s.degrees;
    joined = s.joined;
    settled = s.settled;
    in_graph = s.in_graph;
    once = s.once;
    apart = s.apart;
    has_level = λ m h. let x = s.has_level m h in ground (arith, get-put levels n m v);
    own_weight = λ m h.
        let x = s.settled m h in
        let y = s.own_weight m h in
        elim (nat_eq.dec n m) [
          | yes same ↦ absurd (ground arith)
          | no differ ↦ ground (arith, get-put levels n m v)
        ];
  }

  -- One edge less; its target joins the queue if it was the last.
  lower_at-Settled :
      (done extra : List ℕ) (n d : ℕ) (w : Walk)
      → has g n ≡ true
      → has w.levels n ≡ true
      → tool_weight g n ≤ level_at w.levels n
      → to_come done extra n ≡ d
      → Settled done (n ∷ extra) w
      → Settled done extra (lower_at (some (pos (suc d))) n w)
  unfolding lower_at pred_ℤ is_zero count elem
  lower_at-Settled done extra n zero w known leveled weight last s =
      let open_still : (elem w.queue n || elem done n) ≡ false =
        elim (Bool-cases (elem w.queue n || elem done n)) [
          | inl h ↦ let x = s.settled n h in absurd (ground arith)
          | inr h ↦ h
        ] in
      record {
        degrees = λ m h. let x = s.degrees m h in ground (arith, get-put w.indegree n m (pos 0));
        joined = λ m h e. let x = s.joined m h in ground (arith, elem-append w.queue (n ∷ []) m);
        settled = λ m h. let x = s.settled m in ground (arith, elem-append w.queue (n ∷ []) m);
        in_graph = λ m h. let x = s.in_graph m in ground (arith, elem-append w.queue (n ∷ []) m);
        once = Unique-append_one w.queue n (ground arith) s.once;
        apart = λ m h. let x = s.apart m in ground (arith, elem-append w.queue (n ∷ []) m);
        has_level = λ m h. let x = s.has_level m in ground (arith, elem-append w.queue (n ∷ []) m);
        own_weight = λ m h. elim (nat_eq.dec n m) [
          | yes same ↦ subst (λ k. tool_weight g k ≤ level_at w.levels k) same weight
          | no differ ↦ s.own_weight m (ground (arith, elem-append w.queue (n ∷ []) m))
        ];
      }
  lower_at-Settled done extra n (suc d) w known leveled weight more s = record {
    degrees = λ m h. let x = s.degrees m h in ground (arith, get-put w.indegree n m (pos (suc d)));
    joined = λ m h e. let x = s.joined m h in ground arith;
    settled = λ m h. let x = s.settled m h in ground arith;
    in_graph = s.in_graph;
    once = s.once;
    apart = s.apart;
    has_level = s.has_level;
    own_weight = s.own_weight;
  }

  -- A level that is at least what the edge asks.
  pub visit_neighbor-Settled :
      (done extra : List ℕ) (current n : ℕ) (w : Walk)
      → has g n ≡ true
      → Settled done (n ∷ extra) w
      → Settled done extra (visit_neighbor g current n w)
  unfolding visit_neighbor count
  visit_neighbor-Settled done extra current n w known s =
      let v = max (get_or w.levels n 0) (current + tool_weight g n) in
      let w' = record w { levels = put w.levels n v } in
      let degree : get w.indegree n ≡ some (pos (suc (to_come done extra n))) =
        (let x = s.degrees n known in ground arith) in
      let put_there = get-put w.levels n n v in
      let next =
        lower_at-Settled done extra n (to_come done extra n) w' known (ground arith) (ground arith)
          refl (put-Settled done (n ∷ extra) w.queue w.indegree w.levels n v (ground arith) s) in
      subst (λ d. Settled done extra (lower_at d n w')) (sym degree) next

  -- The node at the head of the queue is done, and its edges are to be followed.
  pub take-Settled :
      (done queue : List ℕ) (n : ℕ) (w : Walk)
      → Unique (keys adjacency)
      → SettledOn done [] (n ∷ queue) w.indegree w.levels
      → SettledOn (n ∷ done) (get_or adjacency n []) queue w.indegree w.levels
  unfolding elem count
  take-Settled done queue n w u s =
      let open_still = s.apart n (ground arith) in
      let moved = λ (m : ℕ). owed-done done n m open_still adjacency u in
      record {
        degrees = λ m h. let x = s.degrees m h in let y = moved m in ground arith;
        joined = λ m h e. let x = s.joined m h in let y = moved m in ground arith;
        settled = λ m h. let x = s.settled m in let y = moved m in ground arith;
        in_graph = λ m h. let x = s.in_graph m in ground arith;
        once = s.once.1;
        apart = λ m h. let x = s.apart m in let y = s.once.0 in ground arith;
        has_level = λ m h. let x = s.has_level m in ground arith;
        own_weight = λ m h. let x = s.own_weight m in ground arith;
      }
