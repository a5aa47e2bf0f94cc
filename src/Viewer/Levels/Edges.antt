-- ===== src/Viewer/Levels/Edges.antt =====
-- The drawn edges of compute_tool_graph_metrics (atsuite/cli/trace_viewer_metadata.py), and the
-- in-degrees that count them.
use atsuite.Base.{
  ℕ, ◌+◌, ◌<◌, ◌≡◌, refl, sym, ap, subst, ◌∙◌, true, false, Option, none, some, List, [], ◌∷◌, ◌++◌,
  nat_eq, if◌then◌else◌, arith, dec_lt,
}
use atsuite.Base.Dict.{Dict, get, get_or, put, keys, has, get-put}
use atsuite.Base.Int.{ℤ, pos, suc_ℤ}
use atsuite.Base.Sets.{elem, count, Unique, count-append}
use atsuite.Base.Sets.Keys.{Unique-keys-put, has-elem-keys}
use atsuite.Viewer.{ViewGraph}
use atsuite.Viewer.Schedule.{all_zero}
use atsuite.Viewer.Schedule.Degrees.{keys-all_zero}
use atsuite.Viewer.Levels.{Drawn, no_edges, draw_at, draw_edge, draw_edges, draw}

-- How many drawn edges to a node come from nodes that are not done.
unfoldable pub owed : Dict ℕ (List ℕ) → List ℕ → ℕ → ℕ
owed [] done m = 0
owed ((k, targets) ∷ a) done m = (if elem done k then 0 else count targets m) + owed a done m

owed-other :
    (a : Dict ℕ (List ℕ)) (done : List ℕ) (n m : ℕ)
    → elem (keys a) n ≡ false
    → owed a (n ∷ done) m ≡ owed a done m
unfolding owed elem
owed-other [] done n m h = refl
owed-other ((k, targets) ∷ a) done n m h = ground (arith, owed-other a done n m)

-- A node that is done takes its edges away.
pub owed-done :
    (done : List ℕ) (n m : ℕ)
    → elem done n ≡ false
    → (a : Dict ℕ (List ℕ)) → Unique (keys a)
    → owed a done m ≡ owed a (n ∷ done) m + count (get_or a n []) m
unfolding owed elem get count
owed-done done n m open_still [] u = refl
owed-done done n m open_still ((k, targets) ∷ a) u =
    ground (arith, owed-done done n m open_still a, owed-other a done n m)

owed-put :
    (a : Dict ℕ (List ℕ)) (k m : ℕ) (old new : List ℕ)
    → get a k ≡ some old
    → owed (put a k new) [] m + count old m ≡ owed a [] m + count new m
unfolding owed get put elem
owed-put [] k m old new h = cc
owed-put ((j, targets) ∷ a) k m old new h = ground (arith, owed-put a k m old new)

-- Where something is owed, a node that is not done has an edge there.
pub record Debtor (a : Dict ℕ (List ℕ)) (done : List ℕ) (m : ℕ) : Type 0 where
  pub id : ℕ
  pub targets : List ℕ
  pub at : get a id ≡ some targets
  pub open_still : elem done id ≡ false
  pub edge : 0 < count targets m

pub owed-Debtor :
    (a : Dict ℕ (List ℕ)) (done : List ℕ) (m : ℕ)
    → Unique (keys a)
    → 0 < owed a done m
    → Debtor a done m
unfolding owed get
owed-Debtor [] done m u h = absurd (omega arith)
owed-Debtor ((k, targets) ∷ a) done m u h = elim (dec_lt 0 (owed a done m)) [
  | yes more ↦
      let d = owed-Debtor a done m u.1 more in
      record {
        id = d.id;
        targets = d.targets;
        at = ground (arith, u.0, has-elem-keys a d.id, d.at);
        open_still = d.open_still;
        edge = d.edge;
      }
  | no here ↦ record {
    id = k;
    targets = targets;
    at = ground arith;
    open_still = ground arith;
    edge = ground arith;
  }
]

-- An edge that is drawn is owed as long as its source is not done.
pub owed-edge : (a : Dict ℕ (List ℕ)) (k m : ℕ) → 0 < count (get_or a k []) m → 0 < owed a [] m
unfolding owed get count elem
owed-edge [] k m h = h
owed-edge ((j, targets) ∷ a) k m h = ground (arith, owed-edge a k m)

-- What drawing keeps: both dicts have the nodes of the graph as keys, each once, and the in-degree of
-- a node is the number of the edges drawn to it.
pub record IsCounted (g : ViewGraph) (d : Drawn) : Type 0 where
  pub sources : Unique (keys d.adjacency)
  pub targets : Unique (keys d.indegree)
  pub covered : (m : ℕ) → has d.adjacency m ≡ has g m
  pub known : (m : ℕ) → has g m ≡ true → get d.indegree m ≡ some (pos (owed d.adjacency [] m))
  pub unknown : (m : ℕ) → has g m ≡ false → get d.indegree m ≡ none
  pub unowed : (m : ℕ) → has g m ≡ false → owed d.adjacency [] m ≡ 0

draw_at-IsCounted :
    (g : ViewGraph) (targets : Option (List ℕ)) (z : Option ℤ) (source target : ℕ) (d : Drawn)
    → get d.adjacency source ≡ targets
    → get d.indegree target ≡ z
    → IsCounted g d
    → IsCounted g (draw_at targets z source target d)
unfolding draw_at suc_ℤ count
draw_at-IsCounted g none z source target d at there c = c
draw_at-IsCounted g (some ts) none source target d at there c = c
draw_at-IsCounted g (some ts) (some z) source target d at there c =
    let owed_more = λ (m : ℕ). owed-put d.adjacency source m ts (ts ++ target ∷ []) at in
    let longer = λ (m : ℕ). count-append ts (target ∷ []) m in
    record {
      sources = Unique-keys-put d.adjacency source (ts ++ target ∷ []) c.sources;
      targets = Unique-keys-put d.indegree target (suc_ℤ z) c.targets;
      covered = λ m.
          let old = c.covered m in
          let e = get-put d.adjacency source m (ts ++ target ∷ []) in ground arith;
      known = λ m h.
          let old = c.known m h in
          let e = get-put d.indegree target m (suc_ℤ z) in
          let x = owed_more m in let y = longer m in ground arith;
      unknown = λ m h.
          let old = c.unknown m h in let e = get-put d.indegree target m (suc_ℤ z) in ground arith;
      unowed = λ m h.
          let old = c.unknown m h in
          let paid = c.unowed m h in let x = owed_more m in let y = longer m in ground arith;
    }

draw_edges-IsCounted :
    (g : ViewGraph) (edges : List (ℕ × ℕ)) (d : Drawn)
    → IsCounted g d
    → IsCounted g (draw_edges edges d)
unfolding draw_edges draw_edge
draw_edges-IsCounted g [] d c = c
draw_edges-IsCounted g ((source, target) ∷ edges) d c =
    draw_edges-IsCounted g edges (draw_edge source target d) (
      draw_at-IsCounted g (get d.adjacency source) (get d.indegree target) source target d refl refl
        c)

keys-no_edges : (g : ViewGraph) → keys (no_edges g) ≡ keys g
unfolding no_edges
keys-no_edges [] = refl
keys-no_edges ((k, node) ∷ g) = ap (◌∷◌ k) (keys-no_edges g)

owed-no_edges : (g : ViewGraph) (m : ℕ) → owed (no_edges g) [] m ≡ 0
unfolding owed no_edges elem count
owed-no_edges [] m = refl
owed-no_edges ((k, node) ∷ g) m = omega (arith, owed-no_edges g m)

get-all_zero :
    (g : ViewGraph) (m : ℕ) → get (all_zero g) m ≡ (if has g m then some (pos 0) else none)
unfolding all_zero get
get-all_zero [] m = refl
get-all_zero ((k, node) ∷ g) m = ground (arith, get-all_zero g m)

pub draw-IsCounted :
    (g : ViewGraph) (edges : List (ℕ × ℕ)) → Unique (keys g) → IsCounted g (draw g edges)
unfolding draw
draw-IsCounted g edges u =
    draw_edges-IsCounted g edges (record { adjacency = no_edges g; indegree = all_zero g })
      (record {
        sources = subst Unique (sym (keys-no_edges g)) u;
        targets = subst Unique (sym (keys-all_zero g)) u;
        covered = λ m.
            has-elem-keys (no_edges g) m
            ∙ ap (λ ks. elem ks m) (keys-no_edges g)
            ∙ sym (has-elem-keys g m);
        known = λ m h. let e = get-all_zero g m in let o = owed-no_edges g m in ground arith;
        unknown = λ m h. let e = get-all_zero g m in ground arith;
        unowed = λ m h. owed-no_edges g m;
      })
