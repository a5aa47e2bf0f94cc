-- ===== src/Replay/Setup/Counts.antt =====
-- What the survey of `run_node` (atsuite/invoker.py) has counted when it raises nothing.
use atsuite.Base.{
  ℕ, ◌+◌, ◌<◌, ◌≡◌, refl, String, none, some, List, [], ◌∷◌, true, false, nat_eq, string_eq, ◌==◌,
  if◌then◌else◌, arith, Bool-cases, Option-cases, inl, inr, ◌∙◌, sym, subst, dec_lt,
}
use atsuite.Base.Dict.{Dict, get, put, has, get-put}
use atsuite.Base.Int.{ℤ, pos, suc_ℤ}
use atsuite.Base.Sets.{elem}
use atsuite.Result.{ok, >>=-eq-ok}
use atsuite.Scheduler.{ToolAccess}
use atsuite.Trace.{Edge, Node, Graph}
use atsuite.Trace.Index.{IsKeyed}
use atsuite.Pipeline.Data.{TraceRoute}
use atsuite.Replay.Setup.{zeros, count_edge, count_edges, survey_node, survey}
use atsuite.Replay.Loop.Invariant.{edges_to, owed}

pub get-zeros : (g : Graph) (t : ℕ) → get (zeros g) t ≡ (if has g t then some (pos 0) else none)
unfolding get zeros
get-zeros [] t = refl
get-zeros ((k, node) ∷ g) t = ground (arith, get-zeros g t)

-- The counts of `d` have grown by `edges` into those of `d'`; a count was there for each target.
pub record Counted (reachable : List ℕ) (d : Dict ℕ ℤ) (amount : ℕ → ℕ) (d' : Dict ℕ ℤ)
    : Type 0 where
  pub grown :
      (t k : ℕ)
      → elem reachable t ≡ true
      → get d t ≡ some (pos k)
      → get d' t ≡ some (pos (k + amount t))
  pub there : (t : ℕ) → elem reachable t ≡ true → 0 < amount t → has d t ≡ true
  pub same_keys : (t : ℕ) → has d' t ≡ has d t

Counted-cong :
    (reachable : List ℕ) (d d' : Dict ℕ ℤ) (a b : ℕ → ℕ)
    → ((t : ℕ) → a t ≡ b t)
    → Counted reachable d a d'
    → Counted reachable d b d'
Counted-cong reachable d d' a b same x = record {
  grown = λ t k r e. rw (← same t) (x.grown t k r e);
  there = λ t r h. x.there t r (omega (arith, same t));
  same_keys = x.same_keys;
}

Counted-refl : (reachable : List ℕ) (d : Dict ℕ ℤ) → Counted reachable d (λ t. 0) d
Counted-refl reachable d = record {
  grown = λ t k r e. ground arith;
  there = λ t r h. absurd (omega arith);
  same_keys = λ t. refl;
}

Counted-trans :
    (reachable : List ℕ) (d d₁ d' : Dict ℕ ℤ) (a b : ℕ → ℕ)
    → Counted reachable d a d₁
    → Counted reachable d₁ b d'
    → Counted reachable d (λ t. a t + b t) d'
Counted-trans reachable d d₁ d' a b x y = record {
  grown = λ t k r e. ground (arith, x.grown t k r e, y.grown t (k + a t) r);
  there = λ t r h. elim (dec_lt 0 (a t)) [
    | yes more ↦ x.there t r more
    | no stop ↦ sym (x.same_keys t) ∙ y.there t r (omega arith)
  ];
  same_keys = λ t. y.same_keys t ∙ x.same_keys t;
}

Counted-put :
    (reachable : List ℕ) (d : Dict ℕ ℤ) (n : ℕ) (x : ℤ)
    → get d n ≡ some x
    → Counted reachable d (λ t. if n == t then 1 else 0) (put d n (suc_ℤ x))
unfolding suc_ℤ
Counted-put reachable d n x found = record {
  grown = λ t k r at. ground (arith, get-put d n t (suc_ℤ x));
  there = λ t r one_edge. ground arith;
  same_keys = λ t. ground (arith, get-put d n t (suc_ℤ x));
}

Counted-skip :
    (reachable : List ℕ) (d : Dict ℕ ℤ) (n : ℕ)
    → elem reachable n ≡ false
    → Counted reachable d (λ t. if n == t then 1 else 0) d
Counted-skip reachable d n u = record {
  grown = λ t k r at. ground arith;
  there = λ t r one_edge. absurd (ground arith);
  same_keys = λ t. refl;
}

pub count_edge-Counted :
    (reachable : List ℕ) (e : Edge) (d d' : Dict ℕ ℤ)
    → count_edge reachable e d ≡ ok d'
    → Counted reachable d (λ t. if e.target_id == t then 1 else 0) d'
unfolding count_edge
count_edge-Counted reachable e d d' h = elim (Bool-cases (elem reachable e.target_id)) [
  | inl r ↦ elim (Option-cases (get d e.target_id)) [
    | inl missing ↦ absurd (ground arith)
    | inr (x, found) ↦
        let same : put d e.target_id (suc_ℤ x) ≡ d' = ground arith in
        subst (Counted reachable d _) same (Counted-put reachable d e.target_id x found)
  ]
  | inr u ↦
      let same : d ≡ d' = ground arith in
      subst (Counted reachable d _) same (Counted-skip reachable d e.target_id u)
]

count_edges-Counted :
    (reachable : List ℕ) (edges : List Edge) (d d' : Dict ℕ ℤ)
    → count_edges reachable edges d ≡ ok d'
    → Counted reachable d (edges_to edges) d'
unfolding count_edges edges_to
count_edges-Counted reachable [] d d' h =
    let same : d ≡ d' = cc in subst (Counted reachable d (λ t. 0)) same (Counted-refl reachable d)
count_edges-Counted reachable (e ∷ edges) d d' h =
    let (d₁, one_edge, rest) =
      >>=-eq-ok (count_edge reachable e d) (count_edges reachable edges) h in
    Counted-trans reachable d d₁ d' _ (edges_to edges)
      (count_edge-Counted reachable e d d₁ one_edge)
      (count_edges-Counted reachable edges d₁ d' rest)

pub survey_node-Counted :
    (routes : Dict String TraceRoute) (reachable : List ℕ) (node : Node) (a a' : Dict ℕ ToolAccess)
    (d d' : Dict ℕ ℤ)
    → survey_node routes reachable node (a, d) ≡ ok (a', d')
    → Counted reachable d
        (λ t. if elem reachable node.node_id then edges_to node.edge_to t else 0)
        d'
unfolding survey_node
survey_node-Counted routes reachable node a a' d d' h =
    elim (Bool-cases (elem reachable node.node_id)) [
      | inl r ↦ rw r (count_edges-Counted reachable node.edge_to d d' (ground arith))
      | inr u ↦ rw u (
          let same : d ≡ d' = ground arith in
          subst (Counted reachable d (λ t. 0)) same (Counted-refl reachable d))
    ]

-- After the survey an in-degree is the number of edges from reachable nodes.
pub survey-Counted :
    (routes : Dict String TraceRoute) (reachable : List ℕ) (g : Graph) (a a' : Dict ℕ ToolAccess)
    (d d' : Dict ℕ ℤ)
    → IsKeyed g
    → survey routes reachable g (a, d) ≡ ok (a', d')
    → Counted reachable d (owed reachable [] [] g) d'
unfolding survey owed elem
survey-Counted routes reachable [] a a' d d' keyed h =
    let same : d ≡ d' = ground arith in
    subst (Counted reachable d (λ t. 0)) same (Counted-refl reachable d)
survey-Counted routes reachable ((k, node) ∷ g) a a' d d' keyed h =
    let ((a₁, d₁), first, rest) =
      >>=-eq-ok (survey_node routes reachable node (a, d)) (survey routes reachable g) h in
    Counted-cong reachable d d' _ (owed reachable [] [] ((k, node) ∷ g))
      (λ t. ground (arith, keyed.0))
      (Counted-trans reachable d d₁ d' _ (owed reachable [] [] g)
        (survey_node-Counted routes reachable node a a₁ d d₁ first)
        (survey-Counted routes reachable g a₁ a' d₁ d' keyed.1 rest))
