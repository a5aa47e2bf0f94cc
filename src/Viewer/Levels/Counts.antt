-- ===== src/Viewer/Levels/Counts.antt =====
-- Counting in the walk of compute_tool_graph_metrics (atsuite/cli/trace_viewer_metadata.py).
use atsuite.Base.{
  ℕ, zero, suc, ◌+◌, ◌≤◌, ◌≡◌, ◌⊎◌, refl, ◌∙◌, Option, none, some, List, [], ◌∷◌, nat_eq,
  if◌then◌else◌, length, arith, All, All-map, In, first, later, inl, inr, max, dec_le,
}
use atsuite.Base.Dict.{Dict, get, put, get-put, length-put}
use atsuite.Base.Int.{ℤ, pos, negsuc, suc_ℤ, pred_ℤ, is_zero}
use atsuite.Viewer.{ViewGraph}
use atsuite.Viewer.Schedule.{all_zero, zero_ids}
use atsuite.Viewer.Levels.{Drawn, draw, draw_at, draw_edge, draw_edges, no_edges}

-- How many ids still have edges to come.
unfoldable pub positives : Dict ℕ ℤ → ℕ
positives [] = 0
positives ((n, pos (suc d)) ∷ rest) = suc (positives rest)
positives ((n, d) ∷ rest) = positives rest

unfoldable pub weight_of : ℤ → ℕ
weight_of (pos (suc d)) = 1
weight_of d = 0

positives-cons :
    (n : ℕ) (d : ℤ) (rest : Dict ℕ ℤ) → positives ((n, d) ∷ rest) ≡ weight_of d + positives rest
unfolding positives weight_of
positives-cons n (pos (suc d)) rest = omega arith
positives-cons n (pos zero) rest = omega arith
positives-cons n (negsuc d) rest = omega arith

pub positives-put :
    (indegree : Dict ℕ ℤ) (n : ℕ) (d d' : ℤ)
    → get indegree n ≡ some d
    → positives (put indegree n d') + weight_of d ≡ positives indegree + weight_of d'
unfolding get put
positives-put [] n d d' found = cc
positives-put ((m, c) ∷ rest) n d d' found = ground (
  arith,
  positives-cons m c rest,
  positives-cons m d' rest,
  positives-cons m c (put rest n d'),
  positives-put rest n d d',
)

-- Counting down to zero ends an id.
pub weight-pred :
    (d : ℤ) → (if is_zero (pred_ℤ d) then 1 else 0) + weight_of (pred_ℤ d) ≤ weight_of d
unfolding weight_of is_zero pred_ℤ
weight-pred (pos zero) = omega arith
weight-pred (pos (suc zero)) = omega arith
weight-pred (pos (suc (suc d))) = omega arith
weight-pred (negsuc d) = omega arith

pub zero_ids-positives-le :
    (indegree : Dict ℕ ℤ) → length (zero_ids indegree) + positives indegree ≤ length indegree
unfolding zero_ids positives is_zero
zero_ids-positives-le [] = omega arith
zero_ids-positives-le ((n, pos zero) ∷ rest) = omega (arith, zero_ids-positives-le rest)
zero_ids-positives-le ((n, pos (suc d)) ∷ rest) = omega (arith, zero_ids-positives-le rest)
zero_ids-positives-le ((n, negsuc d) ∷ rest) = omega (arith, zero_ids-positives-le rest)

pub length-all_zero : (g : ViewGraph) → length (all_zero g) ≡ length g
unfolding all_zero
length-all_zero [] = refl
length-all_zero ((n, node) ∷ g) = omega (arith, length-all_zero g)

length-draw_at :
    (targets : Option (List ℕ)) (n : Option ℤ) (source target : ℕ) (d : Drawn)
    → get d.indegree target ≡ n
    → length (draw_at targets n source target d).indegree ≡ length d.indegree
unfolding draw_at
length-draw_at none n source target d e = refl
length-draw_at (some targets) none source target d e = refl
length-draw_at (some targets) (some n) source target d e =
    length-put d.indegree target (suc_ℤ n) n e

length-draw_edge :
    (source target : ℕ) (d : Drawn)
    → length (draw_edge source target d).indegree ≡ length d.indegree
unfolding draw_edge
length-draw_edge source target d =
    length-draw_at (get d.adjacency source) (get d.indegree target) source target d refl

pub length-draw_edges :
    (edges : List (ℕ × ℕ)) (d : Drawn) → length (draw_edges edges d).indegree ≡ length d.indegree
unfolding draw_edges
length-draw_edges [] d = refl
length-draw_edges ((source, target) ∷ edges) d =
    length-draw_edges edges (draw_edge source target d) ∙ length-draw_edge source target d

pub max_cases : (a b : ℕ) → (max a b ≡ a) ⊎ (max a b ≡ b)
max_cases a b = elim (dec_le a b) [ yes h ↦ inr (omega arith) | no h ↦ inl (omega arith) ]

-- Every item of a list stands in it.
pub all_in : (xs : List ℕ) → All (λ n. In n xs) xs
all_in [] = tt
all_in (x ∷ xs) = (first, All-map (λ n h. later h) xs (all_in xs))

pub put_keeps :
    (d : Dict ℕ ℕ) (n m v l : ℕ) → get d m ≡ some l → (l' : ℕ) × (get (put d n v) m ≡ some l')
put_keeps d n m v l h = elim (nat_eq.dec n m) [
  | yes same ↦ (v, ground (arith, get-put d n m v))
  | no differ ↦ (l, ground (arith, get-put d n m v))
]

pub length-draw : (g : ViewGraph) (edges : List (ℕ × ℕ)) → length (draw g edges).indegree ≡ length g
unfolding draw
length-draw g edges =
    length-draw_edges edges (record { adjacency = no_edges g; indegree = all_zero g })
    ∙ length-all_zero g
