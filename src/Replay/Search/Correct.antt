-- ===== src/Replay/Search/Correct.antt =====
-- `get_reachable_nodes` of atsuite/invoker.py, against paths of edges.
use atsuite.Base.{
  ℕ, zero, suc, ◌+◌, ◌≤◌, ◌≡◌, refl, subst, ◌||◌, some, List, [], ◌∷◌, ◌++◌, true, false, nat_eq,
  length, length-append, arith, Bool-cases, inl, inr, if◌then◌else◌,
}
use atsuite.Base.Dict.{get}
use atsuite.Base.Sets.{elem, elem-append, Unique}
use atsuite.Trace.{Graph}
use atsuite.Replay.Search.{target_ids, successors, search, edge_count, get_reachable_nodes}

-- A path of edges from `start` to an id.
pub data Reaches (g : Graph) (start : ℕ) : ℕ → Type 0 where
  here : Reaches g start start
  along : {m n : ℕ} → Reaches g start m → elem (successors g m) n ≡ true → Reaches g start n

-- The edges of the nodes that have not been expanded.
unexpanded : Graph → List ℕ → ℕ
unexpanded [] r = 0
unexpanded ((k, node) ∷ g) r =
    (if elem r k then 0 else length (target_ids node.edge_to)) + unexpanded g r

unexpanded-nil : (g : Graph) → unexpanded g [] ≡ edge_count g
unfolding unexpanded edge_count elem
unexpanded-nil [] = refl
unexpanded-nil ((k, node) ∷ g) = omega (arith, unexpanded-nil g)

unexpanded_mono : (g : Graph) (r : List ℕ) (n : ℕ) → unexpanded g (n ∷ r) ≤ unexpanded g r
unfolding unexpanded elem
unexpanded_mono [] r n = omega arith
unexpanded_mono ((k, node) ∷ g) r n = ground (arith, unexpanded_mono g r n)

unexpanded-expand :
    (g : Graph) (r : List ℕ) (n : ℕ)
    → elem r n ≡ false
    → length (successors g n) + unexpanded g (n ∷ r) ≤ unexpanded g r
unfolding unexpanded elem successors get
unexpanded-expand [] r n h = omega arith
unexpanded-expand ((k, node) ∷ g) r n h =
    ground (arith, unexpanded-expand g r n, unexpanded_mono g r n)

search_total :
    (f : ℕ) (g : Graph) (queue r : List ℕ)
    → length queue + unexpanded g r ≤ f
    → (found : List ℕ) × (search f g queue r ≡ some found)
unfolding search
search_total zero g [] r h = (r, refl)
search_total (suc f) g [] r h = (r, refl)
search_total zero g (n ∷ queue) r h = absurd (omega arith)
search_total (suc f) g (n ∷ queue) r h = elim (Bool-cases (elem r n)) [
  | inl seen ↦ rw (seen, search) (search_total f g queue r (omega arith))
  | inr fresh ↦
      rw (fresh, search)
        (search_total f g (queue ++ successors g n) (n ∷ r)
          (omega (arith, length-append queue (successors g n), unexpanded-expand g r n fresh)))
]

-- What the search keeps: the ids found are distinct, and reached from the start, as is the queue;
-- every edge of an expanded node leads to an id that is found or waits.
record Keeps (g : Graph) (start : ℕ) (queue r : List ℕ) : Type 0 where
  distinct : Unique r
  reached : (n : ℕ) → (elem r n || elem queue n) ≡ true → Reaches g start n
  closed :
      (m n : ℕ)
      → elem r m ≡ true
      → elem (successors g m) n ≡ true
      → (elem r n || elem queue n) ≡ true
  started : (elem r start || elem queue start) ≡ true

Keeps-seen :
    (g : Graph) (start n : ℕ) (queue r : List ℕ)
    → elem r n ≡ true
    → Keeps g start (n ∷ queue) r
    → Keeps g start queue r
unfolding elem
Keeps-seen g start n queue r seen k = record {
  distinct = k.distinct;
  reached = λ m h. k.reached m (ground arith);
  closed = λ m t h e. ground (arith, k.closed m t h e);
  started = ground (arith, k.started);
}

Keeps-expand :
    (g : Graph) (start n : ℕ) (queue r : List ℕ)
    → elem r n ≡ false
    → Keeps g start (n ∷ queue) r
    → Keeps g start (queue ++ successors g n) (n ∷ r)
unfolding elem
Keeps-expand g start n queue r fresh k = record {
  distinct = (fresh, k.distinct);
  reached = λ t h. elim (Bool-cases (elem r t || elem (n ∷ queue) t)) [
    | inl old ↦ k.reached t old
    | inr new ↦
        along (k.reached n (ground arith)) (ground (arith, elem-append queue (successors g n) t))
  ];
  closed = λ m t h e. ground (arith, k.closed m t, elem-append queue (successors g n) t);
  started = ground (arith, k.started, elem-append queue (successors g n) start);
}

search-Keeps :
    (f : ℕ) (g : Graph) (start : ℕ) (queue r found : List ℕ)
    → search f g queue r ≡ some found
    → Keeps g start queue r
    → Keeps g start [] found
unfolding search
search-Keeps zero g start [] r found e k = let p : r ≡ found = cc in subst (Keeps g start []) p k
search-Keeps (suc f) g start [] r found e k = let p : r ≡ found = cc in subst (Keeps g start []) p k
search-Keeps zero g start (n ∷ queue) r found e k = cc
search-Keeps (suc f) g start (n ∷ queue) r found e k = elim (Bool-cases (elem r n)) [
  | inl seen ↦
      search-Keeps f g start queue r found (rw (seen, search) at e)
        (Keeps-seen g start n queue r seen k)
  | inr fresh ↦
      search-Keeps f g start (queue ++ successors g n) (n ∷ r) found (rw (fresh, search) at e)
        (Keeps-expand g start n queue r fresh k)
]

Keeps-init : (g : Graph) (start : ℕ) → Keeps g start (start ∷ []) []
unfolding elem
Keeps-init g start = record {
  distinct = tt;
  reached = λ n h. let p : start ≡ n = ground arith in subst (Reaches g start) p here;
  closed = λ m n h e. absurd (ground arith);
  started = ground arith;
}

-- The search returns, whatever the graph: the fuel of one more than the edges is enough.
pub get_reachable_nodes_total :
    (g : Graph) (start : ℕ) → (found : List ℕ) × (get_reachable_nodes g start ≡ some found)
unfolding get_reachable_nodes
get_reachable_nodes_total g start =
    search_total (suc (edge_count g)) g (start ∷ []) [] (omega (arith, unexpanded-nil g))

-- What the search returns is a set, and an id is in it exactly if a path of edges leads to it.
pub record IsReachableSet (g : Graph) (start : ℕ) (found : List ℕ) : Type 0 where
  pub distinct : Unique found
  pub sound : (n : ℕ) → elem found n ≡ true → Reaches g start n
  pub complete : (n : ℕ) → Reaches g start n → elem found n ≡ true

complete_by :
    (g : Graph) (start : ℕ) (found : List ℕ)
    → Keeps g start [] found
    → (n : ℕ) → Reaches g start n
    → elem found n ≡ true
unfolding elem
complete_by g start found k n here = ground (arith, k.started)
complete_by g start found k n (along {m = m} path step) =
    ground (arith, k.closed m n (complete_by g start found k m path) step)

-- The search of `get_reachable_nodes` ends and returns a set without repetition that holds exactly
-- the ids to which a path of edges leads from the start.
pub get_reachable_nodes_lem :
    (g : Graph) (start : ℕ)
    → (found : List ℕ) × (get_reachable_nodes g start ≡ some found) × IsReachableSet g start found
unfolding get_reachable_nodes
get_reachable_nodes_lem g start =
    let (found, e) = get_reachable_nodes_total g start in
    let k : Keeps g start [] found =
      search-Keeps (suc (edge_count g)) g start (start ∷ []) [] found e (Keeps-init g start) in
    (
      found,
      e,
      record {
        distinct = k.distinct;
        sound = λ n h. k.reached n (ground arith);
        complete = complete_by g start found k;
      },
    )
