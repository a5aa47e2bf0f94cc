-- ===== src/Viewer/Schedule/Degrees.antt =====
-- The in-degrees from which compute_scheduled_start_times starts
-- (atsuite/cli/trace_viewer_metadata.py).
use atsuite.Base.{
  ℕ, zero, suc, ◌≡◌, refl, sym, ap, subst, ◌∙◌, true, false, none, some, List, [], ◌∷◌, nat_eq,
  arith, Bool-cases, Option-cases, inl, inr,
}
use atsuite.Base.Dict.{has, Dict, get, get-nil, put, keys, get-put}
use atsuite.Base.Int.{ℤ, pos, negsuc, suc_ℤ, is_zero}
use atsuite.Base.Sets.{elem, Unique}
use atsuite.Base.Sets.Keys.{Unique-keys-put}
use atsuite.Viewer.{ViewNode, ViewGraph, build_node_by_id}
use atsuite.Viewer.Schedule.{all_zero, count_edges, count_incoming, build_node_maps, zero_ids}
use atsuite.Viewer.Schedule.Debts.{
  owes, owes-index, count_incoming-get, ids_of, build_node_by_id-Unique,
}

pub keys-all_zero : (g : ViewGraph) → keys (all_zero g) ≡ keys g
unfolding all_zero
keys-all_zero [] = refl
keys-all_zero ((k, node) ∷ g) = ap (◌∷◌ k) (keys-all_zero g)

get-all_zero : (g : ViewGraph) (m : ℕ) (z : ℤ) → get (all_zero g) m ≡ some z → z ≡ pos 0
unfolding all_zero get
get-all_zero [] m z h = cc
get-all_zero ((k, node) ∷ g) m z h = ground (arith, get-all_zero g m z)

-- Counting keeps the keys.
count_edges-none :
    (targets : List ℕ) (d : Dict ℕ ℤ) (m : ℕ)
    → get d m ≡ none
    → get (count_edges targets d) m ≡ none
unfolding count_edges
count_edges-none [] d m h = h
count_edges-none (n ∷ targets) d m h = elim (Option-cases (get d n)) [
  | inl missing ↦ ground (arith, count_edges-none targets d m h)
  | inr (z, there) ↦
      let e =
        count_edges-none targets (put d n (suc_ℤ z)) m (ground (arith, get-put d n m (suc_ℤ z))) in
      ground (arith, e)
]

count_incoming-none :
    (nodes : List ViewNode) (d : Dict ℕ ℤ) (m : ℕ)
    → get d m ≡ none
    → get (count_incoming nodes d) m ≡ none
unfolding count_incoming
count_incoming-none [] d m h = h
count_incoming-none (node ∷ nodes) d m h =
    count_incoming-none nodes (count_edges node.targets d) m (count_edges-none node.targets d m h)

count_edges-Unique :
    (targets : List ℕ) (d : Dict ℕ ℤ) → Unique (keys d) → Unique (keys (count_edges targets d))
unfolding count_edges
count_edges-Unique [] d u = u
count_edges-Unique (n ∷ targets) d u = elim (Option-cases (get d n)) [
  | inl missing ↦ rw missing (count_edges-Unique targets d u)
  | inr (z, there) ↦
      rw there (count_edges-Unique targets (put d n (suc_ℤ z)) (Unique-keys-put d n (suc_ℤ z) u))
]

count_incoming-Unique :
    (nodes : List ViewNode) (d : Dict ℕ ℤ)
    → Unique (keys d)
    → Unique (keys (count_incoming nodes d))
unfolding count_incoming
count_incoming-Unique [] d u = u
count_incoming-Unique (node ∷ nodes) d u =
    count_incoming-Unique nodes (count_edges node.targets d) (count_edges-Unique node.targets d u)

elem-zero_ids : (d : Dict ℕ ℤ) (m : ℕ) → elem (zero_ids d) m ≡ true → elem (keys d) m ≡ true
unfolding zero_ids elem
elem-zero_ids [] m h = cc
elem-zero_ids ((k, z) ∷ d) m h = ground (arith, elem-zero_ids d m)

pub is_zero-eq : (z : ℤ) → is_zero z ≡ true → z ≡ pos 0
unfolding is_zero
is_zero-eq (pos zero) h = refl
is_zero-eq (pos (suc n)) h = cc
is_zero-eq (negsuc n) h = cc

-- An id is ready at first if its in-degree is zero.
pub zero_ids-get :
    (d : Dict ℕ ℤ) (m : ℕ) → Unique (keys d) → elem (zero_ids d) m ≡ true → get d m ≡ some (pos 0)
unfolding zero_ids elem get
zero_ids-get [] m u h = cc
zero_ids-get ((k, z) ∷ d) m u h = elim (nat_eq.dec k m) [
  | yes same ↦ elim (Bool-cases (is_zero z)) [
    | inl e ↦ let z_is = is_zero-eq z e in ground arith
    | inr e ↦
        let rest : elem (zero_ids d) m ≡ true = ground arith in
        let there = elem-zero_ids d m rest in absurd (ground (arith, u.0))
  ]
  | no differ ↦ ground (arith, zero_ids-get d m u.1)
]

-- The in-degrees that _build_node_maps counts, if the ids of the nodes are distinct.
pub build_node_maps-owes :
    (nodes : List ViewNode) (m : ℕ) (z : ℤ)
    → Unique (ids_of nodes)
    → get (build_node_maps nodes).1 m ≡ some z
    → z ≡ pos (owes (build_node_by_id nodes) [] m)
unfolding build_node_maps build_node_by_id owes
build_node_maps-owes nodes m z u h =
    let g = build_node_by_id nodes in
    let debt = owes-index [] nodes m u (λ n there. get-nil n) in
    elim (Option-cases (get (all_zero g) m)) [
      | inl missing ↦ cc (count_incoming-none nodes (all_zero g) m missing)
      | inr (c, there) ↦
          let c_is = get-all_zero g m c there in
          let e = count_incoming-get nodes (all_zero g) m 0 (there ∙ ap some c_is) in
          ground (arith, debt)
    ]

pub ready-owes :
    (nodes : List ViewNode) (m : ℕ)
    → Unique (ids_of nodes)
    → elem (zero_ids (build_node_maps nodes).1) m ≡ true
    → owes (build_node_by_id nodes) [] m ≡ 0
unfolding build_node_maps
ready-owes nodes m u h =
    let g = build_node_by_id nodes in
    let unique =
      count_incoming-Unique nodes (all_zero g)
        (subst Unique (sym (keys-all_zero g)) (build_node_by_id-Unique nodes)) in
    let e = build_node_maps-owes nodes m (pos 0) u (zero_ids-get _ m unique h) in ground arith

-- What is ready at first, and which in-degrees there are.
get-all_zero-has : (g : ViewGraph) (m : ℕ) → has g m ≡ true → get (all_zero g) m ≡ some (pos 0)
unfolding all_zero get
get-all_zero-has [] m h = cc
get-all_zero-has ((k, node) ∷ g) m h = ground (arith, get-all_zero-has g m)

get-all_zero-none : (g : ViewGraph) (m : ℕ) → has g m ≡ false → get (all_zero g) m ≡ none
unfolding all_zero get
get-all_zero-none [] m h = refl
get-all_zero-none ((k, node) ∷ g) m h = ground (arith, get-all_zero-none g m)

pub zero_ids-has : (d : Dict ℕ ℤ) (m : ℕ) → get d m ≡ some (pos 0) → elem (zero_ids d) m ≡ true
unfolding zero_ids elem get is_zero
zero_ids-has [] m h = cc
zero_ids-has ((k, z) ∷ d) m h = elim (nat_eq.dec k m) [
  | yes same ↦ let z_is : z ≡ pos 0 = ground arith in rw z_is (ground arith)
  | no differ ↦ ground (arith, zero_ids-has d m)
]

pub zero_ids-Unique : (d : Dict ℕ ℤ) → Unique (keys d) → Unique (zero_ids d)
unfolding zero_ids elem
zero_ids-Unique [] u = tt
zero_ids-Unique ((k, z) ∷ d) u = elim (Bool-cases (is_zero z)) [
  | inr e ↦ rw e (zero_ids-Unique d u.1)
  | inl e ↦ rw e (
    elim (Bool-cases (elem (zero_ids d) k)) [
      | inr new ↦ new
      | inl old ↦ let there = elem-zero_ids d k old in absurd (ground (arith, u.0))
    ],
    zero_ids-Unique d u.1,
  )
]

module _ (nodes : List ViewNode) where
  degrees_unique : Unique (keys (build_node_maps nodes).1)
  unfolding build_node_maps
  degrees_unique =
      count_incoming-Unique nodes (all_zero (build_node_by_id nodes)) (
        subst Unique (sym (keys-all_zero (build_node_by_id nodes))) (build_node_by_id-Unique nodes))

  pub first_ready-Unique : Unique (zero_ids (build_node_maps nodes).1)
  first_ready-Unique = zero_ids-Unique (build_node_maps nodes).1 degrees_unique

  pub degree_covered :
      (m : ℕ)
      → has (build_node_by_id nodes) m ≡ true
      → (z : ℤ) × (get (build_node_maps nodes).1 m ≡ some z)
  unfolding build_node_maps
  degree_covered m h = (
    _,
    count_incoming-get nodes (all_zero (build_node_by_id nodes)) m 0
        (get-all_zero-has (build_node_by_id nodes) m h),
  )

  pub degree_in_graph :
      (m : ℕ) (z : ℤ)
      → get (build_node_maps nodes).1 m ≡ some z
      → has (build_node_by_id nodes) m ≡ true
  unfolding build_node_maps
  degree_in_graph m z h = elim (Bool-cases (has (build_node_by_id nodes) m)) [
    | inl e ↦ e
    | inr e ↦
        let none_there =
          count_incoming-none nodes (all_zero (build_node_by_id nodes)) m
            (get-all_zero-none (build_node_by_id nodes) m e) in
        cc
  ]

  pub first_ready-has :
      (m : ℕ)
      → elem (zero_ids (build_node_maps nodes).1) m ≡ true
      → has (build_node_by_id nodes) m ≡ true
  first_ready-has m h =
      degree_in_graph m (pos 0) (zero_ids-get (build_node_maps nodes).1 m degrees_unique h)

  pub owes-first_ready :
      (m : ℕ)
      → Unique (ids_of nodes)
      → has (build_node_by_id nodes) m ≡ true
      → owes (build_node_by_id nodes) [] m ≡ 0
      → elem (zero_ids (build_node_maps nodes).1) m ≡ true
  owes-first_ready m u known paid =
      let (z, at) = degree_covered m known in
      let z_is = build_node_maps-owes nodes m z u at in
      zero_ids-has (build_node_maps nodes).1 m (at ∙ ap some z_is ∙ ap (λ n. some (pos n)) paid)
