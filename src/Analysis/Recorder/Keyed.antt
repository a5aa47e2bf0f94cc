-- ===== src/Analysis/Recorder/Keyed.antt =====
-- The nodes of a recorder (atsuite/analysis/observer.py) as a dict that every observation stands in
-- under its own id, and what sorting and indexing them again keeps.
use atsuite.Base.{
  ℕ, ◌≡◌, refl, ◌∙◌, false, ◌||◌, Option, none, some, List, [], ◌∷◌, map, nat_eq, string_eq, ◌==◌,
  if◌then◌else◌, arith, All, Bool-cases, inl, inr,
}
use atsuite.Base.Dict.{Dict, get, get-nil, put, get-put, values, All-put}
use atsuite.Base.Sets.{elem, Unique}
use atsuite.Analysis.Model.{NodeObservation}
use atsuite.Analysis.Recorder.{insert_node, sort_nodes, index_nodes}

pub option_eta :
    (o : Option NodeObservation) (n : ℕ)
    → ◌≡◌ {A = Option NodeObservation} (elim o [ none ↦ get [] n | some x ↦ some x ]) o
option_eta none n = get-nil n
option_eta (some x) n = refl

-- The first observation of a node.
pub by_id : List NodeObservation → ℕ → Option NodeObservation
by_id [] n = none
by_id (o ∷ nodes) n = if o.node_id == n then some o else by_id nodes n

abbrev pub ids : List NodeObservation → List ℕ
ids nodes = map (λ o. o.node_id) nodes

pub by_id-none :
    (nodes : List NodeObservation) (n : ℕ) → elem (ids nodes) n ≡ false → by_id nodes n ≡ none
unfolding by_id elem
by_id-none [] n h = refl
by_id-none (o ∷ nodes) n h = ground (arith, by_id-none nodes n)

pub get-index_nodes :
    (nodes : List NodeObservation) (d : Dict ℕ NodeObservation) (n : ℕ)
    → Unique (ids nodes)
    → get (index_nodes nodes d) n ≡ elim (by_id nodes n) [ none ↦ get d n | some o ↦ some o ]
unfolding index_nodes by_id
get-index_nodes [] d n u = refl
get-index_nodes (o ∷ nodes) d n u = elim (Bool-cases (o.node_id == n)) [
  | inl hit ↦
      let gone = by_id-none nodes n (ground (arith, u.0)) in
      get-index_nodes nodes (put d o.node_id o) n u.1
      ∙ rw (hit, gone) (get-put d o.node_id n o ∙ rw hit refl)
  | inr miss ↦
      get-index_nodes nodes (put d o.node_id o) n u.1
      ∙ rw miss (ground (arith, get-put d o.node_id n o))
]

pub elem-insert_node :
    (o : NodeObservation) (nodes : List NodeObservation) (n : ℕ)
    → elem (ids (insert_node o nodes)) n ≡ (o.node_id == n || elem (ids nodes) n)
unfolding elem insert_node
elem-insert_node o [] n = refl
elem-insert_node o (m ∷ nodes) n = ground (arith, elem-insert_node o nodes n)

pub elem-sort_nodes :
    (nodes : List NodeObservation) (n : ℕ) → elem (ids (sort_nodes nodes)) n ≡ elem (ids nodes) n
unfolding elem sort_nodes
elem-sort_nodes [] n = refl
elem-sort_nodes (o ∷ nodes) n =
    ground (arith, elem-insert_node o (sort_nodes nodes) n, elem-sort_nodes nodes n)

pub Unique-insert_node :
    (o : NodeObservation) (nodes : List NodeObservation)
    → elem (ids nodes) o.node_id ≡ false
    → Unique (ids nodes)
    → Unique (ids (insert_node o nodes))
unfolding elem insert_node
Unique-insert_node o [] new u = (refl, tt)
Unique-insert_node o (m ∷ nodes) new u =
    ground (arith, Unique-insert_node o nodes, elem-insert_node o nodes m.node_id)

pub Unique-sort_nodes :
    (nodes : List NodeObservation) → Unique (ids nodes) → Unique (ids (sort_nodes nodes))
unfolding sort_nodes
Unique-sort_nodes [] u = tt
Unique-sort_nodes (o ∷ nodes) u =
    Unique-insert_node o (sort_nodes nodes) (elem-sort_nodes nodes o.node_id ∙ u.0)
      (Unique-sort_nodes nodes u.1)

pub by_id-insert_node :
    (o : NodeObservation) (nodes : List NodeObservation) (n : ℕ)
    → elem (ids nodes) o.node_id ≡ false
    → by_id (insert_node o nodes) n ≡ (if o.node_id == n then some o else by_id nodes n)
unfolding elem insert_node by_id
by_id-insert_node o [] n new = refl
by_id-insert_node o (m ∷ nodes) n new = ground (arith, by_id-insert_node o nodes n)

pub by_id-sort_nodes :
    (nodes : List NodeObservation) (n : ℕ)
    → Unique (ids nodes)
    → by_id (sort_nodes nodes) n ≡ by_id nodes n
unfolding sort_nodes by_id
by_id-sort_nodes [] n u = refl
by_id-sort_nodes (o ∷ nodes) n u =
    by_id-insert_node o (sort_nodes nodes) n (elem-sort_nodes nodes o.node_id ∙ u.0)
    ∙ rw (by_id-sort_nodes nodes n u.1) refl

-- Every node is stored once, under its id.
pub record IsKeyed (d : Dict ℕ NodeObservation) : Type 0 where
  pub own_ids : All (λ e. e.1.node_id ≡ e.0) d
  pub unique : Unique (ids (values d))

pub by_id-values :
    (d : Dict ℕ NodeObservation) (n : ℕ)
    → All (λ e. e.1.node_id ≡ e.0) d
    → by_id (values d) n ≡ get d n
unfolding by_id get
by_id-values [] n h = refl
by_id-values ((k, o) ∷ d) n h = rw (h.0, by_id-values d n h.1) refl

pub put-own_ids :
    (d : Dict ℕ NodeObservation) (o : NodeObservation)
    → All (λ e. e.1.node_id ≡ e.0) d
    → All (λ e. e.1.node_id ≡ e.0) (put d o.node_id o)
put-own_ids d o h = All-put (λ e. e.1.node_id ≡ e.0) d o.node_id o h refl

pub elem-ids-put :
    (d : Dict ℕ NodeObservation) (o : NodeObservation) (n : ℕ)
    → All (λ e. e.1.node_id ≡ e.0) d
    → elem (ids (values (put d o.node_id o))) n ≡ (o.node_id == n || elem (ids (values d)) n)
unfolding elem put
elem-ids-put [] o n h = refl
elem-ids-put ((k, m) ∷ d) o n h = ground (arith, elem-ids-put d o n h.1, h.0)

pub Unique-put :
    (d : Dict ℕ NodeObservation) (o : NodeObservation)
    → All (λ e. e.1.node_id ≡ e.0) d
    → Unique (ids (values d))
    → Unique (ids (values (put d o.node_id o)))
unfolding elem put
Unique-put [] o h u = (refl, tt)
Unique-put ((k, m) ∷ d) o h u =
    ground (arith, Unique-put d o h.1 u.1, elem-ids-put d o m.node_id h.1, h.0)

pub put-IsKeyed :
    {d : Dict ℕ NodeObservation} (o : NodeObservation) → IsKeyed d → IsKeyed (put d o.node_id o)
put-IsKeyed {d} o v = record {
  own_ids = put-own_ids d o v.own_ids;
  unique = Unique-put d o v.own_ids v.unique;
}
