-- ===== src/Replay/Loop/Completion.antt =====
-- A future that is done: its node counts as completed, and its edges are delivered.
use atsuite.Base.{
  ℕ, ◌+◌, ◌≡◌, refl, Bool, some, List, [], ◌∷◌, map, true, false, nat_eq, arith, Option-cases, inl,
  inr, ◌⊎◌, ap, ◌∙◌, length,
}
use atsuite.Base.Dict.{get, keys}
use atsuite.Base.Sets.{elem, Unique, remove, length-remove}
use atsuite.Base.Sets.Removal.{
  elem-remove_ne, elem-remove_self, Unique-remove, not_elem-remove, remove-split,
}
use atsuite.Result.{ok}
use mathlib.Core.List.{map-append}
use atsuite.Scheduler.{finish}
use atsuite.Scheduler.Refinement.{Agrees, finish-Agrees}
use atsuite.Trace.{Node, Graph}
use atsuite.Replay.Loop.{Plan, State, access_of, complete_node, complete_nodes}
use atsuite.Replay.Loop.Invariant.{edges_to, owed, completed, is_live, debt, Inv, IsClosed}
use atsuite.Replay.Loop.Delivery.{deliver_edges-Inv}

-- `owed` reads of each id only whether it is completed.
pub owed-cong :
    (reachable v w pv pw : List ℕ) (g : Graph) (t : ℕ)
    → ((k : ℕ) → completed v pv k ≡ completed w pw k)
    → owed reachable v pv g t ≡ owed reachable w pw g t
unfolding owed
owed-cong reachable v w pv pw [] t h = refl
owed-cong reachable v w pv pw ((k, node) ∷ g) t h =
    ground (arith, h k, owed-cong reachable v w pv pw g t h)

-- Where the node is not in the graph, its end changes nothing.
owed-absent :
    (reachable visited pending : List ℕ) (g : Graph) (n t : ℕ)
    → elem (keys g) n ≡ false
    → owed reachable visited (remove pending n) g t ≡ owed reachable visited pending g t
unfolding owed elem
owed-absent reachable visited pending [] n t h = refl
owed-absent reachable visited pending ((k, node) ∷ g) n t h =
    ground (arith, owed-absent reachable visited pending g n t, elem-remove_ne pending n k)

-- When a node ends, what it owed is what its edges carry.
owed-remove :
    (reachable visited pending : List ℕ) (g : Graph) (n t : ℕ) (node : Node)
    → Unique (keys g)
    → get g n ≡ some node
    → elem reachable n ≡ true
    → elem visited n ≡ true
    → elem pending n ≡ true
    → Unique pending
    → edges_to node.edge_to t + owed reachable visited (remove pending n) g t
      ≡ owed reachable visited pending g t
unfolding owed get
owed-remove reachable visited pending [] n t node u e r v w x = cc
owed-remove reachable visited pending ((k, other) ∷ g) n t node u e r v w x = ground (
  arith,
  owed-remove reachable visited pending g n t node u.1,
  owed-absent reachable visited pending g n t,
  elem-remove_ne pending n k,
  elem-remove_self pending n x,
)

-- `pending.pop(future)` and `finish`, before the edges are delivered.
unfoldable pub retired : Plan → ℕ → State → State
retired p n s = record s {
  pending = remove s.pending n;
  scheduler = finish s.scheduler (access_of p n);
}

retired-Inv :
    (p : Plan) (n : ℕ) (node : Node) (s : State)
    → IsClosed p
    → get p.graph n ≡ some node
    → elem s.pending n ≡ true
    → Inv p [] s
    → Inv p node.edge_to (retired p n s)
unfolding retired edges_to
retired-Inv p n node s c e m v =
    let live : is_live p n ≡ true = v.visited_live n (v.pending_visited n m) in
    let reach : elem p.reachable n ≡ true = ground arith in
    let moved : (t : ℕ) → debt p node.edge_to (retired p n s) t ≡ debt p [] s t = λ t. omega (
      arith,
      owed-remove p.reachable s.visited s.pending p.graph n t node c.keys_unique e reach
          (v.pending_visited n m) m v.pending_unique,
    ) in
    record {
      pending_visited = λ k h. ground (arith, v.pending_visited k, not_elem-remove s.pending n k);
      pending_unique = Unique-remove s.pending n v.pending_unique;
      visited_unique = v.visited_unique;
      ready_unique = v.ready_unique;
      ready_fresh = v.ready_fresh;
      ready_live = v.ready_live;
      ready_free = λ k h. moved k ∙ v.ready_free k h;
      visited_live = v.visited_live;
      visited_free = λ k h. moved k ∙ v.visited_free k h;
      degrees = λ t h. rw (moved t) (v.degrees t h);
      noticed = λ t h z. ground (arith, v.noticed t h, moved t);
      extra_live = c.edges_live n node reach e;
    }

-- The lock table agrees with the accesses of the pending nodes, or gates nothing.
abbrev pub Locked : Plan → State → Type 0
Locked p s = (s.scheduler.enabled ≡ false) ⊎ Agrees s.scheduler (map (access_of p) s.pending)

retired-Locked :
    (p : Plan) (n : ℕ) (s : State) → elem s.pending n ≡ true → Locked p s → Locked p (retired p n s)
unfolding retired finish
retired-Locked p n s m (inl off) = inl (ground arith)
retired-Locked p n s m (inr h) =
    let (front, back, whole, rest) = remove-split s.pending n m in
    inr (
      rw (rest, map-append)
        (finish-Agrees s.scheduler (map (access_of p) front) (map (access_of p) back)
          (access_of p n) (rw (whole, map-append) at h)))

-- What one completed node leaves: the invariant, the locks, and one future less.
pub complete_node-Inv :
    (p : Plan) (succeeds : ℕ → Bool) (n : ℕ) (s : State)
    → IsClosed p
    → succeeds n ≡ true
    → elem s.pending n ≡ true
    → Inv p [] s
    → Locked p s
    → (s' : State) × (complete_node p succeeds n s ≡ ok s')
      × Inv p [] s'
      × Locked p s'
      × (s'.visited ≡ s.visited)
      × (s'.pending ≡ remove s.pending n)
unfolding complete_node
complete_node-Inv p succeeds n s c good m v l =
    let live : is_live p n ≡ true = v.visited_live n (v.pending_visited n m) in
    elim (Option-cases (get p.graph n)) [
      | inl missing ↦ absurd (ground arith)
      | inr (node, e) ↦
          let (s', ran, v', a, b, d) =
            deliver_edges-Inv p node.edge_to (retired p n s) (retired-Inv p n node s c e m v) in
          let l' : Locked p (retired p n s) = retired-Locked p n s m l in
          (
            s',
            unfold retired in rw (good, e) ran,
            v',
            rw (b, d) l',
            unfold retired in a,
            unfold retired in b,
          )
    ]

-- `done` names distinct futures that are pending.
pub record IsDone (done pending : List ℕ) : Type 0 where
  pub distinct : Unique done
  pub waiting : (n : ℕ) → elem done n ≡ true → elem pending n ≡ true

pub complete_nodes-Inv :
    (p : Plan) (succeeds : ℕ → Bool) (done : List ℕ) (s : State)
    → IsClosed p
    → ((n : ℕ) → succeeds n ≡ true)
    → IsDone done s.pending
    → Inv p [] s
    → Locked p s
    → (s' : State) × (complete_nodes p succeeds done s ≡ ok s')
      × Inv p [] s'
      × Locked p s'
      × (s'.visited ≡ s.visited)
      × (length s'.pending + length done ≡ length s.pending)
unfolding complete_nodes elem
complete_nodes-Inv p succeeds [] s c good d v l = (s, refl, v, l, refl, omega arith)
complete_nodes-Inv p succeeds (n ∷ done) s c good d v l =
    let here : elem s.pending n ≡ true = d.waiting n (ground arith) in
    let (s₁, ran, v₁, l₁, a, b) = complete_node-Inv p succeeds n s c (good n) here v l in
    let later : IsDone done s₁.pending = record {
      distinct = d.distinct.1;
      waiting = λ k m. ground (arith, d.waiting k, elem-remove_ne s.pending n k, d.distinct.0);
    } in
    let (s₂, ran₂, v₂, l₂, a₂, b₂) = complete_nodes-Inv p succeeds done s₁ c good later v₁ l₁ in
    (s₂, rw ran ran₂, v₂, l₂, a₂ ∙ a, omega (arith, length-remove s.pending n here, ap length b))
