-- ===== src/Replay/Loop/Delivery.antt =====
-- Delivery of the edges of a completed node in `run_node` (atsuite/invoker.py).
use atsuite.Base.{
  ℕ, suc, ◌≡◌, refl, List, [], ◌∷◌, ◌++◌, true, false, nat_eq, if◌then◌else◌, arith, Bool-cases,
  inl, inr, ◌∙◌,
}
use atsuite.Base.Dict.{get-put, put, get_or}
use atsuite.Base.Int.{pos, is_zero}
use atsuite.Base.Json.{end}
use atsuite.Base.Sets.{elem, elem-append}
use atsuite.Base.Sets.Removal.{Unique-append_singleton}
use atsuite.Result.{ok}
use atsuite.Trace.{Edge}
use atsuite.Replay.Loop.{Plan, State, deliver_edge, deliver_edges, merge_input}
use atsuite.Replay.Loop.Invariant.{edges_to, is_live, debt, Inv}

-- The state after the delivery of one edge whose target is reachable and owes `d` more.
unfoldable pub delivered : Edge → ℕ → State → State
unfolding is_zero
delivered e d s = record s {
  incoming = put s.incoming e.target_id (merge_input e.params (get_or s.incoming e.target_id end));
  in_degree = put s.in_degree e.target_id (pos d);
  ready = if is_zero (pos d) then s.ready ++ e.target_id ∷ [] else s.ready;
}

skip-Inv :
    (p : Plan) (e : Edge) (edges : List Edge) (s : State)
    → elem p.reachable e.target_id ≡ false
    → Inv p (e ∷ edges) s
    → Inv p edges s
unfolding edges_to
skip-Inv p e edges s h v = record {
  pending_visited = v.pending_visited;
  pending_unique = v.pending_unique;
  visited_unique = v.visited_unique;
  ready_unique = v.ready_unique;
  ready_fresh = v.ready_fresh;
  ready_live = v.ready_live;
  ready_free = λ n m. ground (arith, v.ready_free n m);
  visited_live = v.visited_live;
  visited_free = λ n m. ground (arith, v.visited_free n m);
  degrees = λ t m. ground (arith, v.degrees t m);
  noticed = λ t m z. ground (arith, v.noticed t m);
  extra_live = λ t m r. v.extra_live t (omega arith) r;
}

delivered-Inv :
    (p : Plan) (e : Edge) (edges : List Edge) (s : State) (d : ℕ)
    → is_live p e.target_id ≡ true
    → debt p (e ∷ edges) s e.target_id ≡ suc d
    → Inv p (e ∷ edges) s
    → Inv p edges (delivered e d s)
unfolding edges_to delivered elem
delivered-Inv p e edges s d live owes v = record {
  pending_visited = v.pending_visited;
  pending_unique = v.pending_unique;
  visited_unique = v.visited_unique;
  ready_unique = ground (
    arith,
    v.ready_unique,
    Unique-append_singleton s.ready e.target_id v.ready_unique,
    v.ready_free e.target_id,
  );
  ready_fresh = λ n m.
      ground (arith, elem-append s.ready (e.target_id ∷ []) n, v.ready_fresh n, v.visited_free n);
  ready_live = λ n m. ground (arith, elem-append s.ready (e.target_id ∷ []) n, v.ready_live n);
  ready_free = λ n m. ground (arith, elem-append s.ready (e.target_id ∷ []) n, v.ready_free n);
  visited_live = v.visited_live;
  visited_free = λ n m. ground (arith, v.visited_free n m);
  degrees = λ t m. ground (arith, v.degrees t m, get-put s.in_degree e.target_id t (pos d));
  noticed = λ t m z. ground (arith, elem-append s.ready (e.target_id ∷ []) t, v.noticed t m);
  extra_live = λ t m r. v.extra_live t (omega arith) r;
}

deliver_edge-Inv :
    (p : Plan) (e : Edge) (edges : List Edge) (s : State)
    → Inv p (e ∷ edges) s
    → (s' : State) × (deliver_edge p e s ≡ ok s')
      × Inv p edges s'
      × (s'.visited ≡ s.visited)
      × (s'.pending ≡ s.pending)
      × (s'.scheduler ≡ s.scheduler)
unfolding deliver_edge delivered edges_to
deliver_edge-Inv p e edges s v = elim (Bool-cases (elem p.reachable e.target_id)) [
  | inl r ↦
      let d = debt p edges s e.target_id in
      let live : is_live p e.target_id ≡ true = v.extra_live e.target_id (ground arith) r in
      let owes : debt p (e ∷ edges) s e.target_id ≡ suc d = ground arith in
      (
        delivered e d s,
        ground (arith, v.degrees e.target_id live),
        delivered-Inv p e edges s d live owes v,
        refl,
        refl,
        refl,
      )
  | inr u ↦ (s, ground arith, skip-Inv p e edges s u v, refl, refl, refl)
]

-- All edges of a completed node are delivered without an error, and nothing stays owed for them.
pub deliver_edges-Inv :
    (p : Plan) (edges : List Edge) (s : State)
    → Inv p edges s
    → (s' : State) × (deliver_edges p edges s ≡ ok s')
      × Inv p [] s'
      × (s'.visited ≡ s.visited)
      × (s'.pending ≡ s.pending)
      × (s'.scheduler ≡ s.scheduler)
unfolding deliver_edges
deliver_edges-Inv p [] s v = (s, refl, v, refl, refl, refl)
deliver_edges-Inv p (e ∷ edges) s v =
    let (s₁, ran, v₁, a, b, c) = deliver_edge-Inv p e edges s v in
    let (s₂, ran₂, v₂, a₂, b₂, c₂) = deliver_edges-Inv p edges s₁ v₁ in
    (s₂, rw ran ran₂, v₂, a₂ ∙ a, b₂ ∙ b, c₂ ∙ c)
